-- ===== src/Multibuffer/Conserve.antt =====
-- SendFunc keeps the books: whatever the outcome, every frame stays in a pool or on a ring.
use go_afxdp.Prelude.{
  ℕ, suc, ◌+◌, ◌≤◌, ◌≡◌, refl, sym, ap, ◌∙◌, subst, Option, none, some, List, [], ◌∷◌, Bool-cases,
  Option-cases, inl, inr, length, take, ◌==◌, arith, length-map, if◌then◌else◌, if_true, if_false,
  ℤ,
}
use go_afxdp.Prelude.Count.{count}
use go_afxdp.Socket.{
  Socket, Desc, Counters, Answer, alloc, transmit, complete, num_free_tx_slots, kick_if_needed,
  add64, capped,
}
use go_afxdp.Socket.Frames.{tally, addrs}
use go_afxdp.Socket.Inv.{IsValid}
use go_afxdp.Socket.Tx.{alloc_lem, tx_desc}
use go_afxdp.Multibuffer.{
  bump, build_all, in_range, send_func, reclaim, submit, build_and_submit, SendError, get_frame,
  write_bytes,
}
use go_afxdp.Multibuffer.Hands.{
  held, Hands, Hands-trans, same, complete-Hands, alloc-Hands, give_back-Hands, transmit-Hands,
  kick_if_needed-Hands,
}

-- The descriptors that `build` has filled stand for the frames that it was given.
abbrev Stands : List Desc → Option (List Desc) → Type 0
Stands ds none = Unit
Stands ds (some ds') = (addrs ds' ≡ addrs ds) × (length ds' ≡ length ds)

build_all_lem :
    (build : ℕ → List ℕ → ℤ × List ℕ) (umem : ℕ → ℕ) (i : ℕ) (ds : List Desc)
    → Stands ds (build_all build umem i ds).1
unfolding build_all
build_all_lem build umem i [] = (refl, refl)
build_all_lem build umem i (d ∷ ds) =
    let written : ℕ → ℕ = write_bytes umem d.addr (take d.len (build i (get_frame umem d)).1) in
    let ih : Stands ds (build_all build written (i + 1) ds).1 =
      build_all_lem build written (i + 1) ds in
    elim (Option-cases (in_range (build i (get_frame umem d)).0 d.len)) [
      | inl e ↦ rw (build_all, e) tt
      | inr (len, e) ↦ elim (Option-cases (build_all build written (i + 1) ds).1) [
        | inl e' ↦ rw (build_all, e, e') tt
        | inr (ds', e') ↦
            let k : Stands ds (some ds') = subst (Stands ds) e' ih in
            rw (build_all, e, e') (ap (◌∷◌ d.addr) k.0, ap suc k.1)
      ]
    ]

-- Only the counters change here.
bumped :
    (s : Socket) (ds : List Desc) (c : Counters)
    → IsValid s
    → Hands s ds (record s { stats = c }) ds
bumped s ds c v = same s ds s.umem c s.num_transmitted v

reclaim-Hands : (s : Socket) (count : ℕ) → IsValid s → Hands s [] (reclaim s count) []
unfolding reclaim
reclaim-Hands s count v =
    let asked : Hands s [] (bump s (λ c. record c { send_req = add64 c.send_req count })) [] =
      bumped s [] _ v in
    let done : Hands s [] (complete _ _).0 [] =
      Hands-trans asked (complete-Hands _ _ [] asked.valid) in
    Hands-trans done (bumped _ [] _ done.valid)

submit-Hands :
    (s : Socket) (descs : List Desc) (answers : List Answer) (built : Option (List Desc)) (i : ℕ)
    → IsValid s
    → length descs ≤ num_free_tx_slots s
    → Stands descs built
    → Hands s descs (submit s descs answers built i).0 []
submit-Hands s descs answers none i v room k = give_back-Hands s descs v
submit-Hands s descs answers (some ds) i v room k =
    let sent : Hands s ds (transmit s ds answers).0 [] =
      transmit-Hands s ds answers v (subst (λ (n : ℕ). n ≤ num_free_tx_slots s) (sym k.1) room) in
    let all : Hands s ds (submit s descs answers (some ds) i).0 [] =
      Hands-trans sent (bumped _ [] _ sent.valid) in
    record {
      valid = all.valid;
      options = all.options;
      frames = λ f.
          all.frames f
          ∙ ap (λ xs. held s.options.frame_size f s + tally s.options.frame_size f xs) k.0;
    }

build_and_submit-Hands :
    (s : Socket) (n : ℕ) (build : ℕ → List ℕ → ℤ × List ℕ) (answers : List Answer)
    → IsValid s
    → Hands s [] (build_and_submit s n build answers).0 []
unfolding build_and_submit
build_and_submit-Hands s n build answers v =
    let got : Hands s [] (alloc s n).0 (alloc s n).1 = alloc-Hands s n v in
    let written : Hands (alloc s n).0 (alloc s n).1
        (record (alloc s n).0 { umem = _; stats = _; num_transmitted = _ }) (alloc s n).1 =
      same (alloc s n).0 (alloc s n).1 _ _ _ got.valid in
    Hands-trans (Hands-trans got written) (
      submit-Hands _ (alloc s n).1 answers _ _ written.valid (room n)
        (build_all_lem build (alloc s n).0.umem 0 (alloc s n).1))
  where
    room : (n : ℕ) → length (alloc s n).1 ≤ num_free_tx_slots (alloc s n).0
    room n =
        let (p, moved, e, pool, few, _) = alloc_lem s n in
        subst (λ (x : Socket × List Desc). length x.1 ≤ num_free_tx_slots x.0) (sym e)
          (omega (arith, length-map (tx_desc s) moved))

module _ (s : Socket) (v : IsValid s) (count : ℕ) (build : ℕ → List ℕ → ℤ × List ℕ)
    (answers : List Answer) where
  again : Socket × ℕ × Option SendError
  again =
      if num_free_tx_slots (reclaim s count) == 0
      then (
        kick_if_needed (bump (reclaim s count) (λ c. record c { ring_full = add64 c.ring_full 1 }))
            answers,
        0,
        none,
      )
      else build_and_submit (reclaim s count) (capped count (num_free_tx_slots (reclaim s count)))
          build answers

  opened : Hands s [] again.0 []
  unfolding again
  opened = elim (Bool-cases (num_free_tx_slots (reclaim s count) == 0)) [
    | inl z ↦
        subst (λ (x : Socket × ℕ × Option SendError). Hands s [] x.0 []) (sym (if_true _ _ z))
          (Hands-trans back (Hands-trans full (kick_if_needed-Hands _ [] answers full.valid)))
    | inr z ↦
        subst (λ (x : Socket × ℕ × Option SendError). Hands s [] x.0 []) (sym (if_false _ _ z))
          (Hands-trans back (build_and_submit-Hands _ _ build answers back.valid))
  ]
    where
      back : Hands s [] (reclaim s count) []
      back = reclaim-Hands s count v

      full :
          Hands
            (reclaim s count)
            []
            (bump (reclaim s count) (λ c. record c { ring_full = add64 c.ring_full 1 }))
            []
      full = bumped (reclaim s count) [] _ back.valid

  -- On a valid socket, whatever `build` returns and whatever the kernel answers, SendFunc leaves every frame
  -- as often in the pools and on the transmit rings as before: a length out of range, a full ring, a failed
  -- kick and a closed socket included. The socket stays valid.
  pub send_func-Hands : Hands s [] (send_func s count build answers).0 []
  unfolding send_func again
  send_func-Hands = elim (Bool-cases s.closing) [
    | inl c ↦
        subst (λ (x : Socket × ℕ × Option SendError). Hands s [] x.0 []) (sym (if_true _ _ c))
          (same s [] s.umem s.stats s.num_transmitted v)
    | inr c ↦
        subst (λ (x : Socket × ℕ × Option SendError). Hands s [] x.0 []) (sym (if_false _ _ c))
          opened
  ]
