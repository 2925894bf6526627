-- ===== src/Socket/Tx.antt =====
-- The transmit side of a valid socket: each method as a change of parts.
use go_afxdp.Prelude.{
  ◌+ℤ◌, ◌-ℤ◌, append-nil, ℕ, ◌%◌, ◌+◌, ◌-◌, ◌≤◌, ◌≡◌, refl, ap, sym, ◌∙◌, min, List, [], ◌++◌, map,
  arith, ltb, ◌==◌, if◌then◌else◌, length, take, length-take, take-of_length_le, if_false,
  Bool-cases, inl, inr,
}
use go_afxdp.Prelude.Count.{count}
use go_afxdp.Pool
use go_afxdp.Pool.{FramePool}
use go_afxdp.Socket.Frames.{Back, return_frames_lem}
use go_afxdp.Pool.Laws.{length-pop, pop-append}
use go_afxdp.Ring.{u32, Ring, u32_sub, free_slots, waiting, publish, consume}
use go_afxdp.Ring.Window
use go_afxdp.Ring.Window.{IsSize, publish_lem, consume_lem, free-add-used, waiting-eq-used}
use go_afxdp.Ring.Slots.{entries}
use go_afxdp.Socket.{
  Socket, Counters, Desc, capped, num_free_tx_slots, alloc, Answer, kick, kick_if_needed, transmit,
  return_frames, complete,
}
use go_afxdp.Socket.Inv.{IsValid, +ℤ-zero, -ℤ-zero}

abbrev pub tx_desc : Socket → ℕ → Desc
tx_desc s a = record { addr = a; len = s.options.frame_size % u32; options = 0 }

abbrev pub Allocs : Socket → ℕ → Type 0
Allocs s n =
    (p : FramePool) × (moved : List ℕ) × (alloc s n
      ≡ (record s { tx_pool = p }, map (tx_desc s) moved))
    × (p.free ++ moved ≡ s.tx_pool.free)
    × (length moved ≤ num_free_tx_slots s)
    × (length moved ≤ n)

-- `alloc` returns descriptors of whole frames for the addresses that it takes off the transmit pool, at
-- most as many as asked for and as the tx ring has free slots, and changes nothing else.
pub alloc_lem : (s : Socket) (n : ℕ) → Allocs s n
unfolding alloc
alloc_lem s n = elim (Bool-cases s.closing) [
  | inl e ↦ (s.tx_pool, [], rw e, append-nil _, omega arith, omega arith)
  | inr e ↦ (
    (Pool.pop s.tx_pool m []).0,
    (Pool.pop s.tx_pool m []).1,
    rw e,
    pop-append s.tx_pool m,
    rw e (ground (arith, length-pop s.tx_pool m)),
    ground (arith, length-pop s.tx_pool m),
  )
]
  where
    m : ℕ
    m = capped n (free_slots s.options.tx_ring_num_descs s.tx_ring)

-- A kick changes counters only.
pub kick_if_needed-eq :
    (s : Socket) (answers : List Answer)
    → (c : Counters) × (kick_if_needed s answers ≡ record s { stats = c })
unfolding kick_if_needed kick
kick_if_needed-eq s answers = ((kick_if_needed s answers).stats, ground arith)

abbrev pub Transmits : Socket → List Desc → List Answer → Type 0
Transmits s ds answers =
    (r : Ring Desc) × (c : Counters) × (q : ℕ) × (transmit s ds answers
      ≡ (record s { tx_ring = r; num_transmitted = s.num_transmitted +ℤ q; stats = c }, q))
    × (q ≡ min (length ds) (num_free_tx_slots s))
    × (entries s.options.tx_ring_num_descs r
        ≡ entries s.options.tx_ring_num_descs s.tx_ring ++ take q ds)
    × Window.IsValid s.options.tx_ring_num_descs r

clamp_take {ℓ} :
    {A : Type ℓ} (free : ℕ) (ds : List A)
    → (if ltb free (length ds) then take free ds else ds) ≡ take (min (length ds) free) ds
clamp_take free ds = elim (Bool-cases (ltb free (length ds))) [
  | inl e ↦ rw e (ap (λ t. take t ds) (ground arith))
  | inr e ↦ rw e (sym (take-of_length_le (min (length ds) free) ds (ground arith)))
]

-- On a valid socket `transmit` queues the first descriptors, in order, as many as the tx ring has free
-- slots for, returns their number, and changes nothing but the tx ring and counters.
pub transmit_lem :
    (s : Socket) (ds : List Desc) (answers : List Answer) → IsValid s → Transmits s ds answers
unfolding transmit
transmit_lem s ds answers v = elim (Bool-cases s.closing) [
  | inl e ↦ (
    s.tx_ring,
    s.stats,
    0,
    rw (e, +ℤ-zero s.num_transmitted),
    rw e (omega arith),
    sym (append-nil _),
    v.tx_ok,
  )
  | inr e ↦ elim (Bool-cases (length sent == 0)) [
    | inl z ↦ (
      s.tx_ring,
      s.stats,
      0,
      rw (e, clamp_take free ds, z, +ℤ-zero s.num_transmitted),
      rw e (ground (arith, count)),
      sym (append-nil _),
      v.tx_ok,
    )
    | inr z ↦ (
      ring,
      (kick_if_needed-eq queued answers).0,
      length sent,
      if_false _ _ e
          ∙ ap (λ n. finish (if ltb n (length ds) then take n ds else ds)) (if_false 0 free e)
          ∙ ap finish (clamp_take free ds)
          ∙ if_false _ _ z
          ∙ ap (λ t. (t, length sent)) (kick_if_needed-eq queued answers).1,
      rw e count,
      rw (count) put.0,
      put.2,
    )
  ]
]
  where
    free : ℕ
    free = free_slots s.options.tx_ring_num_descs s.tx_ring

    sent : List Desc
    sent = take (min (length ds) free) ds

    count : length sent ≡ min (length ds) free
    count = omega (arith, length-take (min (length ds) free) ds)

    ring : Ring Desc
    ring = publish (s.options.tx_ring_num_descs - 1) s.tx_ring sent

    queued : Socket
    queued = record s { tx_ring = ring; num_transmitted = s.num_transmitted +ℤ length sent }

    finish : List Desc → Socket × ℕ
    finish xs = if length xs == 0 then (s, 0) else (
      kick_if_needed
          (record s {
            tx_ring = publish (s.options.tx_ring_num_descs - 1) s.tx_ring xs;
            num_transmitted = s.num_transmitted +ℤ length xs;
          })
          answers,
      length xs,
    )

    put :
        (entries s.options.tx_ring_num_descs ring
          ≡ entries s.options.tx_ring_num_descs s.tx_ring ++ sent)
        × (u32_sub ring.producer ring.consumer
            ≡ u32_sub s.tx_ring.producer s.tx_ring.consumer + length sent)
        × Window.IsValid s.options.tx_ring_num_descs ring
    put =
        publish_lem v.tx_size s.tx_ring sent v.tx_ok
          (omega (arith, count, free-add-used v.tx_size s.tx_ring v.tx_ok))

abbrev pub Completes : Socket → ℕ → Type 0
Completes s n =
    (r : Ring ℕ) × (p : FramePool) × (q : FramePool) × (done : List ℕ) × (complete s n ≡ (
      record s {
        completion_ring = r;
        rx_pool = p;
        tx_pool = q;
        num_transmitted = s.num_transmitted -ℤ length done;
      },
      length done,
    ))
    × (done ++ entries s.options.completion_ring_num_descs r
        ≡ entries s.options.completion_ring_num_descs s.completion_ring)
    × Window.IsValid s.options.completion_ring_num_descs r
    × Back s done p q

-- `complete` takes the oldest completions, and gives their frames back to the pools.
pub complete_lem : (s : Socket) (n : ℕ) → IsValid s → Completes s n
unfolding complete return_frames
complete_lem s n v = elim (Bool-cases s.closing) [
  | inl e ↦ (
    s.completion_ring,
    s.rx_pool,
    s.tx_pool,
    [],
    rw (e, -ℤ-zero s.num_transmitted),
    refl,
    v.completion_ok,
    (λ f. unfold count in (omega arith), λ h. refl),
  )
  | inr e ↦
      let (p, q, same, back) = return_frames_lem s taken.1 in
      (
        taken.0,
        p,
        q,
        taken.1,
        if_false _ _ e
            ∙ ap (λ t. finish (return_frames s (ring t).1) t) (if_false 0 available e)
            ∙ ap (λ u. finish u available) same
            ∙ ap (λ t. (completed p q t, t)) (sym took.1),
        took.0,
        took.3,
        back,
      )
]
  where
    available : ℕ
    available = waiting s.options.completion_ring_num_descs s.completion_ring

    m : ℕ
    m = capped n available

    ring : ℕ → Ring ℕ × List ℕ
    ring t = consume (s.options.completion_ring_num_descs - 1) s.completion_ring (capped n t)

    finish : Socket → ℕ → Socket × ℕ
    finish u t = (
      record u { completion_ring = (ring t).0; num_transmitted = s.num_transmitted -ℤ capped n t },
      capped n t,
    )

    taken : Ring ℕ × List ℕ
    taken = consume (s.options.completion_ring_num_descs - 1) s.completion_ring m

    completed : FramePool → FramePool → ℕ → Socket
    completed p q t = record s {
      completion_ring = taken.0;
      rx_pool = p;
      tx_pool = q;
      num_transmitted = s.num_transmitted -ℤ t;
    }

    took :
        (taken.1 ++ entries s.options.completion_ring_num_descs taken.0
          ≡ entries s.options.completion_ring_num_descs s.completion_ring)
        × (length taken.1 ≡ m)
        × (u32_sub taken.0.producer taken.0.consumer + m
            ≡ u32_sub s.completion_ring.producer s.completion_ring.consumer)
        × Window.IsValid s.options.completion_ring_num_descs taken.0
    took =
        consume_lem v.completion_size s.completion_ring m v.completion_ok
          (ground (arith, waiting-eq-used v.completion_size s.completion_ring v.completion_ok))
