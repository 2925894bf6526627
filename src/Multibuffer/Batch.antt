-- ===== src/Multibuffer/Batch.antt =====
-- The frames of SendBatch (socket.go) and sendBatchSG (multibuffer.go), whatever the outcome.
use go_afxdp.Prelude.{
  ℕ, ◌≤◌, ◌≡◌, refl, sym, ap, ◌∙◌, subst, Bool, true, false, Option, none, some, List, [], length,
  take, drop, ltb, ◌==◌, arith, length-map, if◌then◌else◌, length-take, take-append-drop,
}
use go_afxdp.Socket.{Socket, Desc, Answer, alloc, complete, num_completed, num_free_tx_slots}
use go_afxdp.Socket.Inv.{IsValid}
use go_afxdp.Socket.Tx.{alloc_lem, tx_desc}
use go_afxdp.Multibuffer.{
  SendError, over_long, fit, give_back, queue_packets, send_batch_sg, send_batch, longer,
  copy_payload, multi_buffer,
}
use go_afxdp.Multibuffer.Hands.{
  Hands, Hands-trans, same, complete-Hands, alloc-Hands, give_back-Hands, kick_if_needed-Hands,
}
use go_afxdp.Multibuffer.Conserve.{send_func-Hands}
use go_afxdp.Multibuffer.Split.{frames_in}
use go_afxdp.Multibuffer.Chains.{
  nothing, give_back-slots, part-Hands, queue_packets-Hands, fit_frames,
}

-- What every branch of sendBatchSG has to keep.
abbrev Keeps : Socket → List Desc → Socket × ℕ × Option SendError → Type 0
Keeps s ds r = Hands s ds r.0 []

Keeps-if :
    {s : Socket} {ds : List Desc} (b : Bool) (x y : Socket × ℕ × Option SendError)
    → (b ≡ true → Keeps s ds x)
    → (b ≡ false → Keeps s ds y)
    → Keeps s ds (if b then x else y)
Keeps-if true x y h k = h refl
Keeps-if false x y h k = k refl

Keeps-elim :
    {s : Socket} (o : Option ℕ) (f : ℕ → Socket × ℕ × Option SendError)
    (y : Socket × ℕ × Option SendError)
    → ((i : ℕ) → Keeps s [] (f i))
    → Keeps s [] y
    → Keeps s [] (elim o [ some i ↦ f i | none ↦ y ])
Keeps-elim (some i) f y h k = h i
Keeps-elim none f y h k = k

-- With the frames that Alloc came up with: those of fewer packets, where they are not enough.
module _ (s : Socket) (v : IsValid s) (fs : ℕ) (size : s.options.frame_size ≡ fs)
    (payloads : List (List ℕ)) (descs : List Desc) (room : length descs ≤ num_free_tx_slots s)
    (answers : List Answer) where
  queued :
      (s' : Socket) (n : ℕ) (ds : List Desc)
      → Hands s descs s' ds
      → length ds ≤ num_free_tx_slots s'
      → length ds ≡ frames_in fs (take n payloads)
      → Keeps s descs (let all = queue_packets s' n payloads ds answers in (all.0, all.1, none))
  queued s' n ds h slots e = Hands-trans h (
      queue_packets-Hands s' n payloads ds answers h.valid slots (
        e
        ∙ ap (λ o. frames_in o (take n payloads)) (sym (ap (λ o. o.frame_size) h.options ∙ size))))

  abbrev fitted : ℕ × ℕ
  fitted = fit fs (length descs) 0 0 payloads

  abbrev short : Socket
  short = give_back s (drop fitted.0 descs)

  handed : Hands s descs short (take fitted.0 descs)
  handed =
      part-Hands (take fitted.0 descs) (drop fitted.0 descs) descs (take-append-drop fitted.0 descs)
        (give_back-Hands s (drop fitted.0 descs) v)

  few-Keeps :
      let some_of = queue_packets short fitted.1 payloads (take fitted.0 descs) answers in
      Keeps s descs (if fitted.1 == 0 then (short, 0, none) else (some_of.0, some_of.1, none))
  few-Keeps =
      let (e, within) = fit_frames fs (length descs) payloads in
      let count : length (take fitted.0 descs) ≡ fitted.0 =
        length-take fitted.0 descs ∙ omega (arith, within) in
      Keeps-if (fitted.1 == 0) _ _
        (λ z.
          let no_packet : fitted.1 ≡ 0 = ground arith in
          let no_frame : fitted.0 ≡ 0 = e ∙ ap (λ n. frames_in fs (take n payloads)) no_packet in
          subst (Hands s descs short) (nothing (take fitted.0 descs) (count ∙ no_frame)) handed)
        (λ z.
          queued short fitted.1 (take fitted.0 descs) handed
            (omega (arith, give_back-slots s (drop fitted.0 descs), room, count, within))
            (count ∙ e))

  enough-Keeps :
      (n_frames n_pkts : ℕ)
      → length descs ≤ n_frames
      → n_frames ≡ frames_in fs (take n_pkts payloads)
      → ltb (length descs) n_frames ≡ false
      → Keeps s descs
          (let all = queue_packets s n_pkts payloads descs answers in (all.0, all.1, none))
  enough-Keeps n_frames n_pkts le e z =
      queued s n_pkts descs (same s descs s.umem s.stats s.num_transmitted v) room
        (ground arith ∙ e)

sent-Hands :
    (s : Socket) (fs : ℕ) (payloads : List (List ℕ)) (answers : List Answer)
    → IsValid s
    → s.options.frame_size ≡ fs
    → let (n_frames, n_pkts) = fit fs (num_free_tx_slots s) 0 0 payloads in
      let (s2, descs) = alloc s n_frames in
      let (fewer, pkts) = fit fs (length descs) 0 0 payloads in
      let short = give_back s2 (drop fewer descs) in
      let all = queue_packets s2 n_pkts payloads descs answers in
      let some_of = queue_packets short pkts payloads (take fewer descs) answers in
      Keeps s [] (
        if ltb (length descs) n_frames
        then (if pkts == 0 then (short, 0, none) else (some_of.0, some_of.1, none))
        else (all.0, all.1, none))
sent-Hands s fs payloads answers v size =
    let n = (fit fs (num_free_tx_slots s) 0 0 payloads).0 in
    let got = alloc-Hands s n v in
    let here = ap (λ o. o.frame_size) got.options ∙ size in
    let (slots, few) = alloc-room s n in
    Hands-trans got (
      Keeps-if (ltb (length (alloc s n).1) n) _ _
        (λ z. few-Keeps (alloc s n).0 got.valid fs here payloads (alloc s n).1 slots answers)
        (enough-Keeps (alloc s n).0 got.valid fs here payloads (alloc s n).1 slots answers n
          (fit fs (num_free_tx_slots s) 0 0 payloads).1 few
          (fit_frames fs (num_free_tx_slots s) payloads).0))
  where
    alloc-room :
        (s : Socket) (n : ℕ)
        → (length (alloc s n).1 ≤ num_free_tx_slots (alloc s n).0) × (length (alloc s n).1 ≤ n)
    alloc-room s n =
        let (p, moved, e, pool, few, most) = alloc_lem s n in
        subst (λ (x : Socket × List Desc). (length x.1 ≤ num_free_tx_slots x.0) × (length x.1 ≤ n))
          (sym e)
          (omega (arith, length-map (tx_desc s) moved), omega (arith, length-map (tx_desc s) moved))

send_batch_sg-Hands :
    (s : Socket) (payloads : List (List ℕ)) (answers : List Answer)
    → IsValid s
    → Hands s [] (send_batch_sg s payloads answers).0 []
unfolding send_batch_sg
send_batch_sg-Hands s payloads answers v =
    let done = complete-Hands s (num_completed s) [] v in
    let s1 = (complete s (num_completed s)).0 in
    let fs = s.options.frame_size in
    Keeps-if s.closing _ _ (λ c. same s [] s.umem s.stats s.num_transmitted v)
      (λ c. Hands-trans done (
        Keeps-if (num_free_tx_slots s1 == 0) _ _
          (λ z. kick_if_needed-Hands s1 [] answers done.valid)
          (λ z.
            Keeps-elim (over_long fs 0 payloads) _ _
              (λ i. same s1 [] s1.umem s1.stats s1.num_transmitted done.valid)
              (Keeps-if ((fit fs (num_free_tx_slots s1) 0 0 payloads).1 == 0) _ _
                (λ e. same s1 [] s1.umem s1.stats s1.num_transmitted done.valid)
                (λ e.
                  sent-Hands s1 fs payloads answers done.valid
                    (ap (λ o. o.frame_size) done.options))))))

-- On a valid socket, whatever the payloads and whatever the kernel answers, SendBatch leaves every frame as
-- often in the pools and on the transmit rings as before, with multi-buffer packets or without: a closed
-- socket, a full ring, a payload that is too long or spans too many frames, and a transmit pool that comes
-- up short included. The socket stays valid.
pub send_batch-Hands :
    (s : Socket) (payloads : List (List ℕ)) (answers : List Answer)
    → IsValid s
    → Hands s [] (send_batch s payloads answers).0 []
unfolding send_batch
send_batch-Hands s payloads answers v =
    Keeps-if (multi_buffer s) _ _ (λ e. send_batch_sg-Hands s payloads answers v)
      (λ e.
        Keeps-elim (longer s.options.frame_size 0 payloads) _ _
          (λ i. same s [] s.umem s.stats s.num_transmitted v)
          (send_func-Hands s v (length payloads) (copy_payload payloads) answers))
