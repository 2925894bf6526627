-- ===== src/Multibuffer/Chains.antt =====
-- The descriptors of sendBatchSG (multibuffer.go): the frames that it writes, queues and gives back.
use go_afxdp.Prelude.{
  ℕ, zero, suc, ◌+◌, ◌-◌, ◌≤◌, ◌≡◌, refl, sym, ap, ◌∙◌, List, [], ◌∷◌, ◌++◌, length, take, drop,
  arith, length-map, min,
}
use mathlib.Core.List.{map-append}
use go_afxdp.Prelude.Count.{count}
use go_afxdp.Pool
use go_afxdp.Socket.{Socket, Desc, Answer, frame_base, num_free_tx_slots}
use go_afxdp.Socket.Frames.{tally, addrs}
use go_afxdp.Socket.Inv.{IsValid}
use go_afxdp.Multibuffer.{
  frames_of, fit, write_bytes, write_frags, write_packets, give_back, queue_packets,
}
use go_afxdp.Multibuffer.Hands.{held, Hands, same, transmit-Hands}
use go_afxdp.Multibuffer.Split.{frames_in, fit_lem}
use go_afxdp.World.Kept.{desc_parts}

-- Writing the fragments of a payload keeps the frames, in order, and uses one for each fragment.
write_frags-addrs :
    (umem : ℕ → ℕ) (j : ℕ) (p : List ℕ) (ds : List Desc)
    → let (umem', out, rest) = write_frags umem j p ds in
      (addrs out ++ addrs rest ≡ addrs ds) × (length rest ≡ length ds - j)
unfolding write_frags
write_frags-addrs umem zero p ds = (refl, omega arith)
write_frags-addrs umem (suc j) p [] = (refl, omega arith)
write_frags-addrs umem (suc j) p (d ∷ ds) =
    let (e, n) =
      write_frags-addrs (write_bytes umem d.addr (take (min d.len (length p)) p)) j
        (drop (min d.len (length p)) p) ds in
    (ap (◌∷◌ d.addr) e, omega (arith, n))

pub nothing : (ds : List Desc) → length ds ≡ 0 → ds ≡ []
nothing [] h = refl
nothing (d ∷ ds) h = absurd (omega arith)

-- With exactly the frames that some payloads take, the descriptors written are those frames, in order.
write_packets-addrs :
    (umem : ℕ → ℕ) (fs n : ℕ) (ps : List (List ℕ)) (ds : List Desc)
    → length ds ≡ frames_in fs (take n ps)
    → addrs (write_packets umem fs n ps ds).1 ≡ addrs ds
unfolding write_packets
write_packets-addrs umem fs zero ps ds h = ap addrs (sym (nothing ds h))
write_packets-addrs umem fs (suc n) [] ds h = ap addrs (sym (nothing ds h))
write_packets-addrs umem fs (suc n) (p ∷ ps) ds h =
    let (umem', out, rest) = write_frags umem (frames_of fs p) p ds in
    let (e, left) = write_frags-addrs umem (frames_of fs p) p ds in
    map-append _ out (write_packets umem' fs n ps rest).1
    ∙ ap (λ xs. addrs out ++ xs) (write_packets-addrs umem' fs n ps rest (omega (arith, h, left)))
    ∙ e

pub give_back-slots :
    (s : Socket) (ds : List Desc) → num_free_tx_slots (give_back s ds) ≡ num_free_tx_slots s
give_back-slots s [] = refl
give_back-slots s (d ∷ ds) =
    give_back-slots (record s { tx_pool = Pool.push s.tx_pool (frame_base s d.addr) }) ds

-- What is given back may be a part of what is in hand.
pub part-Hands :
    {s s' : Socket} (xs ys zs : List Desc) → xs ++ ys ≡ zs → Hands s ys s' [] → Hands s zs s' xs
unfolding count
part-Hands {s} {s'} xs ys zs e h = record {
  valid = h.valid;
  options = h.options;
  frames = λ f. omega (arith, h.frames f, desc_parts s.options.frame_size f xs ys e);
}

pub queue_packets-Hands :
    (s : Socket) (n : ℕ) (payloads : List (List ℕ)) (ds : List Desc) (answers : List Answer)
    → IsValid s
    → length ds ≤ num_free_tx_slots s
    → length ds ≡ frames_in s.options.frame_size (take n payloads)
    → Hands s ds (queue_packets s n payloads ds answers).0 []
queue_packets-Hands s n payloads ds answers v room h =
    let (umem, written) = write_packets s.umem s.options.frame_size n payloads ds in
    let k = write_packets-addrs s.umem s.options.frame_size n payloads ds h in
    let len : length written ≡ length ds =
      sym (length-map _ written) ∙ ap length k ∙ length-map _ ds in
    let start = same s ds umem s.stats s.num_transmitted v in
    let sent =
      transmit-Hands (record s { umem = umem }) written answers start.valid (omega (arith, len)) in
    record {
      valid = sent.valid;
      options = sent.options;
      frames = λ f.
          sent.frames f
          ∙ ap (λ xs. held s.options.frame_size f s + tally s.options.frame_size f xs) k;
    }

-- What is counted fits the budget, and it is the frames of the packets counted.
pub fit_frames :
    (fs budget : ℕ) (ps : List (List ℕ))
    → let (n_frames, n_pkts) = fit fs budget 0 0 ps in
      (n_frames ≡ frames_in fs (take n_pkts ps)) × (n_frames ≤ budget)
fit_frames fs budget ps =
    let (m, e, f, within, _, _) = fit_lem fs budget 0 0 ps (omega arith) in
    let same_count : (fit fs budget 0 0 ps).1 ≡ m = omega (arith, e) in
    (rw same_count (omega (arith, f)), within)
