-- ===== src/Multibuffer/Group.antt =====
-- Receiving packets: no fragment is lost, and only whole packets come out.
use go_afxdp.Prelude.{
  map, subst, length-append, zero, suc, ==_iff, ℕ, ◌+◌, ◌-◌, ◌≡◌, refl, ap, sym, ◌∙◌, true, false,
  List, [], ◌∷◌, ◌++◌, append_assoc, append-nil, All, ◌-ℤ◌, All-append, Bool-cases, inl, inr,
  if_false, length, take, min, ◌&&◌, ◌==◌, arith, length-take,
}
use go_afxdp.Ring.Slots.{entries}
use go_afxdp.Socket.{Socket, Desc}
use go_afxdp.Socket.Inv.{IsValid, receive_lem}
use go_afxdp.Multibuffer.{
  Packet, contd, group, gather, receive_packets, copy_out, get_frame, packet_len, read_bytes,
}

abbrev pub concat {ℓ} : {A : Type ℓ} → List (List A) → List A
concat [] = []
concat (xs ∷ xss) = xs ++ concat xss

abbrev pub Open : List Desc → Type 0
Open ds = All (λ d. contd d ≡ true) ds

-- Every fragment but the last is continued, and the last is not.
abbrev pub IsWhole : Packet → Type 0
IsWhole p =
    (front : List Desc) × (last : Desc) × (p ≡ front ++ (last ∷ []))
    × Open front
    × (contd last ≡ false)

pub group_lem :
    (current ds : List Desc)
    → Open current
    → let (pkts, tail) = group current ds in
      (concat pkts ++ tail ≡ current ++ ds) × All IsWhole pkts × Open tail
unfolding group
group_lem current [] h = (sym (append-nil current), tt, h)
group_lem current (d ∷ ds) h = elim (Bool-cases (contd d)) [
  | inl c ↦
      let (e, whole, opened) =
        group_lem (current ++ (d ∷ [])) ds (All-append _ current (d ∷ []) h (c, tt)) in
      rw c (e ∙ append_assoc current (d ∷ []) ds, whole, opened)
  | inr c ↦
      let (e, whole, opened) = group_lem [] ds tt in
      rw c (
        append_assoc (current ++ (d ∷ [])) (concat (group [] ds).0) (group [] ds).1
            ∙ ap (◌++◌ (current ++ (d ∷ []))) e
            ∙ append_assoc current (d ∷ []) ds,
        ((current, d, refl, h, c), whole),
        opened,
      )
]

-- The packets, the tail held back and the descriptors still on the ring make up those that were there.
abbrev pub Gathers : Socket → Socket × List Packet → Type 0
Gathers s out =
    let (s', pkts) = out in
    (concat pkts ++ (s'.pkt_partial ++ entries s.options.rx_ring_num_descs s'.rx_ring)
      ≡ s.pkt_partial ++ entries s.options.rx_ring_num_descs s.rx_ring)
    × All IsWhole pkts
    × Open s'.pkt_partial

nil_of : {A : Type 0} (xs : List A) → (length xs == 0) ≡ true → xs ≡ []
nil_of [] h = refl
nil_of (x ∷ xs) h = absurd (ground arith)

gather_lem :
    (s : Socket) (ds : List Desc)
    → Open s.pkt_partial
    → {all : List Desc} → ds ++ entries s.options.rx_ring_num_descs s.rx_ring ≡ all
    → let (s', pkts) = gather s ds in
      (concat pkts ++ (s'.pkt_partial ++ entries s.options.rx_ring_num_descs s'.rx_ring)
        ≡ s.pkt_partial ++ all)
      × All IsWhole pkts
      × Open s'.pkt_partial
gather_lem s ds h e = elim (Bool-cases ((length ds == 0) && (length s.pkt_partial == 0))) [
  | inl z ↦ rw z (
    ap (λ t. s.pkt_partial ++ t) (ap (λ t. t ++ ring) (sym (nil_of ds (ground arith))) ∙ e),
    tt,
    h,
  )
  | inr z ↦
      let (j, whole, opened) = group_lem [] (s.pkt_partial ++ ds) tt in
      rw z (
        sym (append_assoc (concat out.0) out.1 ring)
            ∙ ap (λ t. t ++ ring) j
            ∙ append_assoc s.pkt_partial ds ring
            ∙ ap (◌++◌ s.pkt_partial) e,
        whole,
        opened,
      )
]
  where
    ring : List Desc
    ring = entries s.options.rx_ring_num_descs s.rx_ring

    out : List Packet × List Desc
    out = group [] (s.pkt_partial ++ ds)

-- On a valid socket that holds back only continued fragments, the packets of `ReceivePackets`, the tail
-- it holds back and what is left on the rx ring make up, in order, the tail and the ring of before; every
-- packet is whole, and the new tail has continued fragments only.
pub receive_packets_lem :
    (s : Socket) (n : ℕ) → IsValid s → Open s.pkt_partial → Gathers s (receive_packets s n)
unfolding receive_packets
receive_packets_lem s n v h = elim (Bool-cases s.closing) [
  | inl c ↦ rw c (refl, tt, h)
  | inr c ↦
      let (r, ds, e, split, ok, le) = receive_lem s n v in
      subst (Gathers s) (sym (if_false _ _ c ∙ ap (λ t. gather t.0 t.1) e))
        (gather_lem (record s { rx_ring = r; num_filled = s.num_filled -ℤ length ds }) ds h split)
]

take-append {ℓ} :
    {A : Type ℓ} (n : ℕ) (xs ys : List A)
    → take n (xs ++ ys) ≡ take n xs ++ take (n - length (take n xs)) ys
take-append zero [] ys = refl
take-append (suc n) [] ys = ap (λ t. take t ys) {x = suc n} {y = suc n - 0} (omega arith)
take-append zero (x ∷ xs) ys = refl
take-append (suc n) (x ∷ xs) ys = ap (◌∷◌ x) (
    take-append n xs ys
    ∙ ap (λ t. take n xs ++ take t ys) {x = n - length (take n xs)}
        {y = suc n - suc (length (take n xs))} (omega arith))

length-read_bytes : (umem : ℕ → ℕ) (addr n : ℕ) → length (read_bytes umem addr n) ≡ n
length-read_bytes umem addr zero = refl
length-read_bytes umem addr (suc n) = ap suc (length-read_bytes umem (addr + 1) n)

length-packet :
    (umem : ℕ → ℕ) (p : Packet) → length (concat (map (get_frame umem) p)) ≡ packet_len p
unfolding packet_len
length-packet umem [] = refl
length-packet umem (d ∷ p) = omega (
  arith,
  length-append (get_frame umem d) (concat (map (get_frame umem) p)),
  length-read_bytes umem d.addr d.len,
  length-packet umem p,
)

copied :
    (umem : ℕ → ℕ) (p : Packet) (room : ℕ)
    → copy_out umem p room ≡ take room (concat (map (get_frame umem) p))
unfolding copy_out
copied umem [] zero = refl
copied umem [] (suc room) = refl
copied umem (d ∷ p) room = elim (Bool-cases (room == 0)) [
  | inl z ↦ rw (z, (==_iff room 0).0 z) refl
  | inr z ↦ rw z (
      ap (λ t. take room (get_frame umem d) ++ t)
        (copied umem p (room - length (take room (get_frame umem d))))
      ∙ sym (take-append room (get_frame umem d) (concat (map (get_frame umem) p))))
]

-- `CopyOut` writes the packet's bytes, in wire order, as far as the buffer has room, and their number is
-- the packet's length or the room, whichever is less.
pub copy_out_lem :
    (umem : ℕ → ℕ) (p : Packet) (room : ℕ)
    → (copy_out umem p room ≡ take room (concat (map (get_frame umem) p)))
      × (length (copy_out umem p room) ≡ min (packet_len p) room)
copy_out_lem umem p room = (
  copied umem p room,
  omega (
    arith,
    ap length (copied umem p room),
    length-take room (concat (map (get_frame umem) p)),
    length-packet umem p,
  ),
)
