-- ===== src/Multibuffer/Bytes.antt =====
-- The bytes of a packet that was sent over several frames are the bytes of the payload.
use go_afxdp.Prelude.{
  ℕ, zero, suc, ◌+◌, ◌*◌, ◌%◌, ◌≤◌, ◌<◌, ◌≡◌, refl, ap, ap₂, ◌∙◌, ◌&&◌, List, [], ◌∷◌, ◌++◌, map,
  All, inl, inr, ◌⊎◌, length, take, drop, min, ltb, leb, arith, length-take, length-drop,
  take-append-drop, take-of_length_le, get_or, if_true, if_false,
}
use go_afxdp.Ring.{u32}
use go_afxdp.Socket.{Desc}
use go_afxdp.Multibuffer.{frames_of, write_frags, write_bytes, read_bytes, get_frame, copy_out}
use go_afxdp.Multibuffer.Group.{concat, copy_out_lem}
use go_afxdp.Multibuffer.Split.{Sized, frames_of_lem}

-- The frames of two descriptors do not overlap.
abbrev pub Disjoint : ℕ → Desc → Desc → Type 0
Disjoint fs d e = (d.addr + fs ≤ e.addr) ⊎ (e.addr + fs ≤ d.addr)

abbrev pub Apart : ℕ → List Desc → Type 0
Apart fs [] = Unit
Apart fs (d ∷ ds) = All (Disjoint fs d) ds × Apart fs ds

-- The byte at `i` is in none of the frames.
abbrev Outside : ℕ → List Desc → ℕ → Type 0
Outside fs ds i = All (λ d. (i < d.addr) ⊎ (d.addr + fs ≤ i)) ds

write_bytes-out :
    (umem : ℕ → ℕ) (addr : ℕ) (bytes : List ℕ) (i : ℕ)
    → (i < addr) ⊎ (addr + length bytes ≤ i)
    → write_bytes umem addr bytes i ≡ umem i
write_bytes-out umem addr bytes i (inl h) =
    if_false {b = leb addr i && ltb i (addr + length bytes)} _ _ (ground arith)
write_bytes-out umem addr bytes i (inr h) =
    if_false {b = leb addr i && ltb i (addr + length bytes)} _ _ (ground arith)

read_bytes-cong :
    (u v : ℕ → ℕ) (addr n : ℕ)
    → ((i : ℕ) → addr ≤ i → i < addr + n → u i ≡ v i)
    → read_bytes u addr n ≡ read_bytes v addr n
read_bytes-cong u v addr zero h = refl
read_bytes-cong u v addr (suc n) h =
    ap₂ (λ x xs. x ∷ xs) (h addr (omega arith) (omega arith))
      (read_bytes-cong u v (addr + 1) n (λ i p q. h i (omega arith) (omega arith)))

-- Reading a list of bytes by their offsets.
read_bytes-list :
    (u : ℕ → ℕ) (addr : ℕ) (bytes : List ℕ)
    → ((i : ℕ) → i < length bytes → u (addr + i) ≡ get_or bytes i 0)
    → read_bytes u addr (length bytes) ≡ bytes
read_bytes-list u addr [] h = refl
read_bytes-list u addr (b ∷ bytes) h =
    ap₂ (λ x xs. x ∷ xs) (ap u (omega arith) ∙ h 0 (omega arith))
      (read_bytes-list u (addr + 1) bytes (λ i q. ap u (omega arith) ∙ h (suc i) (omega arith)))

read_bytes-write :
    (umem : ℕ → ℕ) (addr : ℕ) (bytes : List ℕ)
    → read_bytes (write_bytes umem addr bytes) addr (length bytes) ≡ bytes
read_bytes-write umem addr bytes = read_bytes-list (write_bytes umem addr bytes) addr bytes (λ i h.
    if_true {b = leb addr (addr + i) && ltb (addr + i) (addr + length bytes)} _ _ (ground arith)
    ∙ ap (λ j. get_or bytes j 0) (omega arith))

write_frags-out :
    (umem : ℕ → ℕ) (fs j : ℕ) (p : List ℕ) (ds : List Desc) (i : ℕ)
    → Sized fs ds
    → Outside fs ds i
    → (write_frags umem j p ds).0 i ≡ umem i
unfolding write_frags
write_frags-out umem fs zero p ds i sized out = refl
write_frags-out umem fs (suc j) p [] i sized out = refl
write_frags-out umem fs (suc j) p (d ∷ ds) i (size, sized) (here, out) =
    write_frags-out (write_bytes umem d.addr (take n p)) fs j (drop n p) ds i sized out
    ∙ write_bytes-out umem d.addr (take n p) i (shorter here)
  where
    n : ℕ
    n = min d.len (length p)

    shorter : (i < d.addr) ⊎ (d.addr + fs ≤ i) → (i < d.addr) ⊎ (d.addr + length (take n p) ≤ i)
    shorter (inl h) = inl h
    shorter (inr h) = inr (omega (arith, length-take n p, size))

outside :
    (fs : ℕ) (d : Desc) (ds : List Desc) (i : ℕ)
    → All (Disjoint fs d) ds
    → d.addr ≤ i
    → i < d.addr + fs
    → Outside fs ds i
outside fs d [] i h p q = tt
outside fs d (e ∷ ds) i (inl h, hs) p q = (inl (omega arith), outside fs d ds i hs p q)
outside fs d (e ∷ ds) i (inr h, hs) p q = (inr (omega arith), outside fs d ds i hs p q)

abbrev bytes_of : (ℕ → ℕ) → List Desc → List ℕ
bytes_of umem p = concat (map (get_frame umem) p)

bytes-write_frags :
    (umem : ℕ → ℕ) (fs j : ℕ) (p : List ℕ) (ds : List Desc)
    → fs < u32
    → Sized fs ds
    → Apart fs ds
    → j ≤ length ds
    → length p ≤ j * fs
    → let (umem', out, rest) = write_frags umem j p ds in bytes_of umem' out ≡ p
unfolding write_frags
bytes-write_frags umem fs zero [] ds small sized apart enough fits = refl
bytes-write_frags umem fs zero (b ∷ p) ds small sized apart enough fits = absurd (omega arith)
bytes-write_frags umem fs (suc j) p [] small sized apart enough fits = absurd (omega arith)
bytes-write_frags umem fs (suc j) p (d ∷ ds) small (size, sized) (away, apart) enough fits =
    ap₂ (λ xs ys. xs ++ ys) first
      (bytes-write_frags umem1 fs j (drop n p) ds small sized apart (omega arith) room)
    ∙ take-append-drop n p
  where
    n : ℕ
    n = min d.len (length p)

    umem1 : ℕ → ℕ
    umem1 = write_bytes umem d.addr (take n p)

    count : length (take n p) ≡ n
    count = omega (arith, length-take n p)

    room : length (drop n p) ≤ j * fs
    room =
        let split : suc j * fs ≡ j * fs + fs = grind arith in
        omega (arith, length-drop n p, size, split)

    first : read_bytes (write_frags umem1 j (drop n p) ds).0 d.addr (n % u32) ≡ take n p
    first =
        ap (read_bytes (write_frags umem1 j (drop n p) ds).0 d.addr) {x = n % u32}
          {y = length (take n p)} (omega (arith, count, size, small))
        ∙ read_bytes-cong (write_frags umem1 j (drop n p) ds).0 umem1 d.addr (length (take n p))
            (λ i h k.
              write_frags-out umem1 fs j (drop n p) ds i sized
                (outside fs d ds i away h (omega (arith, count, size))))
        ∙ read_bytes-write umem d.addr (take n p)

-- A payload that `sendBatchSG` writes to as many frames as it counted for it, with enough descriptors, of
-- whole frames that do not overlap, of a positive size in 32 bits: `CopyOut`, given the descriptors that it
-- wrote and a buffer with room for the payload, reads back the payload's bytes.
pub copy_out-write_frags :
    (umem : ℕ → ℕ) (fs room : ℕ) (p : List ℕ) (ds : List Desc)
    → 0 < fs
    → fs < u32
    → Sized fs ds
    → Apart fs ds
    → frames_of fs p ≤ length ds
    → length p ≤ room
    → let (umem', out, rest) = write_frags umem (frames_of fs p) p ds in copy_out umem' out room ≡ p
copy_out-write_frags umem fs room p ds pos small sized apart enough fits =
    let w : (ℕ → ℕ) × List Desc × List Desc = write_frags umem (frames_of fs p) p ds in
    (copy_out_lem w.0 w.1 room).0
    ∙ ap (take room) (
        bytes-write_frags umem fs (frames_of fs p) p ds small sized apart enough
          (frames_of_lem fs p pos).0)
    ∙ take-of_length_le room p fits
