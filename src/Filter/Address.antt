-- ===== src/Filter/Address.antt =====
-- What `cidrTest` (filter.go) decides on a little-endian host: the bytes at an offset start with the bits
-- of the prefix.
use go_afxdp.Prelude.{
  ℕ, zero, suc, ◌+◌, ◌-◌, ◌*◌, ◌%◌, ◌^◌, ◌≤◌, ◌≡◌, refl, ap, ◌∙◌, Bool, true, false, ◌&&◌, none,
  List, [], ◌∷◌, ◌++◌, if◌then◌else◌, leb, ◌==◌, bit_and, arith, length, Bool-cases, inl, inr,
  if_true, if_false, ==_iff,
}
use go_afxdp.Ebpf.{
  r3, r9, Target, entry, word, load_mem, and_imm, jne_imm32, Instr, ins, Regs, num, goto, little,
  octet, load, step, exec,
}
use go_afxdp.Ebpf.Run.{no_entry, over}
use go_afxdp.Filter.Cidr.{
  Prefix, cidr_mask, masked_bytes, mask_of, masked, le32, word_tests, cidr_test,
}
use go_afxdp.Filter.Classify.{ready}
use go_afxdp.Filter.Frame.{Bytes, octet-lt, at_base}
use go_afxdp.Filter.Words.{
  top, mask_word, word_tops, word_test-tops, no_word, top-and_byte, and_byte-lt,
}

-- The first `ones` bits of the bytes at `off` are those of `addr`.
abbrev pub in_prefix : ℕ → List ℕ → List ℕ → ℕ → Bool
in_prefix ones [] frame off = true
in_prefix ones (a ∷ addr) frame off =
    (top ones (octet frame off) == top ones a) && in_prefix (ones - 8) addr frame (off + 1)

-- Whole words: 4 bytes, or 16.
abbrev pub Words : List ℕ → Type 0
Words [] = Unit
Words (a ∷ b ∷ c ∷ d ∷ addr) = Words addr
Words _ = ⊥

-- What `netip.ParsePrefix` and `netip.PrefixFrom` promise of the address of a valid prefix.
pub record IsPrefix (p : Prefix) : Type 0 where
  pub size : length p.addr ≡ (if p.is4 then 4 else 16)
  pub octets : Bytes p.addr

and_assoc4 : (p q r s t : Bool) → (p && (q && (r && (s && t)))) ≡ ((p && (q && (r && s))) && t)
and_assoc4 true true true true t = refl
and_assoc4 true true true false t = refl
and_assoc4 true true false s t = refl
and_assoc4 true false r s t = refl
and_assoc4 false q r s t = refl

in_prefix_word :
    (ones a b c d : ℕ) (addr frame : List ℕ) (o : ℕ)
    → in_prefix ones (a ∷ b ∷ c ∷ d ∷ addr) frame o ≡ (
        word_tops ones
          (octet frame o)
          (octet frame (o + 1))
          (octet frame (o + 2))
          (octet frame (o + 3))
          a
          b
          c
          d
        && in_prefix (ones - 8 - 8 - 8 - 8) addr frame (o + 4))
in_prefix_word ones a b c d addr frame o =
    let e2 : o + 1 + 1 ≡ o + 2 = omega arith in
    let e3 : o + 2 + 1 ≡ o + 3 = omega arith in
    let e4 : o + 3 + 1 ≡ o + 4 = omega arith in
    rw (e2, e3, e4)
      (and_assoc4 (top ones (octet frame o) == top ones a)
        (top (ones - 8) (octet frame (o + 1)) == top (ones - 8) b)
        (top (ones - 8 - 8) (octet frame (o + 2)) == top (ones - 8 - 8) c)
        (top (ones - 8 - 8 - 8) (octet frame (o + 3)) == top (ones - 8 - 8 - 8) d)
        (in_prefix (ones - 8 - 8 - 8 - 8) addr frame (o + 4)))

module _ (frame : List ℕ) where
  abbrev word_test : ℕ → ℕ → ℕ → Target → List Instr → List Instr
  word_test off mw nw next rest =
      ins (load_mem r3 r9 off word)
      ∷ ins (and_imm r3 mw)
      ∷ ins (jne_imm32 r3 nw (entry next))
      ∷ rest

  word_lem :
      (b off mw nw : ℕ) (next : Target) (rest : List Instr) (s : Regs)
      → no_entry rest ≡ true
      → b + off + 4 ≤ length frame
      → (s' : Regs) × (exec little frame (word_test off mw nw next rest) none (at_base frame b s)
          ≡ (if bit_and (load little frame (b + off) word) mw % 2 ^ 32 == nw
              then exec little frame rest none (at_base frame b s')
              else goto (entry next) (ready frame (at_base frame b s'))))
  unfolding exec step
  word_lem b off mw nw next rest s ne hl = (
    s',
    elim (Bool-cases (bit_and (load little frame (b + off) word) mw % 2 ^ 32 == nw)) [
      | inl h ↦ rw (exec, inside, h) refl
      | inr h ↦ rw (exec, inside, h) (over little frame rest next (at_base frame b s') ne)
    ],
  )
    where
      s' : Regs
      s' = record s { v3 = num (bit_and (load little frame (b + off) word) mw) }

      inside : leb (b + off + 4) (length frame) ≡ true
      inside = ground arith

  abbrev tests : ℕ → ℕ → List ℕ → Target → List Instr
  tests off ones addr next = word_tests off addr (cidr_mask ones (length addr)) next

  pub word_tests-no_entry :
      (off ones : ℕ) (addr : List ℕ) (next : Target) (rest : List Instr)
      → Words addr
      → no_entry rest ≡ true
      → no_entry (tests off ones addr next ++ rest) ≡ true
  unfolding no_entry word_tests
  word_tests-no_entry off ones [] next rest w h = h
  word_tests-no_entry off ones (a ∷ []) next rest w h = absurd w
  word_tests-no_entry off ones (a ∷ b ∷ []) next rest w h = absurd w
  word_tests-no_entry off ones (a ∷ b ∷ c ∷ []) next rest w h = absurd w
  word_tests-no_entry off ones (a ∷ b ∷ c ∷ d ∷ addr) next rest w h =
      let ih = word_tests-no_entry (off + 4) (ones - 8 - 8 - 8 - 8) addr next rest w h in
      elim (Bool-cases (mask_word ones == 0)) [ inl e ↦ rw e ih | inr e ↦ rw e ih ]

  -- The words of an address, tested one after the other.
  pub word_tests_lem :
      (b off ones : ℕ) (addr : List ℕ) (next : Target) (rest : List Instr) (s : Regs)
      → Words addr
      → Bytes frame
      → Bytes addr
      → no_entry rest ≡ true
      → b + off + length addr ≤ length frame
      → (s' : Regs) × (exec little frame (tests off ones addr next ++ rest) none (at_base frame b s)
          ≡ (if in_prefix ones addr frame (b + off)
              then exec little frame rest none (at_base frame b s')
              else goto (entry next) (ready frame s')))
  unfolding word_tests load
  word_tests_lem b off ones [] next rest s w hf ha ne hl = (s, refl)
  word_tests_lem b off ones (x ∷ []) next rest s w hf ha ne hl = absurd w
  word_tests_lem b off ones (x ∷ y ∷ []) next rest s w hf ha ne hl = absurd w
  word_tests_lem b off ones (x ∷ y ∷ z ∷ []) next rest s w hf ha ne hl = absurd w
  word_tests_lem b off ones (x ∷ y ∷ z ∷ v ∷ addr) next rest s w hf (hx, (hy, (hz, (hv, ha)))) ne
        hl =
      let o = b + off in
      let left = ones - 8 - 8 - 8 - 8 in
      let mw = mask_word ones in
      let later : b + (off + 4) ≡ b + off + 4 = omega arith in
      let ih =
        λ (t : Regs). word_tests_lem b (off + 4) left addr next rest t w hf ha ne (omega arith) in
      let agree =
        word_tops ones (octet frame o) (octet frame (o + 1)) (octet frame (o + 2))
          (octet frame (o + 3)) x y z v in
      let split = in_prefix_word ones x y z v addr frame o in
      elim (Bool-cases (mw == 0)) [
        | inl e ↦
            let same : agree ≡ true =
              no_word ones (octet frame o) (octet frame (o + 1)) (octet frame (o + 2))
                (octet frame (o + 3)) x y z v (octet-lt frame o hf) (octet-lt frame (o + 1) hf)
                (octet-lt frame (o + 2) hf) (octet-lt frame (o + 3) hf) hx hy hz hv
                ((==_iff mw 0).0 e) in
            let (t, h) = ih s in (t, rw (e, split, same) (rw later at h))
        | inr e ↦
            let (t, h) =
              word_lem b off mw (bit_and (le32 x y z v) mw) next
                (tests (off + 4) left addr next ++ rest) s
                (word_tests-no_entry (off + 4) left addr next rest w ne) (omega arith) in
            let test =
              word_test-tops ones (octet frame o) (octet frame (o + 1)) (octet frame (o + 2))
                (octet frame (o + 3)) x y z v (octet-lt frame o hf) (octet-lt frame (o + 1) hf)
                (octet-lt frame (o + 2) hf) (octet-lt frame (o + 3) hf) hx hy hz hv in
            elim (Bool-cases agree) [
              | inl k ↦
                  let (u, h') = ih t in
                  (u, rw (e, split, k) (h ∙ if_true _ _ (test ∙ k) ∙ (rw later at h')))
              | inr k ↦ (at_base frame b t, rw (e, split, k) (h ∙ if_false _ _ (test ∙ k)))
            ]
      ]

  masked_bytes-in_prefix :
      (ones : ℕ) (addr : List ℕ) (off : ℕ)
      → Bytes addr
      → in_prefix ones (masked_bytes addr (cidr_mask ones (length addr))) frame off
        ≡ in_prefix ones addr frame off
  masked_bytes-in_prefix ones [] off h = refl
  masked_bytes-in_prefix ones (a ∷ addr) off (ha, h) =
      rw (top-and_byte ones a ha, masked_bytes-in_prefix (ones - 8) addr (off + 1) h)

  -- The bytes at `off` are an address inside the prefix.
  abbrev pub covers : Prefix → ℕ → Bool
  covers p off = in_prefix p.bits p.addr frame off

length-masked_bytes :
    (ones : ℕ) (addr : List ℕ)
    → length (masked_bytes addr (cidr_mask ones (length addr))) ≡ length addr
length-masked_bytes ones [] = refl
length-masked_bytes ones (a ∷ addr) = ap suc (length-masked_bytes (ones - 8) addr)

masked_bytes-Bytes :
    (ones : ℕ) (addr : List ℕ)
    → Bytes addr
    → Bytes (masked_bytes addr (cidr_mask ones (length addr)))
masked_bytes-Bytes ones [] h = tt
masked_bytes-Bytes ones (a ∷ addr) (ha, h) =
    (and_byte-lt ones a ha, masked_bytes-Bytes (ones - 8) addr h)

length-Words : (k : ℕ) (addr : List ℕ) → length addr ≡ k * 4 → Words addr
length-Words k [] h = tt
length-Words k (a ∷ []) h = absurd (omega arith)
length-Words k (a ∷ b ∷ []) h = absurd (omega arith)
length-Words k (a ∷ b ∷ c ∷ []) h = absurd (omega arith)
length-Words zero (a ∷ b ∷ c ∷ d ∷ addr) h = absurd (omega arith)
length-Words (suc k) (a ∷ b ∷ c ∷ d ∷ addr) h = length-Words k addr (omega arith)

-- A valid prefix has whole words, and its mask is as long as its address.
IsPrefix-Words : (p : Prefix) → IsPrefix p → Words p.addr
IsPrefix-Words p v = length-Words (if p.is4 then 1 else 4) p.addr (ground (arith, v.size))

mask_of-length : (p : Prefix) → IsPrefix p → mask_of p ≡ cidr_mask p.bits (length p.addr)
mask_of-length p v = rw v.size

pub masked-IsPrefix : (p : Prefix) → IsPrefix p → IsPrefix (masked p)
masked-IsPrefix p v = record {
  size = rw (mask_of-length p v) (length-masked_bytes p.bits p.addr ∙ v.size);
  octets = rw (mask_of-length p v) (masked_bytes-Bytes p.bits p.addr v.octets);
}

-- `Masked` changes no address inside the prefix.
pub covers-masked :
    (frame : List ℕ) (p : Prefix) (off : ℕ)
    → IsPrefix p
    → covers frame (masked p) off ≡ covers frame p off
covers-masked frame p off v =
    rw (mask_of-length p v) (masked_bytes-in_prefix frame p.bits p.addr off v.octets)

module _ (frame : List ℕ) (p : Prefix) (v : IsPrefix p) where
  pub cidr_test-no_entry :
      (off : ℕ) (next : Target) (rest : List Instr)
      → no_entry rest ≡ true
      → no_entry (cidr_test off p next ++ rest) ≡ true
  unfolding cidr_test
  cidr_test-no_entry off next rest h =
      rw (mask_of-length p v)
        (word_tests-no_entry frame off p.bits p.addr next rest (IsPrefix-Words p v) h)

  -- `cidrTest` goes on if the address at `off` is inside the prefix, and to `next` if not.
  pub cidr_test_lem :
      (b off : ℕ) (next : Target) (rest : List Instr) (s : Regs)
      → Bytes frame
      → no_entry rest ≡ true
      → b + off + (if p.is4 then 4 else 16) ≤ length frame
      → (s' : Regs) × (exec little frame (cidr_test off p next ++ rest) none (at_base frame b s) ≡ (
          if covers frame p (b + off)
          then exec little frame rest none (at_base frame b s')
          else goto (entry next) (ready frame s')))
  unfolding cidr_test
  cidr_test_lem b off next rest s hf ne hl = rw (mask_of-length p v) (
      word_tests_lem frame b off p.bits p.addr next rest s (IsPrefix-Words p v) hf v.octets ne
        (rw v.size hl))
