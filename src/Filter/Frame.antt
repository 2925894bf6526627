-- ===== src/Filter/Frame.antt =====
-- Ethernet frames as the blocks are meant to read them, and the runs of the code that blocks share.
use go_afxdp.Prelude.{
  ℕ, zero, suc, ◌+◌, ◌*◌, ◌≤◌, ◌<◌, ◌≡◌, refl, sym, ◌∙◌, Bool, true, false, ◌&&◌, none, List, [],
  ◌∷◌, ◌++◌, if◌then◌else◌, length, All, ltb, leb, ◌==◌, Bool-cases, inl, inr, arith, if_true,
  if_false,
}
use go_afxdp.Ebpf.{
  r3, r9, Target, Tag, tag_eq, entry, inner, notag, half, mov_reg, add_imm, load_mem, jne_imm,
  Instr, ins, with_symbol, Regs, num, pkt, goto, Endian, little, big, octet, load, step, exec,
}
use go_afxdp.Ebpf.Run.{no_entry, over, target_eq_refl}
use go_afxdp.Filter.{off_ether_type, ether_type_vlan, netshort}
use go_afxdp.Filter.Emit.{with_entry, bounds_from, l3_base}
use go_afxdp.Filter.Match.{ether_block}
use go_afxdp.Filter.Classify.{ready}

-- A 16-bit field in network order.
abbrev pub be16 : List ℕ → ℕ → ℕ
be16 frame off = octet frame off * 256 + octet frame (off + 1)

-- Where the frame's fields start once a single VLAN tag is skipped.
abbrev pub base_of : List ℕ → ℕ
base_of frame = if be16 frame 12 == 0x8100 then 4 else 0

-- The frame, without its tag, has `n` bytes and the EtherType `t`.
abbrev pub has_ether_type : ℕ → ℕ → List ℕ → Bool
has_ether_type n t frame =
    leb 14 (length frame)
    && (leb (base_of frame + n) (length frame) && (be16 frame (base_of frame + 12) == t))

abbrev pub Bytes : List ℕ → Type 0
Bytes frame = All (λ b. b < 256) frame

pub octet-lt : (frame : List ℕ) (off : ℕ) → Bytes frame → octet frame off < 256
octet-lt [] off h = omega arith
octet-lt (b ∷ frame) zero h = h.0
octet-lt (b ∷ frame) (suc off) h = octet-lt frame off h.1

pub half-eq :
    (host : Endian) (frame : List ℕ) (off v : ℕ)
    → Bytes frame
    → v < 65536
    → (load host frame off half == netshort host v) ≡ (be16 frame off == v)
unfolding load netshort
half-eq big frame off v h k = refl
half-eq little frame off v h k = ground (arith, octet-lt frame off h, octet-lt frame (off + 1) h)

-- The registers past `l3Base`: R9 points to the frame's fields.
abbrev pub at_base : List ℕ → ℕ → Regs → Regs
at_base frame b s = record (ready frame s) { v9 = pkt b }

module _ (host : Endian) (frame : List ℕ) where
  pub bounds_from_lem :
      (b n : ℕ) (next : Target) (rest : List Instr) (s : Regs)
      → no_entry rest ≡ true
      → (s' : Regs) × (exec host frame (bounds_from r9 n next ++ rest) none (at_base frame b s) ≡ (
          if leb (b + n) (length frame)
          then exec host frame rest none (at_base frame b s')
          else goto (entry next) (ready frame (at_base frame b s'))))
  unfolding exec step bounds_from
  bounds_from_lem b n next rest s ne = (
    t,
    elim (Bool-cases (ltb (length frame) (b + n))) [
      | inl h ↦
          let no : leb (b + n) (length frame) ≡ false = ground arith in
          rw (exec, h, no) (over host frame rest next (at_base frame b t) ne)
      | inr h ↦ let yes : leb (b + n) (length frame) ≡ true = ground arith in rw (exec, h, yes) refl
    ],
  )
    where
      t : Regs
      t = record s { v2 = pkt (b + n) }

  -- The test of a 16-bit field at `off`, with R9 at the fields.
  pub half_test :
      (b off v : ℕ) (next : Target) (rest : List Instr) (s : Regs)
      → no_entry rest ≡ true
      → Bytes frame
      → v < 65536
      → b + off + 2 ≤ length frame
      → (s' : Regs) × (exec host frame
            (ins (load_mem r3 r9 off half) ∷ ins (jne_imm r3 (netshort host v) (entry next)) ∷ rest)
            none
            (at_base frame b s)
          ≡ (if be16 frame (b + off) == v
              then exec host frame rest none (at_base frame b s')
              else goto (entry next) (ready frame (at_base frame b s'))))
  unfolding exec step
  half_test b off v next rest s ne hb hv hl = (
    s',
    elim (Bool-cases (be16 frame (b + off) == v)) [
      | inl h ↦ rw (exec, inside, half-eq host frame (b + off) v hb hv, h) refl
      | inr h ↦
          rw (exec, inside, half-eq host frame (b + off) v hb hv, h)
            (over host frame rest next (at_base frame b s') ne)
    ],
  )
    where
      s' : Regs
      s' = record s { v3 = num (load host frame (b + off) half) }

      inside : leb (b + off + 2) (length frame) ≡ true
      inside = ground arith

  abbrev skip_tag : Target → Tag → List Instr → List Instr
  skip_tag e tag rest =
      ins (load_mem r3 r9 off_ether_type half)
      ∷ ins (jne_imm r3 (netshort host ether_type_vlan) (inner e tag))
      ∷ ins (add_imm r9 4)
      ∷ with_symbol (inner e tag) (ins (mov_reg r9 r9))
      ∷ rest

  skip_tag_lem :
      (e : Target) (tag : Tag) (rest : List Instr) (s : Regs)
      → tag_eq tag tag ≡ true
      → Bytes frame
      → 14 ≤ length frame
      → (s' : Regs) × (exec host frame (skip_tag e tag rest) none (at_base frame 0 s)
          ≡ exec host frame rest none (at_base frame (base_of frame) s'))
  unfolding exec step
  skip_tag_lem e tag rest s same hb hl = (
    s',
    elim (Bool-cases (be16 frame 12 == 0x8100)) [
      | inl h ↦ rw (exec, inside, half-eq host frame 12 0x8100 hb (omega arith), h) refl
      | inr h ↦
          rw
            (exec, inside, half-eq host frame 12 0x8100 hb (omega arith), h, same, target_eq_refl e)
            refl
    ],
  )
    where
      s' : Regs
      s' = record s { v3 = num (load host frame 12 half) }

      inside : leb 14 (length frame) ≡ true
      inside = ground arith

  l3_base-start :
      (e : Target) (tag : Tag) (next : Target) (rest : List Instr) (s : Regs)
      → exec host frame (l3_base host e tag next ++ rest) none (ready frame s)
        ≡ exec host frame (bounds_from r9 14 next ++ skip_tag e tag rest) none (at_base frame 0 s)
  unfolding exec step l3_base bounds_from
  l3_base-start e tag next rest s = refl

  -- `l3Base` leaves R9 at the fields of the frame, or gives up on one that is shorter than a header.
  pub l3_base_lem :
      (e : Target) (tag : Tag) (next : Target) (rest : List Instr) (s : Regs)
      → tag_eq tag tag ≡ true
      → no_entry rest ≡ true
      → Bytes frame
      → (s' : Regs) × (exec host frame (l3_base host e tag next ++ rest) none (ready frame s) ≡ (
          if leb 14 (length frame)
          then exec host frame rest none (at_base frame (base_of frame) s')
          else goto (entry next) (ready frame s')))
  l3_base_lem e tag next rest s same ne hb =
      let (t, h) = bounds_from_lem 0 14 next (skip_tag e tag rest) s (unfold no_entry in ne) in
      elim (Bool-cases (leb 14 (length frame))) [
        | inl k ↦
            let (t', h') = skip_tag_lem e tag rest t same hb (ground arith) in
            (t', l3_base-start e tag next rest s ∙ h ∙ if_true _ _ k ∙ h' ∙ sym (if_true _ _ k))
        | inr k ↦ (
          at_base frame 0 t,
          l3_base-start e tag next rest s ∙ h ∙ if_false _ _ k ∙ sym (if_false _ _ k),
        )
      ]

  -- The prefix of the blocks of one EtherType, up to the rest of the block.
  abbrev pub unnamed : Tag → ℕ → ℕ → List Instr → Target → Target → List Instr
  unnamed tag n t rest e next =
      l3_base host e tag next
      ++ (bounds_from r9 n next
          ++ (ins (load_mem r3 r9 off_ether_type half)
              ∷ ins (jne_imm r3 (netshort host t) (entry next))
              ∷ rest))

  pub unnamed-no_entry :
      (tag : Tag) (n t : ℕ) (rest : List Instr) (e next : Target)
      → no_entry rest ≡ true
      → no_entry (unnamed tag n t rest e next) ≡ true
  unfolding no_entry l3_base bounds_from
  unnamed-no_entry tag n t rest e next ne = ne

  pub unnamed_lem :
      (tag : Tag) (n t : ℕ) (rest : List Instr) (e next : Target) (s : Regs)
      → tag_eq tag tag ≡ true
      → no_entry rest ≡ true
      → Bytes frame
      → t < 65536
      → 14 ≤ n
      → (s' : Regs) × (exec host frame (unnamed tag n t rest e next) none (ready frame s) ≡ (
          if has_ether_type n t frame
          then exec host frame rest none (at_base frame (base_of frame) s')
          else goto (entry next) (ready frame s')))
  unnamed_lem tag n t rest e next s same ne hb ht hn =
      let tested =
        ins (load_mem r3 r9 off_ether_type half)
        ∷ ins (jne_imm r3 (netshort host t) (entry next))
        ∷ rest in
      let (s1, h1) =
        l3_base_lem e tag next (bounds_from r9 n next ++ tested) s same
          (unfold no_entry bounds_from in ne) hb in
      let (s2, h2) = bounds_from_lem (base_of frame) n next tested s1 (unfold no_entry in ne) in
      elim (Bool-cases (leb 14 (length frame))) [
        | inr k ↦ (s1, h1 ∙ rw k refl)
        | inl k ↦ elim (Bool-cases (leb (base_of frame + n) (length frame))) [
          | inr k' ↦ (at_base frame (base_of frame) s2, h1 ∙ if_true _ _ k ∙ h2 ∙ rw (k, k') refl)
          | inl k' ↦
              let (s3, h3) =
                half_test (base_of frame) off_ether_type t next rest s2 ne hb ht (ground arith) in
              let there = h1 ∙ if_true _ _ k ∙ h2 ∙ if_true _ _ k' ∙ h3 in
              elim (Bool-cases (be16 frame (base_of frame + 12) == t)) [
                | inl k'' ↦ (s3, there ∙ if_true _ _ k'' ∙ rw (k, k', k'') refl)
                | inr k'' ↦ (
                  at_base frame (base_of frame) s3,
                  there ∙ if_false _ _ k'' ∙ rw (k, k', k'') refl,
                )
              ]
        ]
      ]

  ether_block-start :
      (n t : ℕ) (rest : List Instr) (e next : Target) (s : Regs)
      → exec host frame (ether_block host n t rest e next) none (ready frame s)
        ≡ exec host frame (unnamed notag n t rest e next) none (ready frame s)
  unfolding exec step ether_block l3_base with_entry bounds_from
  ether_block-start n t rest e next s = refl

  pub ether_block_lem :
      (n t : ℕ) (rest : List Instr) (e next : Target) (s : Regs)
      → no_entry rest ≡ true
      → Bytes frame
      → t < 65536
      → 14 ≤ n
      → (s' : Regs) × (exec host frame (ether_block host n t rest e next) none (ready frame s) ≡ (
          if has_ether_type n t frame
          then exec host frame rest none (at_base frame (base_of frame) s')
          else goto (entry next) (ready frame s')))
  ether_block_lem n t rest e next s ne hb ht hn =
      let (s', h) = unnamed_lem notag n t rest e next s refl ne hb ht hn in
      (s', ether_block-start n t rest e next s ∙ h)
