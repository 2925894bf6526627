-- ===== src/Custom/Shape.antt =====
-- Blocks of `NewMatch` (match.go) and the tests that end them.
use go_afxdp.Prelude.{
  ℕ, ◌+◌, ◌%◌, ◌^◌, ◌≤◌, ◌<◌, ◌≡◌, refl, ◌∙◌, Bool, true, ◌&&◌, none, some, List, [], ◌∷◌,
  if◌then◌else◌, length, leb, ◌==◌, Bool-cases, inl, inr, arith, if_true, if_false,
}
use go_afxdp.Ebpf.{
  r3, r9, Target, entry, fb_notag, byte, half, load_mem, ja, jeq_imm, jeq_imm32, jne_imm, Instr,
  ins, num, Regs, goto, Endian, octet, load, step, exec,
}
use go_afxdp.Ebpf.Run.{no_entry, target_eq_refl}
use go_afxdp.Filter.{netshort}
use go_afxdp.Filter.Emit.{with_entry, l3_base}
use go_afxdp.Filter.Match.{Match, built}
use go_afxdp.Filter.Classify.{ready, Decides}
use go_afxdp.Filter.Frame.{
  Bytes, at_base, base_of, be16, half-eq, has_ether_type, unnamed, unnamed-no_entry, unnamed_lem,
}
use go_afxdp.Filter.Rules.{skips_entry, byte_test}

-- What NewMatch adds to a block that falls through on no match.
abbrev pub falls_to : Target → List Instr
falls_to next = ins (ja (entry next)) ∷ []

module _ (host : Endian) (frame : List ℕ) where
  -- A block on `FrameBase`, `Bounds` and one EtherType, whose rest decides `c` on the frames that get there.
  pub framed-Decides :
      (m : Match) (n t : ℕ) (rest : Target → Target → List Instr) (c : Bool)
      → m.build
        ≡ some (λ e next hit.
          built (with_entry e (unnamed host frame fb_notag n t (rest next hit) e next)))
      → Bytes frame
      → t < 65536
      → 14 ≤ n
      → ((next hit : Target) → no_entry (rest next hit) ≡ true)
      → (base_of frame + n ≤ length frame
          → (next hit : Target) (s : Regs)
          → (s' : Regs) × (exec host frame (rest next hit) none (at_base frame (base_of frame) s)
              ≡ goto (entry (if c then hit else next)) (ready frame s')))
      → Decides host frame m (has_ether_type n t frame && c)
  framed-Decides m n t rest c hm hb ht hn ne go = record {
    block = λ e next hit. with_entry e (unnamed host frame fb_notag n t (rest next hit) e next);
    builds = hm;
    enters = λ e next hit s. unfold exec with_entry l3_base in (rw (exec, target_eq_refl e) refl);
    skips = λ e next hit u s.
        skips_entry host frame e u (unnamed host frame fb_notag n t (rest next hit) e next) s
          (unnamed-no_entry host frame fb_notag n t (rest next hit) e next (ne next hit));
    runs = λ e next hit s.
        let (s1, h1) =
          unnamed_lem host frame fb_notag n t (rest next hit) e next s refl (ne next hit) hb ht
            hn in
        let same : exec host frame
              (with_entry e (unnamed host frame fb_notag n t (rest next hit) e next)) none
              (ready frame s)
            ≡ exec host frame (unnamed host frame fb_notag n t (rest next hit) e next) none
                (ready frame s) =
          unfold exec step with_entry l3_base in refl in
        elim (Bool-cases (has_ether_type n t frame)) [
          | inl k ↦
              let (s2, h2) = go (ground arith) next hit s1 in
              (s2, same ∙ h1 ∙ if_true _ _ k ∙ h2 ∙ rw k refl)
          | inr k ↦ (s1, same ∙ h1 ∙ if_false _ _ k ∙ rw k refl)
        ];
  }

  -- The last test: on equality to `hit`, else on to the next block.
  pub last_test :
      (k v : ℕ) (next hit : Target) (s : Regs)
      → exec host frame
          (ins (jeq_imm r3 k (entry hit)) ∷ falls_to next)
          none
          (record s { v3 = num v })
        ≡ goto (entry (if v == k then hit else next)) (record s { v3 = num v })
  unfolding exec step
  last_test k v next hit s = elim (Bool-cases (v == k)) [
    | inl h ↦ rw (exec, h) refl
    | inr h ↦ rw (exec, h) refl
  ]

  pub last_test32 :
      (k v : ℕ) (next hit : Target) (s : Regs)
      → exec host frame
          (ins (jeq_imm32 r3 k (entry hit)) ∷ falls_to next)
          none
          (record s { v3 = num v })
        ≡ goto (entry (if v % 2 ^ 32 == k then hit else next)) (record s { v3 = num v })
  unfolding exec step
  last_test32 k v next hit s = elim (Bool-cases (v % 2 ^ 32 == k)) [
    | inl h ↦ rw (exec, h) refl
    | inr h ↦ rw (exec, h) refl
  ]

  abbrev with_proto : ℕ → (Target → Target → List Instr) → Target → Target → List Instr
  with_proto proto tail next hit =
      ins (load_mem r3 r9 23 byte) ∷ ins (jne_imm r3 proto (entry next)) ∷ tail next hit

  -- The same for IPv4 of one protocol.
  pub ipv4-Decides :
      (m : Match) (n proto : ℕ) (tail : Target → Target → List Instr) (c : Bool)
      → m.build
        ≡ some (λ e next hit. built (
            with_entry e
              (unnamed host frame fb_notag n 0x0800 (with_proto proto tail next hit) e next)))
      → Bytes frame
      → 24 ≤ n
      → ((next hit : Target) → no_entry (tail next hit) ≡ true)
      → (base_of frame + n ≤ length frame
          → (next hit : Target) (s : Regs)
          → (s' : Regs) × (exec host frame (tail next hit) none (at_base frame (base_of frame) s)
              ≡ goto (entry (if c then hit else next)) (ready frame s')))
      → Decides host frame m
          (has_ether_type n 0x0800 frame && ((octet frame (base_of frame + 23) == proto) && c))
  ipv4-Decides m n proto tail c hm hb hn ne go =
      framed-Decides m n 0x0800 (with_proto proto tail)
        ((octet frame (base_of frame + 23) == proto) && c) hm hb (omega arith) (omega arith)
        (λ next hit. unfold no_entry in ne next hit)
        (λ hl next hit s.
          let b = base_of frame in
          let (t, h) =
            byte_test host frame b 23 proto next (tail next hit) s (ne next hit) (omega arith) in
          let (u, h') = go hl next hit t in
          elim (Bool-cases (octet frame (b + 23) == proto)) [
            | inl k ↦ (u, h ∙ if_true _ _ k ∙ h' ∙ rw k refl)
            | inr k ↦ (at_base frame b t, h ∙ if_false _ _ k ∙ rw k refl)
          ])

  -- A 16-bit field as the last test.
  pub last_half :
      (b off v : ℕ) (next hit : Target) (s : Regs)
      → Bytes frame
      → v < 65536
      → b + off + 2 ≤ length frame
      → (s' : Regs) × (exec host frame
            (ins (load_mem r3 r9 off half)
              ∷ ins (jeq_imm r3 (netshort host v) (entry hit))
              ∷ falls_to next)
            none
            (at_base frame b s)
          ≡ goto (entry (if be16 frame (b + off) == v then hit else next)) (ready frame s'))
  unfolding exec step
  last_half b off v next hit s hb hv hl = (
    record (at_base frame b s) { v3 = num (load host frame (b + off) half) },
    rw (exec, inside, ← half-eq host frame (b + off) v hb hv)
        (last_test (netshort host v) (load host frame (b + off) half) next hit (at_base frame b s)),
  )
    where
      inside : leb (b + off + 2) (length frame) ≡ true
      inside = ground arith
