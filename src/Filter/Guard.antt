-- ===== src/Filter/Guard.antt =====
-- The tests that the port blocks share (filter.go): the protocol, the ports, and the guard on IPv4 headers.
use go_afxdp.Prelude.{
  ℕ, ◌+◌, ◌*◌, ◌%◌, ◌/◌, ◌≤◌, ◌<◌, ◌≡◌, refl, ap, ◌∙◌, Bool, true, false, none, List, [], ◌∷◌, ◌++◌,
  if◌then◌else◌, length, leb, ◌==◌, Bool-cases, inl, inr, All, arith, if_true, if_false, bit_and,
}
use go_afxdp.Prelude.Bits.{bit_and-mask, bit_and_split}
use go_afxdp.Ebpf.{
  r3, r9, Target, entry, byte, half, load_mem, and_imm, jne_imm, Instr, ins, Regs, num, goto,
  Endian, little, big, octet, load, step, exec,
}
use go_afxdp.Ebpf.Run.{no_entry, over}
use go_afxdp.Filter.{netshort}
use go_afxdp.Filter.Emit.{ipv4_fixed_l4_guard}
use go_afxdp.Filter.Match.{port_tests, ports_or_all}
use go_afxdp.Filter.Classify.{ready}
use go_afxdp.Filter.Frame.{Bytes, octet-lt, at_base, be16, half-eq}
use go_afxdp.Filter.Rules.{byte_test}
use go_afxdp.Filter.Wanted.{member, port_ok, plain_ipv4, wanted}

little_mask : (a b : ℕ) → a < 256 → b < 256 → bit_and (a + 256 * b) 65311 ≡ b * 256 + a % 32
little_mask a b ha hb = omega (
  arith,
  bit_and_split 8 (a + 256 * b) 65311,
  ap (λ t. bit_and t 255) {x = (a + 256 * b) / 256} {y = b} (omega arith),
  ap (λ t. bit_and t 31) {x = (a + 256 * b) % 256} {y = a} (omega arith),
  bit_and-mask 8 b,
  bit_and-mask 5 a,
)

zero_eq : (a b : ℕ) → a < 256 → b < 256 → (b * 256 + a % 32 == 0) ≡ ((a * 256 + b) % 8192 == 0)
zero_eq a b ha hb = ground arith

frag_mask :
    (host : Endian) (frame : List ℕ) (off : ℕ)
    → Bytes frame
    → (bit_and (load host frame off half) (netshort host 0x1fff) == 0)
      ≡ (be16 frame off % 8192 == 0)
unfolding load netshort
frag_mask big frame off h = ap (λ t. t == 0) (bit_and-mask 13 (be16 frame off))
frag_mask little frame off h =
    let a = octet frame off in
    let b = octet frame (off + 1) in
    let ha = octet-lt frame off h in
    let hb = octet-lt frame (off + 1) h in
    ap (λ t. t == 0) (little_mask a b ha hb) ∙ zero_eq a b ha hb

module _ (host : Endian) (frame : List ℕ) where
  port_tests-no_entry :
      (ports : List ℕ) (next hit : Target) → no_entry (port_tests host ports next hit) ≡ true
  unfolding no_entry port_tests
  port_tests-no_entry [] next hit = refl
  port_tests-no_entry (p ∷ ps) next hit = port_tests-no_entry ps next hit

  port_tests_lem :
      (b v : ℕ) (ports : List ℕ) (next hit : Target) (s : Regs)
      → All (λ p. p < 65536) ports
      → ((p : ℕ) → p < 65536 → (v == netshort host p) ≡ (be16 frame b == p))
      → exec host frame (port_tests host ports next hit) none (record s { v3 = num v })
        ≡ goto (entry (if member (be16 frame b) ports then hit else next)) (record s { v3 = num v })
  unfolding exec step port_tests
  port_tests_lem b v [] next hit s small h = refl
  port_tests_lem b v (p ∷ ps) next hit s small h = elim (Bool-cases (be16 frame b == p)) [
    | inl c ↦
        rw (exec, h p small.0, c)
          (over host frame (port_tests host ps next hit) hit (record s { v3 = num v })
            (port_tests-no_entry ps next hit))
    | inr c ↦ rw (exec, h p small.0, c) (port_tests_lem b v ps next hit s small.1 h)
  ]

  ports_or_all_lem :
      (b off : ℕ) (ports : List ℕ) (next hit : Target) (s : Regs)
      → Bytes frame
      → All (λ p. p < 65536) ports
      → b + off + 2 ≤ length frame
      → (s' : Regs) × (exec host frame
            (ports_or_all host ports off next hit)
            none
            (at_base frame b s)
          ≡ goto
              (entry (if port_ok ports (be16 frame (b + off)) then hit else next))
              (ready frame s'))
  unfolding exec step ports_or_all
  ports_or_all_lem b off [] next hit s hb small hl = (at_base frame b s, refl)
  ports_or_all_lem b off (p ∷ ps) next hit s hb small hl = (
    at_base frame b s',
    rw (exec, inside)
        (port_tests_lem (b + off) (load host frame (b + off) half) (p ∷ ps) next hit
          (at_base frame b s') small (λ q hq. half-eq host frame (b + off) q hb hq)),
  )
    where
      s' : Regs
      s' = record s { v3 = num (load host frame (b + off) half) }

      inside : leb (b + off + 2) (length frame) ≡ true
      inside = ground arith

  abbrev frag_code : Target → List Instr → List Instr
  frag_code next rest =
      ins (load_mem r3 r9 20 half)
      ∷ ins (and_imm r3 (netshort host 0x1fff))
      ∷ ins (jne_imm r3 0 (entry next))
      ∷ rest

  frag_lem :
      (b : ℕ) (next : Target) (rest : List Instr) (s : Regs)
      → no_entry rest ≡ true
      → Bytes frame
      → b + 22 ≤ length frame
      → (s' : Regs) × (exec host frame (frag_code next rest) none (at_base frame b s) ≡ (
          if be16 frame (b + 20) % 8192 == 0
          then exec host frame rest none (at_base frame b s')
          else goto (entry next) (ready frame (at_base frame b s'))))
  unfolding exec step
  frag_lem b next rest s ne hb hl = (
    s',
    elim (Bool-cases (be16 frame (b + 20) % 8192 == 0)) [
      | inl h ↦ rw (exec, inside, frag_mask host frame (b + 20) hb, h) refl
      | inr h ↦
          rw (exec, inside, frag_mask host frame (b + 20) hb, h)
            (over host frame rest next (at_base frame b s') ne)
    ],
  )
    where
      s' : Regs
      s' = record s { v3 = num (bit_and (load host frame (b + 20) half) (netshort host 0x1fff)) }

      inside : leb (b + 20 + 2) (length frame) ≡ true
      inside = ground arith

  pub guard_lem :
      (b : ℕ) (next : Target) (rest : List Instr) (s : Regs)
      → no_entry rest ≡ true
      → Bytes frame
      → b + 22 ≤ length frame
      → (s' : Regs) × (exec host frame
            (ipv4_fixed_l4_guard host next ++ rest)
            none
            (at_base frame b s)
          ≡ (if plain_ipv4 frame b
              then exec host frame rest none (at_base frame b s')
              else goto (entry next) (ready frame s')))
  unfolding ipv4_fixed_l4_guard
  guard_lem b next rest s ne hb hl =
      let (t, h) =
        byte_test host frame b 14 0x45 next (frag_code next rest) s (unfold no_entry in ne)
          (omega arith) in
      let (u, h') = frag_lem b next rest t ne hb hl in
      elim (Bool-cases (octet frame (b + 14) == 0x45)) [
        | inr c ↦ (at_base frame b t, h ∙ if_false _ _ c ∙ rw c refl)
        | inl c ↦ elim (Bool-cases (be16 frame (b + 20) % 8192 == 0)) [
          | inl k ↦ (u, h ∙ if_true _ _ c ∙ h' ∙ rw (c, k) refl)
          | inr k ↦ (at_base frame b u, h ∙ if_true _ _ c ∙ h' ∙ rw (c, k) refl)
        ]
      ]

  abbrev pub tail_code : ℕ → List ℕ → Target → Target → ℕ → ℕ → List Instr
  tail_code proto ports next hit proto_off port_off =
      ins (load_mem r3 r9 proto_off byte)
      ∷ ins (jne_imm r3 proto (entry next))
      ∷ ports_or_all host ports port_off next hit

  pub ports_or_all-no_entry :
      (ports : List ℕ) (off : ℕ) (next hit : Target)
      → no_entry (ports_or_all host ports off next hit) ≡ true
  unfolding no_entry ports_or_all
  ports_or_all-no_entry [] off next hit = refl
  ports_or_all-no_entry (p ∷ ps) off next hit = port_tests-no_entry (p ∷ ps) next hit

  pub tail_lem :
      (proto : ℕ) (ports : List ℕ) (next hit : Target) (proto_off port_off b : ℕ) (s : Regs)
      → Bytes frame
      → All (λ p. p < 65536) ports
      → b + port_off + 2 ≤ length frame
      → proto_off < port_off
      → (s' : Regs) × (exec host frame
            (tail_code proto ports next hit proto_off port_off)
            none
            (at_base frame b s)
          ≡ goto
              (entry (if wanted proto ports proto_off port_off frame b then hit else next))
              (ready frame s'))
  tail_lem proto ports next hit proto_off port_off b s hb small hl hq =
      let (t, h) =
        byte_test host frame b proto_off proto next (ports_or_all host ports port_off next hit) s
          (ports_or_all-no_entry ports port_off next hit) (omega arith) in
      let (u, h') = ports_or_all_lem b port_off ports next hit t hb small hl in
      elim (Bool-cases (octet frame (b + proto_off) == proto)) [
        | inl c ↦ (u, h ∙ if_true _ _ c ∙ h' ∙ rw c refl)
        | inr c ↦ (at_base frame b t, h ∙ if_false _ _ c ∙ rw c refl)
      ]

  abbrev pub guarded : Bool → Target → List Instr → List Instr
  guarded is_v4 next rest = (if is_v4 then ipv4_fixed_l4_guard host next else []) ++ rest

  pub guarded-no_entry :
      (is_v4 : Bool) (next : Target) (rest : List Instr)
      → no_entry rest ≡ true
      → no_entry (guarded is_v4 next rest) ≡ true
  unfolding no_entry ipv4_fixed_l4_guard
  guarded-no_entry true next rest h = h
  guarded-no_entry false next rest h = h

  pub guarded_lem :
      (is_v4 : Bool) (b : ℕ) (next : Target) (rest : List Instr) (s : Regs)
      → no_entry rest ≡ true
      → Bytes frame
      → b + 22 ≤ length frame
      → (s' : Regs) × (exec host frame (guarded is_v4 next rest) none (at_base frame b s) ≡ (
          if (if is_v4 then plain_ipv4 frame b else true)
          then exec host frame rest none (at_base frame b s')
          else goto (entry next) (ready frame s')))
  guarded_lem true b next rest s ne hb hl = guard_lem b next rest s ne hb hl
  guarded_lem false b next rest s ne hb hl = (s, refl)
