-- ===== src/Filter/Ports.antt =====
-- What the port matchers decide: IPv4 without options and unfragmented, or IPv6, by protocol and port.
use go_afxdp.Prelude.{
  ℕ, ◌+◌, ◌≤◌, ◌<◌, ◌≡◌, refl, ap, ◌∙◌, Bool, true, false, none, some, List, [], ◌∷◌, ◌++◌,
  if◌then◌else◌, length, leb, ◌==◌, Bool-cases, inl, inr, All, arith, if_true, if_false,
}
use go_afxdp.Ebpf.{
  r3, r9, Target, Label, entry, inner, notag, v4, v6, half, load_mem, ja, jeq_imm, Instr, ins, Regs,
  num, goto, Endian, load, step, exec,
}
use go_afxdp.Ebpf.Run.{
  no_entry, no_entry-append, over, unlabelled, past_unlabelled, onward, exec-append, target_eq_refl,
}
use go_afxdp.Filter.{netshort}
use go_afxdp.Filter.Emit.{with_entry, bounds_from, l3_base, ipv4_fixed_l4_guard}
use go_afxdp.Filter.Match.{port_tests, ports_or_all, family, l4_port_block, match_l4_port}
use go_afxdp.Filter.Classify.{ready, Decides}
use go_afxdp.Filter.Frame.{Bytes, at_base, base_of, be16, half-eq, bounds_from_lem, l3_base_lem}
use go_afxdp.Filter.Rules.{skips_entry}
use go_afxdp.Filter.Wanted.{plain_ipv4, in_family, by_family, l4_wanted}
use go_afxdp.Filter.Guard.{
  ports_or_all-no_entry, tail_lem, tail_code, guarded, guarded-no_entry, guarded_lem,
}

module _ (host : Endian) (frame : List ℕ) where
  family-start :
      (proto : ℕ) (ports : List ℕ) (next hit : Target) (label : Label) (proto_off port_off : ℕ)
      (is_v4 : Bool) (s : Regs)
      → exec host frame (family host proto ports next hit label proto_off port_off is_v4) none s
        ≡ exec host frame
            (bounds_from r9 (port_off + 2) next
              ++ guarded host frame is_v4 next
                  (tail_code host frame proto ports next hit proto_off port_off))
            none
            s
  unfolding exec step family bounds_from
  family-start proto ports next hit label proto_off port_off is_v4 s = refl

  -- One family's tests.
  family_lem :
      (proto : ℕ) (ports : List ℕ) (next hit : Target) (label : Label) (proto_off port_off : ℕ)
      (is_v4 : Bool) (b : ℕ) (s : Regs)
      → Bytes frame
      → All (λ p. p < 65536) ports
      → 20 ≤ port_off
      → proto_off < port_off
      → (s' : Regs) × (exec host frame
            (family host proto ports next hit label proto_off port_off is_v4)
            none
            (at_base frame b s)
          ≡ goto
              (entry (if in_family proto ports proto_off port_off is_v4 frame b then hit else next))
              (ready frame s'))
  family_lem proto ports next hit label proto_off port_off is_v4 b s hb small hp hq =
      let tail = tail_code host frame proto ports next hit proto_off port_off in
      let ne = ports_or_all-no_entry host frame ports port_off next hit in
      let start =
        family-start proto ports next hit label proto_off port_off is_v4 (at_base frame b s) in
      let (s1, h1) =
        bounds_from_lem host frame b (port_off + 2) next (guarded host frame is_v4 next tail) s
          (guarded-no_entry host frame is_v4 next tail (unfold no_entry in ne)) in
      elim (Bool-cases (leb (b + (port_off + 2)) (length frame))) [
        | inr c ↦ (at_base frame b s1, start ∙ h1 ∙ if_false _ _ c ∙ rw c refl)
        | inl c ↦
            let (s2, h2) =
              guarded_lem host frame is_v4 b next tail s1 (unfold no_entry in ne) hb
                (ground arith) in
            let (s3, h3) =
              tail_lem host frame proto ports next hit proto_off port_off b s2 hb small
                (ground arith) hq in
            elim (Bool-cases (if is_v4 then plain_ipv4 frame b else true)) [
              | inr k ↦ (s2, start ∙ h1 ∙ if_true _ _ c ∙ h2 ∙ if_false _ _ k ∙ rw (c, k) refl)
              | inl k ↦ (s3, start ∙ h1 ∙ if_true _ _ c ∙ h2 ∙ if_true _ _ k ∙ h3 ∙ rw (c, k) refl)
            ]
      ]

  port_tests-unlabelled :
      (ports : List ℕ) (next hit : Target) → unlabelled (port_tests host ports next hit) ≡ true
  unfolding unlabelled port_tests
  port_tests-unlabelled [] next hit = refl
  port_tests-unlabelled (p ∷ ps) next hit = port_tests-unlabelled ps next hit

  ports_or_all-unlabelled :
      (ports : List ℕ) (off : ℕ) (next hit : Target)
      → unlabelled (ports_or_all host ports off next hit) ≡ true
  unfolding unlabelled ports_or_all
  ports_or_all-unlabelled [] off next hit = refl
  ports_or_all-unlabelled (p ∷ ps) off next hit = port_tests-unlabelled (p ∷ ps) next hit

  module _ (proto : ℕ) (src_port : Bool) (ports : List ℕ) (e next hit : Target) where
    abbrev ipv4_port : ℕ
    ipv4_port = if src_port then 34 else 36

    abbrev ipv6_port : ℕ
    ipv6_port = if src_port then 54 else 56

    abbrev ipv4 : List Instr
    ipv4 = family host proto ports next hit (inner e v4) 23 ipv4_port true

    abbrev ipv6 : List Instr
    ipv6 = family host proto ports next hit (inner e v6) 20 ipv6_port false

    to_ipv4 : (s : Regs) → exec host frame ipv4 (some (inner e v4)) s ≡ exec host frame ipv4 none s
    unfolding exec family bounds_from
    to_ipv4 s = rw (exec, target_eq_refl e) refl

    to_ipv6 : (s : Regs) → exec host frame ipv6 (some (inner e v6)) s ≡ exec host frame ipv6 none s
    unfolding exec family bounds_from
    to_ipv6 s = rw (exec, target_eq_refl e) refl

    past_ipv4 : (s : Regs) → exec host frame ipv4 (some (inner e v6)) s ≡ goto (inner e v6) s
    unfolding exec family bounds_from unlabelled ipv4_fixed_l4_guard
    past_ipv4 s =
        past_unlabelled host frame (ports_or_all host ports ipv4_port next hit) (inner e v6) s
          (ports_or_all-unlabelled ports ipv4_port next hit)

    ipv6-no_entry : no_entry ipv6 ≡ true
    unfolding no_entry family bounds_from
    ipv6-no_entry = ports_or_all-no_entry host frame ports ipv6_port next hit

    ipv4-no_entry : no_entry ipv4 ≡ true
    unfolding no_entry family bounds_from ipv4_fixed_l4_guard
    ipv4-no_entry = ports_or_all-no_entry host frame ports ipv4_port next hit

    abbrev dispatch : List Instr
    dispatch =
        ins (load_mem r3 r9 12 half)
        ∷ ins (jeq_imm r3 (netshort host 0x0800) (inner e v4))
        ∷ ins (jeq_imm r3 (netshort host 0x86DD) (inner e v6))
        ∷ ins (ja (entry next))
        ∷ (ipv4 ++ ipv6)

    dispatch-no_entry : no_entry dispatch ≡ true
    unfolding no_entry
    dispatch-no_entry = no_entry-append ipv4 ipv6 ipv4-no_entry ipv6-no_entry

    dispatch_lem :
        (b : ℕ) (s : Regs)
        → Bytes frame
        → All (λ p. p < 65536) ports
        → b + 14 ≤ length frame
        → (s' : Regs) × (exec host frame dispatch none (at_base frame b s)
            ≡ goto
                (entry (if by_family proto src_port ports frame b then hit else next))
                (ready frame s'))
    unfolding exec step onward
    dispatch_lem b s hb small hl = elim (Bool-cases (be16 frame (b + 12) == 0x0800)) [
      | inl c ↦
          let (t, h) =
            family_lem proto ports next hit (inner e v4) 23 ipv4_port true b s' hb small port_lo
              port_lo' in
          (
            t,
            rw (exec, inside, half-eq host frame (b + 12) 0x0800 hb (omega arith), c)
                (exec-append host frame ipv4 ipv6 (some (inner e v4)) (at_base frame b s')
                  ∙ ap (onward host frame ipv6) (to_ipv4 (at_base frame b s') ∙ h)
                  ∙ over host frame ipv6 _ (ready frame t) ipv6-no_entry),
          )
      | inr c ↦ elim (Bool-cases (be16 frame (b + 12) == 0x86DD)) [
        | inl k ↦
            let (t, h) =
              family_lem proto ports next hit (inner e v6) 20 ipv6_port false b s' hb small port6_lo
                port6_lo' in
            (
              t,
              rw
                  (
                    exec,
                    inside,
                    half-eq host frame (b + 12) 0x0800 hb (omega arith),
                    c,
                    exec,
                    half-eq host frame (b + 12) 0x86DD hb (omega arith),
                    k,
                  )
                  (exec-append host frame ipv4 ipv6 (some (inner e v6)) (at_base frame b s')
                    ∙ ap (onward host frame ipv6) (past_ipv4 (at_base frame b s'))
                    ∙ to_ipv6 (at_base frame b s')
                    ∙ h),
            )
        | inr k ↦ (
          at_base frame b s',
          rw
              (
                exec,
                inside,
                half-eq host frame (b + 12) 0x0800 hb (omega arith),
                c,
                exec,
                half-eq host frame (b + 12) 0x86DD hb (omega arith),
                k,
              )
              (over host frame (ipv4 ++ ipv6) next (at_base frame b s')
                (no_entry-append ipv4 ipv6 ipv4-no_entry ipv6-no_entry)),
        )
      ]
    ]
      where
        s' : Regs
        s' = record s { v3 = num (load host frame (b + 12) half) }

        inside : leb (b + 12 + 2) (length frame) ≡ true
        inside = ground arith

        port_lo : 20 ≤ ipv4_port
        port_lo = ground arith

        port_lo' : 23 < ipv4_port
        port_lo' = ground arith

        port6_lo : 20 ≤ ipv6_port
        port6_lo = ground arith

        port6_lo' : 20 < ipv6_port
        port6_lo' = ground arith

    abbrev whole : List Instr
    whole = l3_base host e notag next ++ (bounds_from r9 14 next ++ dispatch)

    whole-no_entry : no_entry whole ≡ true
    unfolding no_entry l3_base bounds_from
    whole-no_entry = dispatch-no_entry

    with_entry-start :
        (s : Regs)
        → exec host frame (with_entry e whole) none (ready frame s)
          ≡ exec host frame whole none (ready frame s)
    unfolding exec step with_entry l3_base
    with_entry-start s = refl

    block_lem :
        (s : Regs)
        → Bytes frame
        → All (λ p. p < 65536) ports
        → (s' : Regs) × (exec host frame whole none (ready frame s)
            ≡ goto
                (entry (if l4_wanted proto src_port ports frame then hit else next))
                (ready frame s'))
    block_lem s hb small =
        let b = base_of frame in
        let (s1, h1) =
          l3_base_lem host frame e notag next (bounds_from r9 14 next ++ dispatch) s refl
            (unfold no_entry bounds_from in dispatch-no_entry) hb in
        let (s2, h2) = bounds_from_lem host frame b 14 next dispatch s1 dispatch-no_entry in
        elim (Bool-cases (leb 14 (length frame))) [
          | inr k ↦ (s1, h1 ∙ if_false _ _ k ∙ rw k refl)
          | inl k ↦ elim (Bool-cases (leb (b + 14) (length frame))) [
            | inr k' ↦
                (at_base frame b s2, h1 ∙ if_true _ _ k ∙ h2 ∙ if_false _ _ k' ∙ rw (k, k') refl)
            | inl k' ↦
                let (s3, h3) = dispatch_lem b s2 hb small (ground arith) in
                (s3, h1 ∙ if_true _ _ k ∙ h2 ∙ if_true _ _ k' ∙ h3 ∙ rw (k, k') refl)
          ]
        ]

  -- MatchUDPPort, MatchUDPSrcPort, MatchTCPPort and MatchTCPSrcPort, on any frame of bytes, in either byte
  -- order, with 16-bit ports: the block takes the frame exactly if, one VLAN tag skipped, it is IPv4 with a
  -- header of 20 bytes and no fragment offset, or IPv6, long enough for the port, of the protocol, and with
  -- one of the ports where any are given.
  pub match_l4_port-Decides :
      (proto : ℕ) (src_port : Bool) (ports : List ℕ)
      → Bytes frame
      → All (λ p. p < 65536) ports
      → Decides host frame
          (match_l4_port host proto src_port ports)
          (l4_wanted proto src_port ports frame)
  unfolding l4_port_block
  match_l4_port-Decides proto src_port ports hb small = record {
    block = λ e next hit. with_entry e (whole proto src_port ports e next hit);
    builds = refl;
    enters = λ e next hit s. unfold exec with_entry l3_base in (rw (exec, target_eq_refl e) refl);
    skips = λ e next hit u s.
        skips_entry host frame e u (whole proto src_port ports e next hit) s
          (whole-no_entry proto src_port ports e next hit);
    runs = λ e next hit s.
        let (s', h) = block_lem proto src_port ports e next hit s hb small in
        (s', with_entry-start proto src_port ports e next hit s ∙ h);
  }
