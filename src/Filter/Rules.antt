-- ===== src/Filter/Rules.antt =====
-- What the builders of one EtherType decide, on any frame and in either byte order.
use go_afxdp.Prelude.{
  ℕ, ◌+◌, ◌≤◌, ◌<◌, ◌≡◌, refl, ◌∙◌, Bool, true, false, ◌&&◌, none, some, List, [], ◌∷◌,
  if◌then◌else◌, length, ltb, leb, ◌==◌, Bool-cases, inl, inr, arith, if_true, if_false,
}
use go_afxdp.Ebpf.{
  r3, r9, Target, entry, target_eq, notag, byte, load_mem, ja, jne_imm, jlt_imm, jgt_imm, Instr,
  ins, Regs, num, goto, Endian, octet, load, step, exec,
}
use go_afxdp.Ebpf.Run.{no_entry, over, target_eq_refl}
use go_afxdp.Filter.Emit.{with_entry, l3_base}
use go_afxdp.Filter.Match.{
  rule, ether_block, ether_type_block, match_ether_type, ipv4_proto_block, match_ipv4_proto,
  ipv6_next_header_block, match_ipv6_next_header, icmpv6_echo_block, match_icmpv6_echo,
  icmpv6_nd_block, match_icmpv6_nd, match_all, match_none,
}
use go_afxdp.Filter.Classify.{ready, Decides}
use go_afxdp.Filter.Frame.{
  Bytes, at_base, base_of, has_ether_type, ether_block_lem, unnamed, unnamed-no_entry,
}

module _ (host : Endian) (frame : List ℕ) where
  pub skips_entry :
      (e t : Target) (is : List Instr) (s : Regs)
      → no_entry is ≡ true
      → target_eq e t ≡ false
      → exec host frame (with_entry e is) (some (entry t)) s ≡ goto (entry t) s
  unfolding exec no_entry with_entry
  skips_entry e t [] s ne h = refl
  skips_entry e t (i ∷ is) s ne h = rw (exec, h) (over host frame is t s (ground arith))

  pub byte_test :
      (b off k : ℕ) (next : Target) (rest : List Instr) (s : Regs)
      → no_entry rest ≡ true
      → b + off < length frame
      → (s' : Regs) × (exec host frame
            (ins (load_mem r3 r9 off byte) ∷ ins (jne_imm r3 k (entry next)) ∷ rest)
            none
            (at_base frame b s)
          ≡ (if octet frame (b + off) == k
              then exec host frame rest none (at_base frame b s')
              else goto (entry next) (ready frame (at_base frame b s'))))
  unfolding exec step load
  byte_test b off k next rest s ne hl = (
    s',
    elim (Bool-cases (octet frame (b + off) == k)) [
      | inl h ↦ rw (exec, inside, h) refl
      | inr h ↦ rw (exec, inside, h) (over host frame rest next (at_base frame b s') ne)
    ],
  )
    where
      s' : Regs
      s' = record s { v3 = num (octet frame (b + off)) }

      inside : leb (b + off + 1) (length frame) ≡ true
      inside = ground arith

  -- A block of one EtherType, whose rest decides `c` on the frames that get there.
  pub ether_block-Decides :
      (n t : ℕ) (rest : Target → Target → List Instr) (c : Bool)
      → Bytes frame
      → t < 65536
      → 14 ≤ n
      → ((n h : Target) → no_entry (rest n h) ≡ true)
      → (base_of frame + n ≤ length frame
          → (next hit : Target) (s : Regs)
          → (s' : Regs) × (exec host frame (rest next hit) none (at_base frame (base_of frame) s)
              ≡ goto (entry (if c then hit else next)) (ready frame s')))
      → Decides host frame
          (rule (λ e next hit. ether_block host n t (rest next hit) e next))
          (has_ether_type n t frame && c)
  unfolding ether_block
  ether_block-Decides n t rest c hb ht hn ne go = record {
    block = λ e next hit. ether_block host n t (rest next hit) e next;
    builds = refl;
    enters = λ e next hit s. unfold exec with_entry l3_base in (rw (exec, target_eq_refl e) refl);
    skips = λ e next hit u s.
        skips_entry e u (unnamed host frame notag n t (rest next hit) e next) s
          (unnamed-no_entry host frame notag n t (rest next hit) e next (ne next hit));
    runs = λ e next hit s.
        let (s1, h1) =
          ether_block_lem host frame n t (rest next hit) e next s (ne next hit) hb ht hn in
        elim (Bool-cases (has_ether_type n t frame)) [
          | inl k ↦
              let (s2, h2) = go (ground arith) next hit s1 in
              (s2, h1 ∙ if_true _ _ k ∙ h2 ∙ rw k refl)
          | inr k ↦ (s1, h1 ∙ if_false _ _ k ∙ rw k refl)
        ];
  }

  -- MatchEtherType, on any frame of bytes and in either byte order: the block takes the frame exactly if,
  -- one VLAN tag skipped, it has a header with this 16-bit EtherType.
  pub match_ether_type-Decides :
      (t : ℕ)
      → Bytes frame
      → t < 65536
      → Decides host frame (match_ether_type host t) (has_ether_type 14 t frame && true)
  unfolding ether_type_block
  match_ether_type-Decides t hb ht =
      ether_block-Decides 14 t (λ next hit. ins (ja (entry hit)) ∷ []) true hb ht (omega arith)
        (λ n h. unfold no_entry in refl)
        (λ hl next hit s. (at_base frame (base_of frame) s, unfold exec step in refl))

  -- The tests of one or two bytes.
  one_byte :
      (off k : ℕ) (next hit : Target) (s : Regs)
      → base_of frame + off < length frame
      → (s' : Regs) × (exec host frame
            (ins (load_mem r3 r9 off byte)
              ∷ ins (jne_imm r3 k (entry next))
              ∷ ins (ja (entry hit))
              ∷ [])
            none
            (at_base frame (base_of frame) s)
          ≡ goto
              (entry (if octet frame (base_of frame + off) == k then hit else next))
              (ready frame s'))
  one_byte off k next hit s hl =
      let (t, h) =
        byte_test (base_of frame) off k next (ins (ja (entry hit)) ∷ []) s (unfold no_entry in refl)
          hl in
      elim (Bool-cases (octet frame (base_of frame + off) == k)) [
        | inl c ↦
            (at_base frame (base_of frame) t, h ∙ if_true _ _ c ∙ unfold exec step in (rw c refl))
        | inr c ↦ (at_base frame (base_of frame) t, h ∙ if_false _ _ c ∙ rw c refl)
      ]

  -- MatchIPv4Proto, on any frame of bytes and in either byte order: the block takes the frame exactly if,
  -- one VLAN tag skipped, it is IPv4, reaches the protocol field, and has this protocol.
  pub match_ipv4_proto-Decides :
      (proto : ℕ)
      → Bytes frame
      → Decides host frame
          (match_ipv4_proto host proto)
          (has_ether_type 24 0x0800 frame && (octet frame (base_of frame + 23) == proto))
  unfolding ipv4_proto_block
  match_ipv4_proto-Decides proto hb =
      ether_block-Decides 24 0x0800 _ (octet frame (base_of frame + 23) == proto) hb (omega arith)
        (omega arith) (λ n h. unfold no_entry in refl)
        (λ hl next hit s. one_byte 23 proto next hit s (omega arith))

  pub two_bytes :
      (off k off' k' : ℕ) (next hit : Target) (s : Regs)
      → base_of frame + off < length frame
      → base_of frame + off' < length frame
      → (s' : Regs) × (exec host frame
            (ins (load_mem r3 r9 off byte)
              ∷ ins (jne_imm r3 k (entry next))
              ∷ ins (load_mem r3 r9 off' byte)
              ∷ ins (jne_imm r3 k' (entry next))
              ∷ ins (ja (entry hit))
              ∷ [])
            none
            (at_base frame (base_of frame) s)
          ≡ goto
              (entry (
                if (octet frame (base_of frame + off) == k)
                  && (octet frame (base_of frame + off') == k')
                then hit
                else next))
              (ready frame s'))
  two_bytes off k off' k' next hit s hl hl' =
      let (t, h) =
        byte_test (base_of frame) off k next
          (ins (load_mem r3 r9 off' byte)
            ∷ ins (jne_imm r3 k' (entry next))
            ∷ ins (ja (entry hit))
            ∷ [])
          s (unfold no_entry in refl) hl in
      let (u, h') = one_byte off' k' next hit t hl' in
      elim (Bool-cases (octet frame (base_of frame + off) == k)) [
        | inl c ↦ (u, h ∙ if_true _ _ c ∙ h' ∙ rw c refl)
        | inr c ↦ (at_base frame (base_of frame) t, h ∙ if_false _ _ c ∙ rw c refl)
      ]

  -- MatchIPv6NextHeader, on any frame of bytes and in either byte order: the block takes the frame exactly
  -- if, one VLAN tag skipped, it is IPv6, reaches the Next Header field, and has this value there.
  pub match_ipv6_next_header-Decides :
      (nh : ℕ)
      → Bytes frame
      → Decides host frame
          (match_ipv6_next_header host nh)
          (has_ether_type 21 0x86DD frame && (octet frame (base_of frame + 20) == nh))
  unfolding ipv6_next_header_block
  match_ipv6_next_header-Decides nh hb =
      ether_block-Decides 21 0x86DD _ (octet frame (base_of frame + 20) == nh) hb (omega arith)
        (omega arith) (λ n h. unfold no_entry in refl)
        (λ hl next hit s. one_byte 20 nh next hit s (omega arith))

  -- MatchICMPv6Echo, on any frame of bytes and in either byte order: the block takes the frame exactly if,
  -- one VLAN tag skipped, it is IPv6 and ICMPv6 of type 128.
  pub match_icmpv6_echo-Decides :
      Bytes frame
      → Decides host frame (match_icmpv6_echo host) (
          has_ether_type 55 0x86DD frame
          && ((octet frame (base_of frame + 20) == 58)
              && (octet frame (base_of frame + 54) == 128)))
  unfolding icmpv6_echo_block
  match_icmpv6_echo-Decides hb =
      ether_block-Decides 55 0x86DD _
        ((octet frame (base_of frame + 20) == 58) && (octet frame (base_of frame + 54) == 128)) hb
        (omega arith) (omega arith) (λ n h. unfold no_entry in refl)
        (λ hl next hit s. two_bytes 20 58 54 128 next hit s (omega arith) (omega arith))

  -- The types of neighbour discovery are 133 to 137.
  nd_range :
      (next hit : Target) (s : Regs)
      → base_of frame + 54 < length frame
      → (s' : Regs) × (exec host frame
            (ins (load_mem r3 r9 54 byte)
              ∷ ins (jlt_imm r3 133 (entry next))
              ∷ ins (jgt_imm r3 137 (entry next))
              ∷ ins (ja (entry hit))
              ∷ [])
            none
            (at_base frame (base_of frame) s)
          ≡ goto
              (entry (
                if leb 133 (octet frame (base_of frame + 54))
                  && leb (octet frame (base_of frame + 54)) 137
                then hit
                else next))
              (ready frame s'))
  unfolding exec step load
  nd_range next hit s hl = (
    at_base frame (base_of frame) (record s { v3 = num (octet frame (base_of frame + 54)) }),
    rw (exec, inside)
        (elim (Bool-cases (leb 133 (octet frame (base_of frame + 54)))) [
          | inl c ↦ elim (Bool-cases (leb (octet frame (base_of frame + 54)) 137)) [
            | inl c' ↦
                let low : ltb (octet frame (base_of frame + 54)) 133 ≡ false = ground arith in
                let high : ltb 137 (octet frame (base_of frame + 54)) ≡ false = ground arith in
                rw (exec, low, high, c, c') refl
            | inr c' ↦
                let low : ltb (octet frame (base_of frame + 54)) 133 ≡ false = ground arith in
                let high : ltb 137 (octet frame (base_of frame + 54)) ≡ true = ground arith in
                rw (exec, low, high, c, c') refl
          ]
          | inr c ↦
              let low : ltb (octet frame (base_of frame + 54)) 133 ≡ true = ground arith in
              rw (exec, low, c) refl
        ]),
  )
    where
      inside : leb (base_of frame + 54 + 1) (length frame) ≡ true
      inside = ground arith

  -- The neighbour discovery block, on any frame of bytes and in either byte order, takes the frame exactly
  -- if, one VLAN tag skipped, it is IPv6 and ICMPv6 of a type from 133 to 137.
  pub match_icmpv6_nd-Decides :
      Bytes frame
      → Decides host frame (match_icmpv6_nd host) (
          has_ether_type 55 0x86DD frame
          && ((octet frame (base_of frame + 20) == 58)
              && (leb 133 (octet frame (base_of frame + 54))
                  && leb (octet frame (base_of frame + 54)) 137)))
  unfolding icmpv6_nd_block
  match_icmpv6_nd-Decides hb =
      ether_block-Decides 55 0x86DD _ _ hb (omega arith) (omega arith)
        (λ n h. unfold no_entry in refl)
        (λ hl next hit s.
          let (t, h) =
            byte_test (base_of frame) 20 58 next
              (ins (load_mem r3 r9 54 byte)
                ∷ ins (jlt_imm r3 133 (entry next))
                ∷ ins (jgt_imm r3 137 (entry next))
                ∷ ins (ja (entry hit))
                ∷ [])
              s (unfold no_entry in refl) (omega arith) in
          let (u, h') = nd_range next hit t (omega arith) in
          elim (Bool-cases (octet frame (base_of frame + 20) == 58)) [
            | inl c ↦ (u, h ∙ if_true _ _ c ∙ h' ∙ rw c refl)
            | inr c ↦ (at_base frame (base_of frame) t, h ∙ if_false _ _ c ∙ rw c refl)
          ])

pub match_all-Decides : (host : Endian) (frame : List ℕ) → Decides host frame match_all true
match_all-Decides host frame = record {
  block = λ e next hit. with_entry e (ins (ja (entry hit)) ∷ []);
  builds = refl;
  enters = λ e next hit s. unfold exec with_entry in (rw (exec, target_eq_refl e) refl);
  skips = λ e next hit u s.
      skips_entry host frame e u (ins (ja (entry hit)) ∷ []) s (unfold no_entry in refl);
  runs = λ e next hit s. (s, unfold exec step with_entry in refl);
}

pub match_none-Decides : (host : Endian) (frame : List ℕ) → Decides host frame match_none false
match_none-Decides host frame = record {
  block = λ e next hit. with_entry e (ins (ja (entry next)) ∷ []);
  builds = refl;
  enters = λ e next hit s. unfold exec with_entry in (rw (exec, target_eq_refl e) refl);
  skips = λ e next hit u s.
      skips_entry host frame e u (ins (ja (entry next)) ∷ []) s (unfold no_entry in refl);
  runs = λ e next hit s. (s, unfold exec step with_entry in refl);
}
