-- ===== src/Filter/Match.antt =====
-- filter.go and match.go: `Match` and the builders.
use go_afxdp.Prelude.{
  ℕ, ◌+◌, Bool, true, false, Option, none, some, List, [], ◌∷◌, ◌++◌, if◌then◌else◌,
}
use go_afxdp.Ebpf.{
  r3, r9, Target, notag, v4, v6, Label, entry, inner, byte, half, load_mem, ja, jeq_imm, jne_imm,
  jlt_imm, jgt_imm, Instr, ins, with_symbol, Endian,
}
use go_afxdp.Filter.{
  off_ether_type, off_ip_proto, off_l4_sport, off_l4_dport, off_icmp_type, off_ipv6_next_hdr,
  off_ipv6_l4_sport, off_ipv6_l4_dport, off_icmpv6_type, ip_proto_icmp, ip_proto_tcp, ip_proto_udp,
  ip_proto_icmpv6, icmp_echo_request, icmpv6_echo_request, icmpv6_nd_first, icmpv6_nd_last,
  ether_type_ipv4, ether_type_ipv6, netshort,
}
use go_afxdp.Filter.Emit.{with_entry, bounds_from, ipv4_fixed_l4_guard, l3_base}

-- What a builder or `Match.err` reports; the texts are left out.
pub data BuildError : Type 0 where
  bad_cidr mixed_families nil_build invalid_match : BuildError
  custom : ℕ → BuildError

pub data Built : Type 0 where
  built : List Instr → Built
  failed : BuildError → Built

-- `build` takes the entry, next and hit symbols; `desc`, for logs and messages, is left out.
pub record Match : Type 0 where
  pub build : Option (Target → Target → Target → Built)
  pub err : Option BuildError
  pub catch_all : Bool
  pub mgmt : Bool
  pub pass_only : Bool

abbrev pub rule : (Target → Target → Target → List Instr) → Match
rule block = record {
  build = some (λ e n r. built (block e n r));
  err = none;
  catch_all = false;
  mgmt = false;
  pass_only = false;
}

module _ (host : Endian) where
  -- The tests of one address family in `matchL4Port`.
  unfoldable pub port_tests : List ℕ → Target → Target → List Instr
  port_tests [] next hit = ins (ja (entry next)) ∷ []
  port_tests (p ∷ ps) next hit =
      ins (jeq_imm r3 (netshort host p) (entry hit)) ∷ port_tests ps next hit

  unfoldable pub ports_or_all : List ℕ → ℕ → Target → Target → List Instr
  unfolding port_tests
  ports_or_all [] port_off next hit = ins (ja (entry hit)) ∷ []
  ports_or_all (p ∷ ps) port_off next hit =
      ins (load_mem r3 r9 port_off half) ∷ port_tests (p ∷ ps) next hit

  abbrev label_first : Label → List Instr → List Instr
  label_first l [] = []
  label_first l (i ∷ is) = with_symbol l i ∷ is

  unfoldable pub family : ℕ → List ℕ → Target → Target → Label → ℕ → ℕ → Bool → List Instr
  unfolding ports_or_all bounds_from ipv4_fixed_l4_guard
  family proto ports next hit label proto_off port_off is_v4 =
      label_first label (bounds_from r9 (port_off + 2) next)
      ++ ((if is_v4 then ipv4_fixed_l4_guard host next else [])
          ++ (ins (load_mem r3 r9 proto_off byte)
              ∷ ins (jne_imm r3 proto (entry next))
              ∷ ports_or_all ports port_off next hit))

  unfoldable pub l4_port_block : ℕ → Bool → List ℕ → Target → Target → Target → List Instr
  unfolding family bounds_from l3_base with_entry
  l4_port_block proto src_port ports block next hit = with_entry block (
      l3_base host block notag next
      ++ (bounds_from r9 (off_ether_type + 2) next
          ++ (ins (load_mem r3 r9 off_ether_type half)
              ∷ ins (jeq_imm r3 (netshort host ether_type_ipv4) (inner block v4))
              ∷ ins (jeq_imm r3 (netshort host ether_type_ipv6) (inner block v6))
              ∷ ins (ja (entry next))
              ∷ (family proto ports next hit (inner block v4) off_ip_proto
                    (if src_port then off_l4_sport else off_l4_dport) true
                  ++ family proto ports next hit (inner block v6) off_ipv6_next_hdr
                      (if src_port then off_ipv6_l4_sport else off_ipv6_l4_dport) false))))

  abbrev pub match_l4_port : ℕ → Bool → List ℕ → Match
  match_l4_port proto src_port ports = rule (l4_port_block proto src_port ports)

  abbrev pub match_udp_port : List ℕ → Match
  match_udp_port ports = match_l4_port ip_proto_udp false ports

  abbrev pub match_udp_src_port : List ℕ → Match
  match_udp_src_port ports = match_l4_port ip_proto_udp true ports

  abbrev pub match_tcp_port : List ℕ → Match
  match_tcp_port ports = match_l4_port ip_proto_tcp false ports

  abbrev pub match_tcp_src_port : List ℕ → Match
  match_tcp_src_port ports = match_l4_port ip_proto_tcp true ports

  -- The prefix that the single-family blocks share: the frame base, the bytes up to `n`, the EtherType.
  unfoldable pub ether_block : ℕ → ℕ → List Instr → Target → Target → List Instr
  unfolding bounds_from l3_base with_entry
  ether_block n ether_type rest block next = with_entry block (
      l3_base host block notag next
      ++ (bounds_from r9 n next
          ++ (ins (load_mem r3 r9 off_ether_type half)
              ∷ ins (jne_imm r3 (netshort host ether_type) (entry next))
              ∷ rest)))

  unfoldable pub icmpv4_echo_block : Target → Target → Target → List Instr
  unfolding ether_block ipv4_fixed_l4_guard
  icmpv4_echo_block block next hit =
      ether_block (off_icmp_type + 1) ether_type_ipv4
        (ipv4_fixed_l4_guard host next
          ++ (ins (load_mem r3 r9 off_ip_proto byte)
              ∷ ins (jne_imm r3 ip_proto_icmp (entry next))
              ∷ ins (load_mem r3 r9 off_icmp_type byte)
              ∷ ins (jne_imm r3 icmp_echo_request (entry next))
              ∷ ins (ja (entry hit))
              ∷ []))
        block next

  unfoldable pub ipv4_proto_block : ℕ → Target → Target → Target → List Instr
  unfolding ether_block
  ipv4_proto_block proto block next hit =
      ether_block (off_ip_proto + 1) ether_type_ipv4
        (ins (load_mem r3 r9 off_ip_proto byte)
          ∷ ins (jne_imm r3 proto (entry next))
          ∷ ins (ja (entry hit))
          ∷ [])
        block next

  unfoldable pub ipv6_next_header_block : ℕ → Target → Target → Target → List Instr
  unfolding ether_block
  ipv6_next_header_block nh block next hit =
      ether_block (off_ipv6_next_hdr + 1) ether_type_ipv6
        (ins (load_mem r3 r9 off_ipv6_next_hdr byte)
          ∷ ins (jne_imm r3 nh (entry next))
          ∷ ins (ja (entry hit))
          ∷ [])
        block next

  unfoldable pub icmpv6_echo_block : Target → Target → Target → List Instr
  unfolding ether_block
  icmpv6_echo_block block next hit =
      ether_block (off_icmpv6_type + 1) ether_type_ipv6
        (ins (load_mem r3 r9 off_ipv6_next_hdr byte)
          ∷ ins (jne_imm r3 ip_proto_icmpv6 (entry next))
          ∷ ins (load_mem r3 r9 off_icmpv6_type byte)
          ∷ ins (jne_imm r3 icmpv6_echo_request (entry next))
          ∷ ins (ja (entry hit))
          ∷ [])
        block next

  unfoldable pub icmpv6_nd_block : Target → Target → Target → List Instr
  unfolding ether_block
  icmpv6_nd_block block next hit =
      ether_block (off_icmpv6_type + 1) ether_type_ipv6
        (ins (load_mem r3 r9 off_ipv6_next_hdr byte)
          ∷ ins (jne_imm r3 ip_proto_icmpv6 (entry next))
          ∷ ins (load_mem r3 r9 off_icmpv6_type byte)
          ∷ ins (jlt_imm r3 icmpv6_nd_first (entry next))
          ∷ ins (jgt_imm r3 icmpv6_nd_last (entry next))
          ∷ ins (ja (entry hit))
          ∷ [])
        block next

  unfoldable pub ether_type_block : ℕ → Target → Target → Target → List Instr
  unfolding ether_block
  ether_type_block ether_type block next hit =
      ether_block (off_ether_type + 2) ether_type (ins (ja (entry hit)) ∷ []) block next

  abbrev pub match_icmpv4_echo : Match
  match_icmpv4_echo = rule icmpv4_echo_block

  abbrev pub match_ipv4_proto : ℕ → Match
  match_ipv4_proto proto = rule (ipv4_proto_block proto)

  abbrev pub match_ipv6_next_header : ℕ → Match
  match_ipv6_next_header nh = rule (ipv6_next_header_block nh)

  abbrev pub match_icmpv6_echo : Match
  match_icmpv6_echo = rule icmpv6_echo_block

  abbrev pub match_icmpv6_nd : Match
  match_icmpv6_nd = rule icmpv6_nd_block

  abbrev pub match_ether_type : ℕ → Match
  match_ether_type ether_type = rule (ether_type_block ether_type)

abbrev pub match_all : Match
match_all = record (rule (λ block next hit. with_entry block (ins (ja (entry hit)) ∷ []))) {
  catch_all = true;
}

abbrev pub match_none : Match
match_none = record (rule (λ block next hit. with_entry block (ins (ja (entry next)) ∷ []))) {
  pass_only = true;
}
