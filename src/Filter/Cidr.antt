-- ===== src/Filter/Cidr.antt =====
-- filter.go: the builders that match addresses. `netip.ParsePrefix` is not part of the repository: a
-- builder takes its result, `none` where the text is no prefix, with the address in network order.
use go_afxdp.Prelude.{
  ℕ, zero, suc, ◌+◌, ◌-◌, ◌*◌, ◌^◌, Bool, true, false, not, Option, none, some, List, [], ◌∷◌, ◌++◌,
  ltb, leb, ◌==◌, if◌then◌else◌, bit_and,
}
use go_afxdp.Ebpf.{
  r3, r9, Target, notag, entry, byte, half, word, and_imm, load_mem, ja, jne_imm, jne_imm32, Instr,
  ins, Endian,
}
use go_afxdp.Filter.{
  off_ether_type, off_ip_proto, off_l4_sport, off_l4_dport, off_ipv6_next_hdr, off_ipv6_l4_sport,
  off_ipv6_l4_dport, off_ipv4_src, off_ipv4_dst, off_ipv6_src, off_ipv6_dst, ip_proto_tcp,
  ip_proto_udp, ether_type_ipv4, ether_type_ipv6, ether_type_arp, netshort,
}
use go_afxdp.Filter.Emit.{with_entry, bounds_from, ipv4_fixed_l4_guard, l3_base}
use go_afxdp.Filter.Match.{
  BuildError, bad_cidr, mixed_families, Match, rule, match_ether_type, match_icmpv6_nd,
}

pub record Prefix : Type 0 where
  pub is4 : Bool
  pub addr : List ℕ
  pub bits : ℕ

-- `net.CIDRMask`: the first `ones` bits of `n` bytes.
abbrev pub cidr_mask : ℕ → ℕ → List ℕ
cidr_mask ones zero = []
cidr_mask ones (suc n) = (if leb 8 ones then 255 else 256 - 2 ^ (8 - ones)) ∷ cidr_mask (ones - 8) n

abbrev pub masked_bytes : List ℕ → List ℕ → List ℕ
masked_bytes (a ∷ addr) (m ∷ mask) = bit_and a m ∷ masked_bytes addr mask
masked_bytes _ _ = []

abbrev pub mask_of : Prefix → List ℕ
mask_of p = cidr_mask p.bits (if p.is4 then 4 else 16)

-- `Prefix.Masked`
abbrev pub masked : Prefix → Prefix
masked p = record p { addr = masked_bytes p.addr (mask_of p) }

-- `binary.LittleEndian.Uint32`
abbrev pub le32 : ℕ → ℕ → ℕ → ℕ → ℕ
le32 a b c d = a + 256 * b + 65536 * c + 16777216 * d

-- The tests of the words from the one at `off` on. The conversions to int32 keep the 32 bits: the
-- loaded word has no others, and `JNE.Imm32` reads no others.
unfoldable pub word_tests : ℕ → List ℕ → List ℕ → Target → List Instr
word_tests off (a ∷ b ∷ c ∷ d ∷ addr) (k ∷ l ∷ m ∷ n ∷ mask) fail =
    let rest = word_tests (off + 4) addr mask fail in
    let mw = le32 k l m n in
    if mw == 0
    then rest
    else ins (load_mem r3 r9 off word)
      ∷ ins (and_imm r3 mw)
      ∷ ins (jne_imm32 r3 (bit_and (le32 a b c d) mw) (entry fail))
      ∷ rest
word_tests off _ _ fail = []

unfoldable pub cidr_test : ℕ → Prefix → Target → List Instr
unfolding word_tests
cidr_test off p fail = word_tests off p.addr (mask_of p) fail

abbrev pub src_off : Bool → ℕ
src_off is4 = if is4 then off_ipv4_src else off_ipv6_src

abbrev pub dst_off : Bool → ℕ
dst_off is4 = if is4 then off_ipv4_dst else off_ipv6_dst

abbrev pub ip_ether_type : Bool → ℕ
ip_ether_type is4 = if is4 then ether_type_ipv4 else ether_type_ipv6

abbrev pub addresses_end : Bool → ℕ
addresses_end is4 = if is4 then off_ipv4_dst + 4 else off_ipv6_dst + 16

module _ (host : Endian) where
  unfoldable pub ip_block : Prefix → Bool → Target → Target → Target → List Instr
  unfolding with_entry l3_base bounds_from cidr_test
  ip_block p is_src block next hit = with_entry block (
      l3_base host block notag next
      ++ (bounds_from r9 (addresses_end p.is4) next
          ++ (ins (load_mem r3 r9 off_ether_type half)
              ∷ ins (jne_imm r3 (netshort host (ip_ether_type p.is4)) (entry next))
              ∷ (cidr_test (if is_src then src_off p.is4 else dst_off p.is4) p next
                  ++ (ins (ja (entry hit)) ∷ [])))))

  unfoldable pub flow_block : Prefix → Prefix → Target → Target → Target → List Instr
  unfolding with_entry l3_base bounds_from cidr_test
  flow_block src dst block next hit = with_entry block (
      l3_base host block notag next
      ++ (bounds_from r9 (addresses_end src.is4) next
          ++ (ins (load_mem r3 r9 off_ether_type half)
              ∷ ins (jne_imm r3 (netshort host (ip_ether_type src.is4)) (entry next))
              ∷ (cidr_test (src_off src.is4) src next
                  ++ (cidr_test (dst_off src.is4) dst next ++ (ins (ja (entry hit)) ∷ []))))))

  abbrev invalid : BuildError → Match
  invalid e = record {
    build = none;
    err = some e;
    catch_all = false;
    mgmt = false;
    pass_only = false;
  }

  abbrev pub match_ip : Option Prefix → Bool → Match
  match_ip none is_src = invalid bad_cidr
  match_ip (some p) is_src = rule (ip_block (masked p) is_src)

  abbrev same_family : Bool → Bool → Bool
  same_family a b = if a then b else not b

  abbrev pub match_flow : Option Prefix → Option Prefix → Match
  match_flow none dst = invalid bad_cidr
  match_flow (some s) none = invalid bad_cidr
  match_flow (some s) (some d) =
      if same_family s.is4 d.is4
      then rule (flow_block (masked s) (masked d))
      else invalid mixed_families

  abbrev pub proto_off : Bool → ℕ
  proto_off is4 = if is4 then off_ip_proto else off_ipv6_next_hdr

  abbrev pub port_off : Bool → Bool → ℕ
  port_off is4 src_port =
      if is4
      then (if src_port then off_l4_sport else off_l4_dport)
      else (if src_port then off_ipv6_l4_sport else off_ipv6_l4_dport)

  abbrev pub test_local : Bool → Option Prefix → Target → List Instr
  test_local is4 none next = []
  test_local is4 (some p) next = cidr_test (dst_off is4) p next

  -- The zero `Prefix` is `none`.
  unfoldable pub local_port_block :
      ℕ → Bool → ℕ → Option Prefix → Bool → Target → Target → Target → List Instr
  unfolding with_entry l3_base bounds_from ipv4_fixed_l4_guard cidr_test
  local_port_block proto src_port port local is4 block next hit =
      let end = addresses_end is4 in
      let p = port_off is4 src_port + 2 in
      with_entry block (
        l3_base host block notag next
        ++ (bounds_from r9 (if ltb end p then p else end) next
            ++ (ins (load_mem r3 r9 off_ether_type half)
                ∷ ins (jne_imm r3 (netshort host (ip_ether_type is4)) (entry next))
                ∷ ((if is4 then ipv4_fixed_l4_guard host next else [])
                    ++ (ins (load_mem r3 r9 (proto_off is4) byte)
                        ∷ ins (jne_imm r3 proto (entry next))
                        ∷ ins (load_mem r3 r9 (port_off is4 src_port) half)
                        ∷ ins (jne_imm r3 (netshort host port) (entry next))
                        ∷ (test_local is4 local next ++ (ins (ja (entry hit)) ∷ [])))))))

  abbrev pub match_local_port : ℕ → Bool → ℕ → Option Prefix → Bool → Match
  match_local_port proto src_port port none family4 =
      rule (local_port_block proto src_port port none family4)
  match_local_port proto src_port port (some p) family4 =
      rule (local_port_block proto src_port port (some p) p.is4)

  abbrev pub mark : List Match → List Match
  mark [] = []
  mark (m ∷ ms) = record m { mgmt = true } ∷ mark ms

  abbrev pub per_local : ℕ → Bool → ℕ → List Prefix → List Match
  per_local proto src_port port [] = []
  per_local proto src_port port (l ∷ ls) =
      match_local_port proto src_port port (some l) l.is4 ∷ per_local proto src_port port ls

  -- The blocks of one `portRule`.
  abbrev pub port_rule : Bool → List Prefix → ℕ → Bool → ℕ → List Match
  port_rule unscoped locals proto src_port port =
      if unscoped
      then match_local_port proto src_port port none true
        ∷ match_local_port proto src_port port none false
        ∷ []
      else per_local proto src_port port locals

  abbrev pub tcp_rules : Bool → List Prefix → List ℕ → List Match
  tcp_rules unscoped locals [] = []
  tcp_rules unscoped locals (p ∷ ps) =
      port_rule unscoped locals ip_proto_tcp false p
      ++ (port_rule unscoped locals ip_proto_tcp true p ++ tcp_rules unscoped locals ps)

  unfoldable pub management_exceptions : List Prefix → List ℕ → Bool → List Match
  management_exceptions locals tcp_ports unscoped = mark (
      match_ether_type host ether_type_arp
      ∷ match_icmpv6_nd host
      ∷ (tcp_rules unscoped locals tcp_ports
          ++ (port_rule unscoped locals ip_proto_udp true 53
              ++ port_rule unscoped locals ip_proto_tcp true 53)))
