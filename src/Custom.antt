-- ===== src/Custom.antt =====
-- The hand-written matches of examples/customfilter: each a build func for `NewMatch`. `|` of values
-- with no bit in common is written `+`.
pub mod Shape
pub mod Decisions
pub mod Start
use go_afxdp.Prelude.{
  ℕ, ◌+◌, ◌*◌, ◌/◌, ◌%◌, Option, none, some, List, [], ◌∷◌, ◌++◌, if◌then◌else◌, ◌==◌, length,
  get_or,
}
use go_afxdp.Ebpf.{
  Reg, r3, r7, entry, byte, half, word, and_imm, load_mem, jeq_imm, jeq_imm32, jne_imm, jne_imm32,
  Instr, ins, Endian, little, big,
}
use go_afxdp.Filter.{off_ether_type, ether_type_ipv4, ether_type_vlan, netshort}
use go_afxdp.Filter.Match.{BuildError, custom, Built, built, Match}
use go_afxdp.Filter.Program.{MatchEnv, frame_base, bounds, new_match, match_error}

module _ (host : Endian) where
  -- The prefix that four of them share: the frame base, `n` bytes, and IPv4 of one protocol.
  abbrev ipv4_rule : ℕ → ℕ → List Instr → MatchEnv → Built
  ipv4_rule n proto rest e =
      let (base, frame) = frame_base host e in
      built (
        base
        ++ (bounds e frame n
            ++ (ins (load_mem r3 frame off_ether_type half)
                ∷ ins (jne_imm r3 (netshort host ether_type_ipv4) (entry e.next_block))
                ∷ ins (load_mem r3 frame 23 byte)
                ∷ ins (jne_imm r3 proto (entry e.next_block))
                ∷ rest)))

  -- ---- udpsrcport ----

  abbrev frame_of : MatchEnv → Reg
  frame_of e = (frame_base host e).1

  abbrev udp_src_rule : ℕ → MatchEnv → Built
  udp_src_rule port e =
      ipv4_rule (34 + 2) 17
        (ins (load_mem r3 (frame_of e) 34 half)
          ∷ ins (jeq_imm r3 (netshort host port) (entry e.hit))
          ∷ [])
        e

  unfoldable pub match_udp_src : ℕ → Match
  unfolding new_match frame_base bounds
  match_udp_src port = new_match (some (udp_src_rule port))

  -- ---- vxlan ----

  abbrev pub vni_le : ℕ → ℕ
  vni_le vni = vni % 256 * 65536 + (vni / 256 % 256 * 256 + vni / 65536 % 256)

  abbrev vxlan_rule : ℕ → MatchEnv → Built
  vxlan_rule vni e =
      ipv4_rule (46 + 4) 17
        (ins (load_mem r3 (frame_of e) 36 half)
          ∷ ins (jne_imm r3 (netshort host 4789) (entry e.next_block))
          ∷ ins (load_mem r3 (frame_of e) 46 word)
          ∷ ins (and_imm r3 0x00ffffff)
          ∷ ins (jeq_imm r3 (vni_le vni) (entry e.hit))
          ∷ [])
        e

  unfoldable pub match_vxlan : ℕ → Match
  unfolding new_match frame_base bounds
  match_vxlan vni = new_match (some (vxlan_rule vni))

  -- ---- tcpsyn ----

  abbrev tcp_flags_rule : ℕ → ℕ → MatchEnv → Built
  tcp_flags_rule mask value e =
      ipv4_rule (47 + 1) 6
        (ins (load_mem r3 (frame_of e) 47 byte)
          ∷ ins (and_imm r3 mask)
          ∷ ins (jeq_imm r3 value (entry e.hit))
          ∷ [])
        e

  unfoldable pub match_tcp_flags : ℕ → ℕ → Match
  unfolding new_match frame_base bounds
  match_tcp_flags mask value = new_match (some (tcp_flags_rule mask value))

  -- ---- gre ----

  -- The four bytes of the key in network order, read in the host's order.
  abbrev pub key_le : ℕ → ℕ
  key_le key = elim host [
    | little ↦
        key / 16777216 % 256
        + 256 * (key / 65536 % 256)
        + 65536 * (key / 256 % 256)
        + 16777216 * (key % 256)
    | big ↦ key
  ]

  abbrev gre_rule : ℕ → MatchEnv → Built
  gre_rule key e =
      ipv4_rule (38 + 4) 47
        (ins (load_mem r3 (frame_of e) 34 half)
          ∷ ins (and_imm r3 (netshort host (0x2000 + 0x8000)))
          ∷ ins (jne_imm r3 (netshort host 0x2000) (entry e.next_block))
          ∷ ins (load_mem r3 (frame_of e) 38 word)
          ∷ ins (jeq_imm32 r3 (key_le key) (entry e.hit))
          ∷ [])
        e

  unfoldable pub match_gre_key : ℕ → Match
  unfolding new_match frame_base bounds
  match_gre_key key = new_match (some (gre_rule key))

  -- ---- vlan ----

  -- `e.Data` is R7.
  abbrev vlan_rule : ℕ → MatchEnv → Built
  vlan_rule vid e = built (
      bounds e r7 16
      ++ (ins (load_mem r3 r7 12 half)
          ∷ ins (jne_imm r3 (netshort host ether_type_vlan) (entry e.next_block))
          ∷ ins (load_mem r3 r7 14 half)
          ∷ ins (and_imm r3 (netshort host 0x0fff))
          ∷ ins (jeq_imm r3 (netshort host vid) (entry e.hit))
          ∷ []))

  unfoldable pub match_vlan : ℕ → Match
  unfolding new_match bounds
  match_vlan vid = new_match (some (vlan_rule vid))

-- ---- dstmac ----

abbrev at : List ℕ → ℕ → ℕ
at mac i = get_or mac i 0

abbrev pub mac_lo : List ℕ → ℕ
mac_lo mac = at mac 0 + 256 * at mac 1 + 65536 * at mac 2 + 16777216 * at mac 3

abbrev pub mac_hi : List ℕ → ℕ
mac_hi mac = at mac 4 + 256 * at mac 5

abbrev dst_mac_rule : List ℕ → MatchEnv → Built
dst_mac_rule mac e = built (
    bounds e r7 6
    ++ (ins (load_mem r3 r7 0 word)
        ∷ ins (jne_imm32 r3 (mac_lo mac) (entry e.next_block))
        ∷ ins (load_mem r3 r7 4 half)
        ∷ ins (jeq_imm r3 (mac_hi mac) (entry e.hit))
        ∷ []))

-- `net.ParseMAC` is not part of the repository: its result is the argument, `none` where it fails.
unfoldable pub match_dst_mac : Option (List ℕ) → Match
unfolding new_match match_error bounds
match_dst_mac none = match_error (some (custom 0))
match_dst_mac (some mac) =
    if length mac == 6 then new_match (some (dst_mac_rule mac)) else match_error (some (custom 1))
