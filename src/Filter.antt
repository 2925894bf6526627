-- ===== src/Filter.antt =====
-- filter.go: the fixed offsets, the pieces of code that the blocks share, and the `Match` builders.
-- The host's byte order, which `binary.NativeEndian` reads, is a parameter.
pub mod Emit
pub mod Match
pub mod Cidr
pub mod Program
pub mod Contract
pub mod Classify
pub mod Frame
pub mod Rules
pub mod Wanted
pub mod Guard
pub mod Ports
pub mod Words
pub mod Address
pub mod Hosts
pub mod Local
pub mod Management
pub mod Tail
pub mod Gate
pub mod Kept
use go_afxdp.Prelude.{ℕ, ◌+◌, ◌-◌, ◌*◌, ◌/◌, ◌%◌}
use go_afxdp.Ebpf.{Endian, little, big}

abbrev pub off_ether_type : ℕ
off_ether_type = 12

abbrev pub off_ip_proto : ℕ
off_ip_proto = 23

abbrev pub off_l4_sport : ℕ
off_l4_sport = 34

abbrev pub off_l4_dport : ℕ
off_l4_dport = 36

abbrev pub off_icmp_type : ℕ
off_icmp_type = 34

abbrev pub off_ipv6_next_hdr : ℕ
off_ipv6_next_hdr = 20

abbrev pub off_ipv6_l4_sport : ℕ
off_ipv6_l4_sport = 54

abbrev pub off_ipv6_l4_dport : ℕ
off_ipv6_l4_dport = 56

abbrev pub off_icmpv6_type : ℕ
off_icmpv6_type = 54

abbrev pub off_ipv4_ver_ihl : ℕ
off_ipv4_ver_ihl = 14

abbrev pub off_ipv4_frag_off : ℕ
off_ipv4_frag_off = 20

abbrev pub ipv4_ver_ihl5 : ℕ
ipv4_ver_ihl5 = 0x45

abbrev pub ipv4_frag_off_mask : ℕ
ipv4_frag_off_mask = 0x1fff

abbrev pub off_ipv4_src : ℕ
off_ipv4_src = 26

abbrev pub off_ipv4_dst : ℕ
off_ipv4_dst = 30

abbrev pub off_ipv6_src : ℕ
off_ipv6_src = 22

abbrev pub off_ipv6_dst : ℕ
off_ipv6_dst = 38

abbrev pub ip_proto_icmp : ℕ
ip_proto_icmp = 1

abbrev pub ip_proto_tcp : ℕ
ip_proto_tcp = 6

abbrev pub ip_proto_udp : ℕ
ip_proto_udp = 17

abbrev pub ip_proto_icmpv6 : ℕ
ip_proto_icmpv6 = 58

abbrev pub icmp_echo_request : ℕ
icmp_echo_request = 8

abbrev pub icmpv6_echo_request : ℕ
icmpv6_echo_request = 128

abbrev pub icmpv6_nd_first : ℕ
icmpv6_nd_first = 133

abbrev pub icmpv6_nd_last : ℕ
icmpv6_nd_last = 137

-- match.go: the well-known EtherTypes.
abbrev pub ether_type_ipv4 : ℕ
ether_type_ipv4 = 0x0800

abbrev pub ether_type_ipv6 : ℕ
ether_type_ipv6 = 0x86DD

abbrev pub ether_type_arp : ℕ
ether_type_arp = 0x0806

abbrev pub ether_type_vlan : ℕ
ether_type_vlan = 0x8100

-- The two bytes of `v` in network order, read in the host's order; `v` is a uint16.
unfoldable pub netshort : Endian → ℕ → ℕ
netshort little v = v / 256 + 256 * (v % 256)
netshort big v = v
