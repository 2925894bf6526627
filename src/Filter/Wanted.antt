-- ===== src/Filter/Wanted.antt =====
-- Which frames the port matchers ask for, by the fields of their headers.
use go_afxdp.Prelude.{
  ℕ, ◌+◌, ◌%◌, Bool, true, false, ◌&&◌, List, [], ◌∷◌, if◌then◌else◌, length, leb, ◌==◌,
}
use go_afxdp.Ebpf.{octet}
use go_afxdp.Filter.Frame.{base_of, be16}

abbrev pub member : ℕ → List ℕ → Bool
member p [] = false
member p (q ∷ qs) = if p == q then true else member p qs

-- One of the ports; any port if none is given.
abbrev pub port_ok : List ℕ → ℕ → Bool
port_ok [] p = true
port_ok (q ∷ qs) p = member p (q ∷ qs)

-- The header at `b` is IPv4 with 20 bytes and no fragment offset.
abbrev pub plain_ipv4 : List ℕ → ℕ → Bool
plain_ipv4 frame b = (octet frame (b + 14) == 0x45) && (be16 frame (b + 20) % 8192 == 0)

abbrev pub wanted : ℕ → List ℕ → ℕ → ℕ → List ℕ → ℕ → Bool
wanted proto ports proto_off port_off frame b =
    (octet frame (b + proto_off) == proto) && port_ok ports (be16 frame (b + port_off))

-- The offsets of one family, as it is meant.
abbrev pub in_family : ℕ → List ℕ → ℕ → ℕ → Bool → List ℕ → ℕ → Bool
in_family proto ports proto_off port_off is_v4 frame b =
    leb (b + (port_off + 2)) (length frame)
    && ((if is_v4 then plain_ipv4 frame b else true)
        && wanted proto ports proto_off port_off frame b)

-- The family that the EtherType names, with its offsets.
abbrev pub by_family : ℕ → Bool → List ℕ → List ℕ → ℕ → Bool
by_family proto src_port ports frame b =
    if be16 frame (b + 12) == 0x0800
    then in_family proto ports 23 (if src_port then 34 else 36) true frame b
    else if be16 frame (b + 12) == 0x86DD
    then in_family proto ports 20 (if src_port then 54 else 56) false frame b
    else false

-- The packets that `matchL4Port` is meant to match.
abbrev pub l4_wanted : ℕ → Bool → List ℕ → List ℕ → Bool
l4_wanted proto src_port ports frame =
    leb 14 (length frame)
    && (leb (base_of frame + 14) (length frame)
        && by_family proto src_port ports frame (base_of frame))
