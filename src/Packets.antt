-- ===== src/Packets.antt =====
-- The packets that the example programs build and rewrite: buildFrame and ipChecksum
-- (examples/blast), buildReply (examples/dns, which has its own copy of ipChecksum), reflect
-- (examples/udpreflector) and swapMAC (examples/l2fwd). A slice of bytes is a list; the source panics
-- where a write here, out of range, changes nothing.
pub mod Checksum
pub mod Build
pub mod Reply
pub mod Reflect
use go_afxdp.Prelude.{
  ℕ, zero, suc, ◌+◌, ◌-◌, ◌*◌, ◌/◌, ◌%◌, ◌^◌, List, [], ◌∷◌, ◌++◌, ltb, ◌==◌, if◌then◌else◌, length,
  get_or, set, take, drop,
}

-- `make([]byte, n)`
abbrev pub zeros : ℕ → List ℕ
zeros zero = []
zeros (suc n) = 0 ∷ zeros n

-- `copy(f[off:], src)`: as much as there is room for.
abbrev overlay : List ℕ → List ℕ → List ℕ
overlay [] src = []
overlay (x ∷ xs) [] = x ∷ xs
overlay (x ∷ xs) (b ∷ bs) = b ∷ overlay xs bs

abbrev pub copy_at : List ℕ → ℕ → List ℕ → List ℕ
copy_at f zero src = overlay f src
copy_at [] (suc off) src = []
copy_at (x ∷ xs) (suc off) src = x ∷ copy_at xs off src

-- `f[off:off+n]`
abbrev pub slice : List ℕ → ℕ → ℕ → List ℕ
slice f off n = take n (drop off f)

-- `binary.BigEndian.PutUint16(f[off:], uint16(v))`
abbrev pub put16 : List ℕ → ℕ → ℕ → List ℕ
put16 f off v = set (set f off (v / 256 % 256)) (off + 1) (v % 256)

-- ---- ipChecksum ----

unfoldable pub sum_words : ℕ → List ℕ → ℕ
sum_words sum (hi ∷ lo ∷ hdr) = sum_words ((sum + (hi * 256 + lo)) % 2 ^ 32) hdr
sum_words sum _ = sum

-- The loop `for sum>>16 != 0`, with fuel.
unfoldable pub fold_carries : ℕ → ℕ → ℕ
fold_carries zero sum = sum
fold_carries (suc fuel) sum =
    let rest = fold_carries fuel (sum % 65536 + sum / 65536) in
    if sum / 65536 == 0 then sum else rest

-- `^uint16(sum)`; three rounds are enough for 32 bits.
unfoldable pub ip_checksum : List ℕ → ℕ
ip_checksum hdr = 65535 - fold_carries 3 (sum_words 0 hdr) % 65536

-- ---- blast ----

abbrev pub min_size : ℕ → ℕ
min_size vlan = (if vlan == 0 then 14 else 18) + 28

abbrev pub frame_size : ℕ → ℕ → ℕ
frame_size size vlan = if ltb size (min_size vlan) then min_size vlan else size

abbrev tag : ℕ → List ℕ → List ℕ
tag vlan f = if vlan == 0 then f else put16 (put16 f 12 0x8100) 14 (vlan % 4096)

-- The headers from the EtherType on, which stands at `et`, of a frame of `size` bytes.
abbrev network : ℕ → List ℕ → List ℕ → ℕ → List ℕ → List ℕ
network et src_ip dst_ip size f =
    let ip = et + 2 in
    let f1 = set (set (set (put16 f et 0x0800) ip 0x45) (ip + 8) 64) (ip + 9) 17 in
    let f2 =
      copy_at (copy_at (put16 f1 (ip + 2) (size - ip)) (ip + 12) (take 4 src_ip)) (ip + 16)
        (take 4 dst_ip) in
    put16 f2 (ip + 10) (ip_checksum (slice f2 ip 20))

abbrev transport : ℕ → ℕ → ℕ → List ℕ → List ℕ
transport udp dst_port size f =
    put16 (put16 (put16 f udp 1024) (udp + 2) dst_port) (udp + 4) (size - udp)

abbrev pub ether_type_at : ℕ → ℕ
ether_type_at vlan = if vlan == 0 then 12 else 16

-- The headers, written over the `size` bytes of `f`.
abbrev pub write_headers : List ℕ → List ℕ → List ℕ → List ℕ → ℕ → ℕ → ℕ → List ℕ → List ℕ
write_headers src_mac dst_mac src_ip dst_ip dst_port size vlan f =
    let et = ether_type_at vlan in
    let f1 = copy_at (copy_at f 0 (take 6 dst_mac)) 6 (take 6 src_mac) in
    transport (et + 22) dst_port size (network et src_ip dst_ip size (tag vlan f1))

-- The frame, and the offset of its source port. `vlan` is not negative.
unfoldable pub build_frame : List ℕ → List ℕ → List ℕ → List ℕ → ℕ → ℕ → ℕ → List ℕ × ℕ
unfolding ip_checksum
build_frame src_mac dst_mac src_ip dst_ip dst_port size vlan =
    let n = frame_size size vlan in
    (write_headers src_mac dst_mac src_ip dst_ip dst_port n vlan (zeros n), ether_type_at vlan + 22)

-- ---- dns ----

-- The response, and its length.
unfoldable pub build_reply : List ℕ → List ℕ → List ℕ → List ℕ × ℕ
unfolding ip_checksum
build_reply req_hdr answer out =
    let n = length answer in
    let o1 = copy_at out 0 (take 42 req_hdr) in
    let o2 = copy_at (copy_at o1 0 (slice req_hdr 6 6)) 6 (slice req_hdr 0 6) in
    let o3 = copy_at (copy_at o2 26 (slice req_hdr 30 4)) 30 (slice req_hdr 26 4) in
    let o4 = copy_at (copy_at o3 34 (slice req_hdr 36 2)) 36 (slice req_hdr 34 2) in
    let o5 = put16 (put16 o4 16 (20 + 8 + n)) 38 (8 + n) in
    let o6 = copy_at (set (set o5 40 0) 41 0) 42 answer in
    let o7 = set (set o6 24 0) 25 0 in (put16 o7 24 (ip_checksum (slice o7 14 20)), 42 + n)

-- ---- udpreflector ----

-- Each round exchanges the bytes at `a` and `b`.
unfoldable pub swap : List ℕ → ℕ → ℕ → ℕ → List ℕ
swap f a b zero = f
swap f a b (suc n) = swap (set (set f a (get_or f b 0)) b (get_or f a 0)) (a + 1) (b + 1) n

unfoldable pub reflect : List ℕ → List ℕ
unfolding swap
reflect f = swap (swap (swap f 0 6 6) 26 30 4) 34 36 2

-- ---- l2fwd ----

unfoldable pub swap_mac : List ℕ → List ℕ
swap_mac f = if ltb (length f) 12 then f else copy_at (copy_at f 0 (slice f 6 6)) 6 (slice f 0 6)
