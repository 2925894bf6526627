-- ===== src/Packets/Build.antt =====
-- The frames of examples/blast: a valid IPv4 header, and what the filter makes of them.
use go_afxdp.Prelude.{
  ℕ, zero, suc, ◌+◌, ◌-◌, ◌/◌, ◌%◌, ◌^◌, ◌≤◌, ◌<◌, ◌≡◌, refl, ap, ◌∙◌, Bool, true, false, List, [],
  ◌∷◌, ◌++◌, ◌==◌, if◌then◌else◌, arith, Bool-cases, inl, inr, length,
}
use go_afxdp.Ebpf.{octet}
use go_afxdp.Filter.Frame.{Bytes, be16, base_of}
use go_afxdp.Filter.Wanted.{l4_wanted}
use go_afxdp.Packets.{
  build_frame, write_headers, frame_size, ether_type_at, ip_checksum, slice, zeros,
}
use go_afxdp.Packets.Checksum.{words_total, IsValidSum, checksum_total, ip_checksum-lt}

-- Four and six bytes of an address.
pub record Ip : Type 0 where
  pub i0 : ℕ
  pub i1 : ℕ
  pub i2 : ℕ
  pub i3 : ℕ

pub record Mac : Type 0 where
  pub m0 : ℕ
  pub m1 : ℕ
  pub m2 : ℕ
  pub m3 : ℕ
  pub m4 : ℕ
  pub m5 : ℕ

abbrev pub ip_bytes : Ip → List ℕ
ip_bytes a = a.i0 ∷ a.i1 ∷ a.i2 ∷ a.i3 ∷ []

abbrev pub mac_bytes : Mac → List ℕ
mac_bytes a = a.m0 ∷ a.m1 ∷ a.m2 ∷ a.m3 ∷ a.m4 ∷ a.m5 ∷ []

zeros-add : (a k : ℕ) → zeros (a + k) ≡ zeros a ++ zeros k
zeros-add zero k = ap zeros {x = 0 + k} {y = k} (omega arith)
zeros-add (suc a) k =
    let e : suc a + k ≡ suc (a + k) = omega arith in rw e (ap (λ t. 0 ∷ t) (zeros-add a k))

zeros-split : (a n : ℕ) → a ≤ n → zeros n ≡ zeros a ++ zeros (n - a)
zeros-split a n h = let e : n ≡ a + (n - a) = omega arith in ap zeros e ∙ zeros-add a (n - a)

abbrev written : Mac → Mac → Ip → Ip → ℕ → ℕ → ℕ → List ℕ → List ℕ
written src dst from to port n vlan f =
    write_headers (mac_bytes src) (mac_bytes dst) (ip_bytes from) (ip_bytes to) port n vlan f

-- The IPv4 header before its checksum is known.
abbrev unsummed : Ip → Ip → ℕ → List ℕ
unsummed from to len =
    0x45
    ∷ 0
    ∷ len / 256 % 256
    ∷ len % 256
    ∷ 0
    ∷ 0
    ∷ 0
    ∷ 0
    ∷ 64
    ∷ 17
    ∷ 0
    ∷ 0
    ∷ (ip_bytes from ++ ip_bytes to)

abbrev summed : Ip → Ip → ℕ → ℕ → List ℕ
summed from to len sum =
    0x45
    ∷ 0
    ∷ len / 256 % 256
    ∷ len % 256
    ∷ 0
    ∷ 0
    ∷ 0
    ∷ 0
    ∷ 64
    ∷ 17
    ∷ sum / 256 % 256
    ∷ sum % 256
    ∷ (ip_bytes from ++ ip_bytes to)

-- What the port matchers ask of an unfragmented IPv4 frame without options.
pub record IsUdp (f : List ℕ) (b off port : ℕ) : Type 0 where
  pub long : b + 42 ≤ length f
  pub base : base_of f ≡ b
  pub ether_type : be16 f (b + 12) ≡ 0x0800
  pub version : octet f (b + 14) ≡ 0x45
  pub fragment : be16 f (b + 20) ≡ 0
  pub proto : octet f (b + 23) ≡ 17
  pub port_of : be16 f (b + off) ≡ port

pub IsUdp-wanted :
    (f : List ℕ) (b port : ℕ) (src_port : Bool)
    → IsUdp f b (if src_port then 34 else 36) port
    → l4_wanted 17 src_port (port ∷ []) f ≡ true
IsUdp-wanted f b port true u =
    rw (u.base, u.ether_type, u.version, u.fragment, u.proto, u.port_of) (ground (arith, u.long))
IsUdp-wanted f b port false u =
    rw (u.base, u.ether_type, u.version, u.fragment, u.proto, u.port_of) (ground (arith, u.long))

summed-IsValid :
    (from to : Ip) (len : ℕ)
    → Bytes (ip_bytes from)
    → Bytes (ip_bytes to)
    → IsValidSum (words_total (summed from to len (ip_checksum (unsummed from to len))))
summed-IsValid from to len hf ht =
    let h = unsummed from to len in
    let c = ip_checksum h in
    let small : words_total h < 2 ^ 32 = omega (arith, hf, ht) in
    let total : words_total (summed from to len c) ≡ words_total h + c =
      omega (arith, ip_checksum-lt h) in
    ap (λ t. t % 65535) total ∙ checksum_total h small

module _ (src dst : Mac) (from to : Ip) (port n : ℕ) (rest : List ℕ) where
  plain : List ℕ
  plain = written src dst from to port n 0 (zeros 42 ++ rest)

  tagged : ℕ → List ℕ
  tagged vlan = written src dst from to port n vlan (zeros 46 ++ rest)

  plain_header :
      slice plain 14 20 ≡ summed from to (n - 14) (ip_checksum (unsummed from to (n - 14)))
  unfolding plain
  plain_header = refl

  tagged_header :
      (vlan : ℕ)
      → (vlan == 0) ≡ false
      → slice (tagged vlan) 18 20
        ≡ summed from to (n - 18) (ip_checksum (unsummed from to (n - 18)))
  unfolding tagged
  tagged_header vlan e = rw e refl

  plain-IsUdp : port < 65536 → IsUdp plain 0 36 port
  unfolding plain
  plain-IsUdp h = record {
    long = omega arith;
    base = refl;
    ether_type = refl;
    version = refl;
    fragment = refl;
    proto = refl;
    port_of = omega arith;
  }

  tagged-IsUdp : (vlan : ℕ) → (vlan == 0) ≡ false → port < 65536 → IsUdp (tagged vlan) 4 36 port
  unfolding tagged
  tagged-IsUdp vlan e h = rw e (record {
    long = omega arith;
    base = refl;
    ether_type = refl;
    version = refl;
    fragment = refl;
    proto = refl;
    port_of = omega arith;
  })

length-zeros : (n : ℕ) → length (zeros n) ≡ n
length-zeros zero = omega arith
length-zeros (suc n) = omega (arith, length-zeros n)

-- A frame as examples/blast means to send it.
pub record IsSent (f : List ℕ) (size ip udp port : ℕ) : Type 0 where
  pub whole : length f ≡ size
  pub checksum : IsValidSum (words_total (slice f ip 20))
  pub source : be16 f udp ≡ 1024
  pub accepted : l4_wanted 17 false (port ∷ []) f ≡ true

module _ (src dst : Mac) (from to : Ip) (port n : ℕ) (hf : Bytes (ip_bytes from))
    (ht : Bytes (ip_bytes to)) (hp : port < 65536) where
  plain-IsSent : 42 ≤ n → IsSent (written src dst from to port n 0 (zeros n)) n 14 34 port
  unfolding plain
  plain-IsSent h =
      let rest = zeros (n - 42) in
      rw (zeros-split 42 n h) (record {
        whole = omega (arith, length-zeros (n - 42));
        checksum =
            ap (λ t. words_total t % 65535) (plain_header src dst from to port n rest)
            ∙ summed-IsValid from to (n - 14) hf ht;
        source = omega arith;
        accepted =
            IsUdp-wanted (plain src dst from to port n rest) 0 port false
              (plain-IsUdp src dst from to port n rest hp);
      })

  tagged-IsSent :
      (vlan : ℕ)
      → (vlan == 0) ≡ false
      → 46 ≤ n
      → IsSent (written src dst from to port n vlan (zeros n)) n 18 38 port
  unfolding tagged
  tagged-IsSent vlan e h =
      let rest = zeros (n - 46) in
      rw (zeros-split 46 n h) (record {
        whole = rw e (omega (arith, length-zeros (n - 46)));
        checksum =
            ap (λ t. words_total t % 65535) (tagged_header src dst from to port n rest vlan e)
            ∙ summed-IsValid from to (n - 18) hf ht;
        source = rw e (omega arith);
        accepted =
            IsUdp-wanted (tagged src dst from to port n rest vlan) 4 port false
              (tagged-IsUdp src dst from to port n rest vlan e hp);
      })

-- For any addresses, 16-bit port, size and VLAN number, buildFrame makes a frame of the size asked for,
-- or the least that holds the headers, with a valid IPv4 header checksum, the source port 1024 at the
-- offset that it returns, which MatchUDPPort for the destination port takes, tag or no tag.
pub build_frame-IsSent :
    (src dst : Mac) (from to : Ip) (port size vlan : ℕ)
    → Bytes (ip_bytes from)
    → Bytes (ip_bytes to)
    → port < 65536
    → IsSent
        (build_frame (mac_bytes src) (mac_bytes dst) (ip_bytes from) (ip_bytes to) port size vlan).0
        (frame_size size vlan)
        (ether_type_at vlan + 2)
        (build_frame (mac_bytes src) (mac_bytes dst) (ip_bytes from) (ip_bytes to) port size vlan).1
        port
unfolding build_frame
build_frame-IsSent src dst from to port size vlan hf ht hp = elim (Bool-cases (vlan == 0)) [
  | inl e ↦
      let zero_tag : vlan ≡ 0 = ground arith in
      rw zero_tag (plain-IsSent src dst from to port (frame_size size 0) hf ht hp (ground arith))
  | inr e ↦
      let size_of =
        tagged-IsSent src dst from to port (frame_size size vlan) hf ht hp vlan e
          (ground (arith, e)) in
      rw e (rw e at size_of)
]
