-- ===== src/PacketExamples.antt =====
-- The theorems on custom matches and on the packets of the examples, at concrete inputs.
use go_afxdp.Prelude.{ℕ, ◌≡◌, refl, true, false, List, [], ◌∷◌, ◌++◌, arith}
use go_afxdp.Ebpf.{little, big}
use go_afxdp.Filter.Classify.{Decides}
use go_afxdp.Filter.Frame.{Bytes, be16}
use go_afxdp.Filter.Wanted.{l4_wanted}
use go_afxdp.Custom.{match_gre_key, match_vxlan}
use go_afxdp.Custom.Decisions.{match_gre_key-Decides, match_vxlan-Decides}
use go_afxdp.Packets.{build_frame, build_reply, reflect}
use go_afxdp.Packets.Build.{Ip, Mac, ip_bytes, mac_bytes, IsSent, build_frame-IsSent}
use go_afxdp.Packets.Reply.{IsReply, build_reply-IsReply}
use go_afxdp.Packets.Reflect.{Turned, reflect-Turned}

-- A GRE packet with the key 42, in a frame with a VLAN tag.
abbrev gre : List ℕ
gre =
    1 ∷ 2 ∷ 3 ∷ 4 ∷ 5 ∷ 6 ∷ 1 ∷ 2 ∷ 3 ∷ 4 ∷ 5 ∷ 7 ∷ 0x81 ∷ 0 ∷ 0 ∷ 9 ∷ 8 ∷ 0 ∷ 69 ∷ 0 ∷ 0 ∷ 28 ∷ 0
    ∷ 0 ∷ 0 ∷ 0 ∷ 64 ∷ 47 ∷ 0 ∷ 0 ∷ 10 ∷ 0 ∷ 0 ∷ 1 ∷ 10 ∷ 0 ∷ 0 ∷ 2 ∷ 0x20 ∷ 0 ∷ 8 ∷ 0 ∷ 0 ∷ 0 ∷ 0
    ∷ 42 ∷ []

gre-Bytes : Bytes gre
gre-Bytes = grind arith

match_gre_key-Decides_example : Decides big gre (match_gre_key big 42) true
match_gre_key-Decides_example = match_gre_key-Decides big gre gre-Bytes 42 (omega arith)

-- A VXLAN packet of network 0x010203.
abbrev vxlan : List ℕ
vxlan =
    1 ∷ 2 ∷ 3 ∷ 4 ∷ 5 ∷ 6 ∷ 1 ∷ 2 ∷ 3 ∷ 4 ∷ 5 ∷ 7 ∷ 8 ∷ 0 ∷ 69 ∷ 0 ∷ 0 ∷ 36 ∷ 0 ∷ 0 ∷ 0 ∷ 0 ∷ 64
    ∷ 17 ∷ 0 ∷ 0 ∷ 10 ∷ 0 ∷ 0 ∷ 1 ∷ 10 ∷ 0 ∷ 0 ∷ 2 ∷ 4 ∷ 0 ∷ 18 ∷ 181 ∷ 0 ∷ 16 ∷ 0 ∷ 0 ∷ 8 ∷ 0 ∷ 0
    ∷ 0 ∷ 1 ∷ 2 ∷ 3 ∷ 0 ∷ []

vxlan-Bytes : Bytes vxlan
vxlan-Bytes = grind arith

match_vxlan-Decides_example : Decides little vxlan (match_vxlan little 0x010203) true
match_vxlan-Decides_example = match_vxlan-Decides vxlan 0x010203 vxlan-Bytes (omega arith)

abbrev near : Mac
near = record { m0 = 2; m1 = 0; m2 = 0; m3 = 0; m4 = 0; m5 = 1 }

abbrev far : Mac
far = record { m0 = 2; m1 = 0; m2 = 0; m3 = 0; m4 = 0; m5 = 2 }

abbrev from : Ip
from = record { i0 = 10; i1 = 0; i2 = 0; i3 = 1 }

abbrev to : Ip
to = record { i0 = 10; i1 = 0; i2 = 0; i3 = 2 }

build_frame-IsSent_example :
    IsSent
      (build_frame (mac_bytes near) (mac_bytes far) (ip_bytes from) (ip_bytes to) 9 64 7).0
      64
      18
      (build_frame (mac_bytes near) (mac_bytes far) (ip_bytes from) (ip_bytes to) 9 64 7).1
      9
build_frame-IsSent_example =
    build_frame-IsSent near far from to 9 64 7 (omega arith) (omega arith) (omega arith)

-- A UDP packet to port 53, without its payload.
abbrev query : List ℕ
query =
    2 ∷ 0 ∷ 0 ∷ 0 ∷ 0 ∷ 1 ∷ 2 ∷ 0 ∷ 0 ∷ 0 ∷ 0 ∷ 2 ∷ 8 ∷ 0 ∷ 69 ∷ 0 ∷ 0 ∷ 28 ∷ 0 ∷ 0 ∷ 0 ∷ 0 ∷ 64
    ∷ 17 ∷ 0 ∷ 0 ∷ 10 ∷ 0 ∷ 0 ∷ 1 ∷ 10 ∷ 0 ∷ 0 ∷ 2 ∷ 200 ∷ 0 ∷ 0 ∷ 53 ∷ 0 ∷ 8 ∷ 0 ∷ 0 ∷ []

query-Bytes : Bytes query
query-Bytes = grind arith

build_reply-IsReply_example :
    IsReply query (1 ∷ 2 ∷ []) (query ++ query) (build_reply query (1 ∷ 2 ∷ []) (query ++ query)).0
    × ((build_reply query (1 ∷ 2 ∷ []) (query ++ query)).1 ≡ 44)
build_reply-IsReply_example =
    build_reply-IsReply query (1 ∷ 2 ∷ []) (query ++ query) refl query-Bytes (omega arith)

reflect-Turned_example :
    Turned query (reflect query)
    × ((p : ℕ)
        → be16 query 12 ≡ 0x0800
        → l4_wanted 17 true (p ∷ []) (reflect query) ≡ l4_wanted 17 false (p ∷ []) query)
reflect-Turned_example = reflect-Turned query (omega arith)
