-- ===== src/GateExamples.antt =====
-- The theorems on addresses, local ports, management traffic and the whole filter program, at an SSH
-- packet to 10.0.0.2 on a host that has this address.
use go_afxdp.Prelude.{
  ℕ, ◌≡◌, refl, true, false, List, [], ◌∷◌, ◌++◌, some, none, arith, if◌then◌else◌, ◌==◌,
}
use go_afxdp.Ebpf.{little, Instr}
use go_afxdp.Redirect.{Maps, passed}
use go_afxdp.Filter.Match.{
  match_all, match_tcp_port, match_icmpv6_nd, icmpv6_nd_block, ether_type_block, l4_port_block,
}
use go_afxdp.Filter.Cidr.{
  Prefix, match_flow, match_local_port, management_exceptions, local_port_block,
}
use go_afxdp.Filter.Program.{
  Assembled, code, classifier_blocks, validate_matches, emit_all, emit, check_block, violation,
}
use go_afxdp.Filter.Classify.{Decides}
use go_afxdp.Filter.Frame.{Bytes}
use go_afxdp.Filter.Rules.{match_all-Decides, match_icmpv6_nd-Decides}
use go_afxdp.Filter.Ports.{match_l4_port-Decides}
use go_afxdp.Filter.Address.{IsPrefix}
use go_afxdp.Filter.Hosts.{match_flow-Decides}
use go_afxdp.Filter.Local.{match_local_port-Decides}
use go_afxdp.Filter.Tail.{filter_program}
use go_afxdp.Filter.Gate.{gate, filter_program_lem}
use go_afxdp.Filter.Kept.{management_kept}
use go_afxdp.Load.{Answers, new_filter_program}
use go_afxdp.Load.Tidy.{Tidy, Asked, new_filter_program-Tidy}

abbrev frame : List ℕ
frame =
    1 ∷ 2 ∷ 3 ∷ 4 ∷ 5 ∷ 6 ∷ 1 ∷ 2 ∷ 3 ∷ 4 ∷ 5 ∷ 7 ∷ 8 ∷ 0 ∷ 69 ∷ 0 ∷ 0 ∷ 40 ∷ 0 ∷ 0 ∷ 64 ∷ 0 ∷ 64
    ∷ 6 ∷ 0 ∷ 0 ∷ 10 ∷ 0 ∷ 0 ∷ 1 ∷ 10 ∷ 0 ∷ 0 ∷ 2 ∷ 200 ∷ 0 ∷ 0 ∷ 22 ∷ 0 ∷ 0 ∷ 0 ∷ 0 ∷ []

frame-Bytes : Bytes frame
frame-Bytes = grind arith

-- 10.0.0.0/8 and 10.0.0.2/32
abbrev net : Prefix
net = record { is4 = true; addr = 10 ∷ 0 ∷ 0 ∷ 0 ∷ []; bits = 8 }

abbrev host : Prefix
host = record { is4 = true; addr = 10 ∷ 0 ∷ 0 ∷ 2 ∷ []; bits = 32 }

net-IsPrefix : IsPrefix net
net-IsPrefix = record { size = refl; octets = omega arith }

host-IsPrefix : IsPrefix host
host-IsPrefix = record { size = refl; octets = omega arith }

match_flow-Decides_example : Decides little frame (match_flow little (some net) (some host)) true
match_flow-Decides_example =
    match_flow-Decides frame frame-Bytes net host net-IsPrefix host-IsPrefix refl

match_local_port-Decides_example :
    Decides little frame (match_local_port little 6 false 22 (some host) true) true
match_local_port-Decides_example =
    match_local_port-Decides frame frame-Bytes 6 false 22 (some host) true (host-IsPrefix, refl)
      (omega arith)

abbrev maps : Maps
maps = record { max_entries = 2; qidconf = λ q. if q == 0 then 1 else 0; xsks = λ q. some 9 }

abbrev instructions : Assembled → List Instr
instructions (code is) = is
instructions _ = []

abbrev filter : Assembled
filter = classifier_blocks (match_icmpv6_nd little ∷ []) (match_tcp_port little (22 ∷ []) ∷ [])

accepted : filter ≡ code (instructions filter)
unfolding classifier_blocks validate_matches emit_all emit check_block violation l4_port_block
    icmpv6_nd_block
accepted = refl

filter_program_lem_example : filter_program little maps 0 frame (instructions filter) ≡ gate maps 0
filter_program_lem_example =
    filter_program_lem little frame maps 0 (match_icmpv6_nd little ∷ [])
      (match_tcp_port little (22 ∷ []) ∷ []) (false ∷ []) (true ∷ []) (instructions filter)
      (match_icmpv6_nd-Decides little frame frame-Bytes, tt)
      (match_l4_port-Decides little frame 6 false (22 ∷ []) frame-Bytes (omega arith, tt), tt)
      (λ e. absurd (ground arith)) accepted

abbrev kept : Assembled
kept =
    classifier_blocks (management_exceptions little (host ∷ []) (22 ∷ []) false ++ [])
      (match_all ∷ [])

kept_accepted : kept ≡ code (instructions kept)
unfolding classifier_blocks validate_matches emit_all emit check_block violation
    management_exceptions local_port_block icmpv6_nd_block ether_type_block
kept_accepted = refl

management_kept_example : filter_program little maps 0 frame (instructions kept) ≡ passed
management_kept_example =
    management_kept frame (host ∷ []) (22 ∷ []) false [] (match_all ∷ []) [] (true ∷ [])
      (instructions kept) maps 0 frame-Bytes (host-IsPrefix, tt) (omega arith, tt) tt
      (match_all-Decides little frame, tt) (λ e. absurd (ground arith)) kept_accepted

-- The kernel refuses the second map.
abbrev answers : Answers
answers = record { qidconf = none; xsks = some 12; load = none }

new_filter_program-Tidy_example :
    Tidy (Asked [] (match_all ∷ [])) 4 true (new_filter_program 4 [] (match_all ∷ []) true answers)
new_filter_program-Tidy_example = new_filter_program-Tidy 4 [] (match_all ∷ []) true answers
