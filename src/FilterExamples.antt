-- ===== src/FilterExamples.antt =====
-- The theorems on the filter at a short UDP frame, tagged and not.
use go_afxdp.Prelude.{ℕ, ◌≡◌, refl, true, false, ◌&&◌, ◌+◌, ◌==◌, leb, List, [], ◌∷◌, arith, none}
use go_afxdp.Ebpf.{octet, little, Regs, other, goto, entry, redirect, exec, Instr}
use go_afxdp.Filter.Match.{match_icmpv6_nd, match_l4_port, l4_port_block, icmpv6_nd_block}
use go_afxdp.Filter.Program.{
  Assembled, code, classifier_blocks, validate_matches, emit_all, emit, check_block, violation,
}
use go_afxdp.Filter.Contract.{tail_calls, WithinContract, check_block-WithinContract}
use go_afxdp.Filter.Classify.{Decides, ready, classifier_blocks_lem}
use go_afxdp.Filter.Frame.{Bytes, base_of, has_ether_type}
use go_afxdp.Filter.Rules.{match_icmpv6_nd-Decides}
use go_afxdp.Filter.Wanted.{l4_wanted}
use go_afxdp.Filter.Ports.{match_l4_port-Decides}

-- An IPv4 UDP packet to port 53.
abbrev frame : List ℕ
frame =
    1 ∷ 2 ∷ 3 ∷ 4 ∷ 5 ∷ 6 ∷ 1 ∷ 2 ∷ 3 ∷ 4 ∷ 5 ∷ 7 ∷ 8 ∷ 0 ∷ 69 ∷ 0 ∷ 0 ∷ 28 ∷ 0 ∷ 0 ∷ 64 ∷ 0 ∷ 64
    ∷ 17 ∷ 0 ∷ 0 ∷ 10 ∷ 0 ∷ 0 ∷ 1 ∷ 10 ∷ 0 ∷ 0 ∷ 2 ∷ 4 ∷ 0 ∷ 0 ∷ 53 ∷ 0 ∷ 8 ∷ 0 ∷ 0 ∷ []

frame-Bytes : Bytes frame
frame-Bytes = grind arith

udp_wanted : l4_wanted 17 false (53 ∷ []) frame ≡ true
udp_wanted = refl

-- The frame is IPv4, and no neighbour discovery.
match_icmpv6_nd-Decides_example : Decides little frame (match_icmpv6_nd little) (
    has_ether_type 55 0x86DD frame
    && ((octet frame (base_of frame + 20) == 58)
        && (leb 133 (octet frame (base_of frame + 54))
            && leb (octet frame (base_of frame + 54)) 137)))
match_icmpv6_nd-Decides_example = match_icmpv6_nd-Decides little frame frame-Bytes

match_l4_port-Decides_example : Decides little frame (match_l4_port little 17 false (53 ∷ [])) true
match_l4_port-Decides_example =
    match_l4_port-Decides little frame 17 false (53 ∷ []) frame-Bytes (omega arith, tt)

abbrev registers : Regs
registers = record {
  v0 = other;
  v1 = other;
  v2 = other;
  v3 = other;
  v4 = other;
  v5 = other;
  v6 = other;
  v7 = other;
  v8 = other;
  v9 = other;
  v10 = other;
}

abbrev instructions : Assembled → List Instr
instructions (code is) = is
instructions _ = []

abbrev filter : Assembled
filter =
    classifier_blocks (match_icmpv6_nd little ∷ []) (match_l4_port little 17 false (53 ∷ []) ∷ [])

accepted : filter ≡ code (instructions filter)
unfolding classifier_blocks validate_matches emit_all emit check_block violation l4_port_block
    icmpv6_nd_block
accepted = refl

classifier_blocks_lem_example :
    (s' : Regs) × (exec little frame (instructions filter) none (ready frame registers)
      ≡ goto (entry redirect) (ready frame s'))
classifier_blocks_lem_example =
    classifier_blocks_lem little frame (match_icmpv6_nd little ∷ [])
      (match_l4_port little 17 false (53 ∷ []) ∷ []) (false ∷ []) (true ∷ []) (instructions filter)
      registers (match_icmpv6_nd-Decides little frame frame-Bytes, tt)
      (match_l4_port-Decides little frame 17 false (53 ∷ []) frame-Bytes (omega arith, tt), tt)
      (λ e. absurd (ground arith)) accepted

checked : check_block 0 (instructions filter) ≡ none
unfolding classifier_blocks validate_matches emit_all emit check_block violation l4_port_block
    icmpv6_nd_block
checked = refl

check_block-WithinContract_example :
    WithinContract
      (tail_calls (instructions filter))
      (ready frame registers)
      (exec little frame (instructions filter) none (ready frame registers))
check_block-WithinContract_example =
    check_block-WithinContract little frame 0 (instructions filter) checked none
      (ready frame registers)
