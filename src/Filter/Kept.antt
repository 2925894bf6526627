-- ===== src/Filter/Kept.antt =====
-- What WithKeepManagement promises of the program as a whole (filter.go): the host's own traffic reaches
-- the kernel, whatever the matches.
use go_afxdp.Prelude.{ℕ, ◌<◌, ◌≡◌, ◌≢◌, refl, Bool, ◌||◌, List, [], ◌++◌, if◌then◌else◌, All}
use go_afxdp.Ebpf.{Instr, little}
use go_afxdp.Redirect.{Maps, passed}
use go_afxdp.Filter.Match.{Match}
use go_afxdp.Filter.Cidr.{Prefix, management_exceptions}
use go_afxdp.Filter.Program.{code, classifier_blocks}
use go_afxdp.Filter.Classify.{Verdicts, any}
use go_afxdp.Filter.Frame.{Bytes}
use go_afxdp.Filter.Address.{IsPrefix}
use go_afxdp.Filter.Management.{is_management, Catches-append, management_exceptions-Catches}
use go_afxdp.Filter.Tail.{filter_program}
use go_afxdp.Filter.Gate.{gate, filter_program_lem}

-- On a little-endian host, for any frame of bytes, valid local prefixes, 16-bit TCP ports, further
-- exceptions and at least one match, all with their verdicts, where the filter assembles: the program
-- passes the frame to the kernel if it is management traffic or a further exception takes it; else, if a
-- match takes it, sends it where the maps say for its queue; and else passes it.
pub management_kept :
    (frame : List ℕ) (locals : List Prefix) (tcp_ports : List ℕ) (unscoped : Bool)
    (more matches : List Match) (xs ys : List Bool) (is : List Instr) (m : Maps) (q : ℕ)
    → Bytes frame
    → All IsPrefix locals
    → All (λ p. p < 65536) tcp_ports
    → Verdicts little frame more xs
    → Verdicts little frame matches ys
    → matches ≢ []
    → classifier_blocks (management_exceptions little locals tcp_ports unscoped ++ more) matches
      ≡ code is
    → filter_program little m q frame is ≡ (
        if is_management locals tcp_ports unscoped frame || any xs
        then passed
        else if any ys
        then gate m q
        else passed)
management_kept frame locals tcp_ports unscoped more matches xs ys is m q hb vl hp vx vy ne h =
    let keep = management_exceptions little locals tcp_ports unscoped in
    let (zs, v, e) =
      Catches-append frame keep more (is_management locals tcp_ports unscoped frame) (any xs)
        (management_exceptions-Catches frame hb locals vl tcp_ports unscoped hp) (xs, vx, refl) in
    rw (← e) (filter_program_lem little frame m q (keep ++ more) matches zs ys is v vy ne h)
