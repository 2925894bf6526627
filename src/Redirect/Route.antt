-- ===== src/Redirect/Route.antt =====
-- Where the redirect program sends a frame.
use go_afxdp.Prelude.{ℕ, Option, none, some, ltb, ◌==◌, if◌then◌else◌, List, [], ◌∷◌, take, drop}
use go_afxdp.Redirect.{
  Maps, Verdict, aborted, passed, redirected, raw_exec, RawIns, RawState, RawVal, value, raw_step,
  entry_state, set_reg, redirect_to, redirect_program,
}

-- The contract: beyond the maps, and on an enabled queue without a socket, the frame is dropped; on a queue
-- that is not enabled the kernel gets it; else the queue's socket does.
abbrev pub to_socket : Option ℕ → Verdict
to_socket none = aborted
to_socket (some fd) = redirected fd

unfoldable pub route : Maps → ℕ → Verdict
route m q =
    if ltb q m.max_entries
    then (if m.qidconf q == 0 then passed else to_socket (m.xsks q))
    else aborted

-- The state when the instructions before the first call, and before the second, have run.
abbrev steps : Maps → ℕ → List RawIns → RawState → RawState
steps m q [] s = s
steps m q (i ∷ is) s = steps m q is (raw_step m q i s)

abbrev looked_up : Maps → ℕ → RawVal → RawState
looked_up m q v = set_reg 0 v (steps m q (take 5 redirect_program) entry_state)

unfoldable after_lookup : Maps → ℕ → RawVal → Verdict
after_lookup m q v = raw_exec m q (drop 6 redirect_program) 0 (looked_up m q v)

unfoldable after_redirect : Maps → ℕ → ℕ → Option ℕ → Verdict
after_redirect m q n fd =
    raw_exec m q (drop 16 redirect_program) 0
      (redirect_to fd (steps m q (take 9 (drop 6 redirect_program)) (looked_up m q (value n))))
