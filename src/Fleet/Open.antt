-- ===== src/Fleet/Open.antt =====
-- fleet.go: `Open` after the options are resolved and the interface is looked up, and `Close`.
use go_afxdp.Prelude.{
  ℕ, ◌+◌, ◌-◌, Bool, true, false, not, ◌&&◌, Option, none, some, List, [], ◌∷◌, ◌++◌, ltb, ◌==◌,
  length, get_elem?, if◌then◌else◌, ℤ, pos, negsuc,
}
use go_afxdp.Options.{Options, with_defaults}
use go_afxdp.Options.Config.{XdpMode, mode_generic, Config}
use go_afxdp.Ebpf.{Endian}
use go_afxdp.Filter.Match.{Match}
use go_afxdp.Filter.Program.{is_nil}
use go_afxdp.Filter.Cidr.{management_exceptions}
use go_afxdp.Fleet.Locals.{Locals, unknown, too_many, known}
use mathlib.Core.Option
use go_afxdp.Program
use go_afxdp.Program.{Program, Attached, Removal, Closing, unregister, attach, detach, first_error}
use go_afxdp.Tuning.{NapiTuning, apply_napi_tuning, restore}
use go_afxdp.Fleet.{
  Host, Xsk, Fleet, ModeGroup, drv_mode, mode_groups, FleetError, no_filter, too_many_addresses,
  no_mode, errno, BuiltProgram, Bound, made, unmade, build_program, Kernel, close_socket, bound,
  unbound, try_binds,
}

-- ---- Open ----

abbrev pub is_generic : XdpMode → Bool
is_generic mode_generic = true
is_generic _ = false

-- The options of the sockets: page-sized frames on ENA unless the caller chose, or forced generic mode.
unfoldable pub base_options : Config → Bool → Options
base_options cfg ena =
    let base = with_defaults (some cfg.opts) in
    if (cfg.opts.frame_size == 0) && not (is_generic cfg.mode) && ena
    then record base { frame_size = 4096 }
    else base

unfoldable pub queue_count : Config → ℕ → ℕ
queue_count cfg total = if ltb 0 cfg.queues && ltb cfg.queues total then cfg.queues else total

-- The rules for the management traffic: for any destination where the addresses are unknown; none where
-- there are too many addresses, which is an error.
unfoldable pub management : Endian → List ℕ → Locals → Option (List Match)
management host ports unknown = some (management_exceptions host [] ports true)
management host ports too_many = none
management host ports (known locals) = some (management_exceptions host locals ports false)

unfoldable pub exceptions_of : Endian → Config → Locals → Option (List Match)
exceptions_of host cfg locals =
    if cfg.keep_management
    then Option.map (λ ms. ms ++ cfg.except) (management host cfg.mgmt_tcp_ports locals)
    else some cfg.except

abbrev default_napi_defer_hard_irqs : ℕ
default_napi_defer_hard_irqs = 2

-- 200 microseconds, in nanoseconds
abbrev default_gro_flush_timeout : ℕ
default_gro_flush_timeout = 200000

-- The tuning of a new fleet: in native mode only, and not where the caller will have none.
unfoldable pub tune_fleet : Config → ℕ → ℕ → Kernel → Host → Host × Option NapiTuning
tune_fleet cfg ifindex flags k h =
    let defers =
      if ltb 0 cfg.napi_flush then cfg.napi_defer_irqs else default_napi_defer_hard_irqs in
    let flush = if ltb 0 cfg.napi_flush then cfg.napi_flush else default_gro_flush_timeout in
    let (t, tuning) = apply_napi_tuning h.tuning ifindex defers flush k.sysfs in
    if not cfg.no_auto_tune && (flags == drv_mode)
    then (record h { tuning = t }, tuning)
    else (h, none)

pub data Opening : Type 0 where
  opened : Host → Fleet → Opening
  failed : Host → FleetError → Opening

abbrev unload : Host → Host
unload h = record h { programs = h.programs - 1 }

-- `prog.Close()`, which a program without a link does not detach.
abbrev pub drop_program : Kernel → ℕ → Program → Host → Host
drop_program k flags p h =
    let (p', a, e) = Program.close p h.attached (k.closing flags) in
    unload (record h { attached = a })

-- `prog.Detach(ifindex); prog.Close()`
abbrev pub detach_program : Kernel → ℕ → Program → Host → Host
detach_program k flags p h =
    let (p', a, e) = detach p h.attached (k.closes_link flags) (k.detaching flags) in
    drop_program k flags p' (record h { attached = a })

-- The end of an Open that has bound its sockets.
abbrev pub new_fleet : Config → Options → ℕ → Kernel → ℕ → Host → Program → ℕ → List Xsk → Opening
new_fleet cfg base ifindex k flags h p bind_flags socks =
    let (h', tuning) = tune_fleet cfg ifindex flags k h in
    opened h' (record {
      ifindex = ifindex;
      opts = record base { bind_flags = bind_flags; xdp_flags = flags };
      program = some p;
      sockets = socks;
      tuning = tuning;
    })

abbrev pub with_attached : Host → Attached → Host
with_attached h a = record h { attached = a }

abbrev pub after_build : (FleetError → Opening) → (Program → Opening) → BuiltProgram → Opening
after_build stop on (unmade e) = stop e
after_build stop on (made p) = on p

abbrev pub after_attach :
    (Program → Attached → ℕ → Opening)
    → (Program → Attached → Opening)
    → Program × Attached × Option ℕ
    → Opening
after_attach retry on (p, a, some c) = retry p a c
after_attach retry on (p, a, none) = on p a

abbrev pub after_binds :
    (Host → Program → Opening) → (Host → Program → ℕ → List Xsk → Opening) → Bound → Opening
after_binds retry on (bound h p bind_flags socks) = on h p bind_flags socks
after_binds retry on (unbound h p) = retry h p

-- The loop over the mode groups, with the last error. Where an error is dropped for a later one, it counts
-- as `no_mode`.
unfoldable pub try_groups :
    Config → Options → ℕ → ℕ → List Match → Kernel → List ModeGroup → Host → FleetError → Opening
try_groups cfg base ifindex n exceptions k [] h e = failed h e
try_groups cfg base ifindex n exceptions k (g ∷ gs) h e =
    let flags = g.xdp_flags in
    let loaded = record h { programs = h.programs + 1 } in
    let retry =
      λ (h' : Host) (e' : FleetError). try_groups cfg base ifindex n exceptions k gs h' e' in
    after_build (λ e'. failed h e')
      (λ p.
        after_attach (λ p' a c. retry (drop_program k flags p' (with_attached loaded a)) (errno c))
          (λ p' a.
            after_binds (λ h' q. retry (detach_program k flags q h') no_mode)
              (λ h' q bind_flags socks. new_fleet cfg base ifindex k flags h' q bind_flags socks)
              (try_binds k flags base.bind_flags n g.bind_flags (with_attached loaded a) p'))
          (attach p loaded.attached flags (k.removal flags) (k.linking flags)))
      (build_program n exceptions cfg.matches (k.loads flags))

abbrev pub after_exceptions : Opening → (List Match → Opening) → Option (List Match) → Opening
after_exceptions stop on none = stop
after_exceptions stop on (some exceptions) = on exceptions

-- `Open`, from the resolved options on: whether the driver is ENA, the index of the interface, the number of
-- its queues, and its addresses, each as the system tells them.
unfoldable pub open_fleet : Endian → Config → Bool → ℕ → ℕ → Locals → Kernel → Host → Opening
open_fleet host cfg ena ifindex total locals k h =
    if is_nil cfg.matches
    then failed h no_filter
    else after_exceptions (failed h too_many_addresses)
        (λ exceptions.
          try_groups cfg (base_options cfg ena) ifindex (queue_count cfg total) exceptions k
            (mode_groups cfg.mode) h no_mode)
        (exceptions_of host cfg locals)

-- ---- the open fleet ----

-- `Socket`: none is nil.
unfoldable pub socket : Fleet → ℤ → Option Xsk
socket f (negsuc n) = none
socket f (pos n) = get_elem? f.sockets n

abbrev pub num_queues : Fleet → ℕ
num_queues f = length f.sockets

-- The answers to the calls of `Close`: for each queue, to the two changes of the maps and to the closing of
-- the socket; to the detaching; to the closing of the program; to the writes of the tuning.
pub record Ending : Type 0 where
  pub puts_queue : ℕ → Option ℕ
  pub deletes : ℕ → Option ℕ
  pub closes_socket : ℕ → Option ℕ
  pub closes_link : Option ℕ
  pub detaching : Removal
  pub closing : Closing
  pub writes_defer : Option ℕ
  pub writes_gro : Option ℕ

abbrev pub unregister_from : Option Program → ℕ → Ending → Option Program × Option ℕ
unregister_from none q k = (none, none)
unregister_from (some p) q k =
    let (p', e) = unregister p q (k.puts_queue q) (k.deletes q) in (some p', e)

-- The loop over the sockets, with the first error so far.
unfoldable pub close_sockets :
    Ending → ℕ → List Xsk → Host → Option Program → Option ℕ → Host × Option Program × Option ℕ
close_sockets k q [] h p e = (h, p, e)
close_sockets k q (x ∷ xs) h p e =
    let (p', e1) = unregister_from p q k in
    close_sockets k (q + 1) xs (close_socket x.queue h) p'
      (first_error (first_error e e1) (k.closes_socket q))

abbrev pub end_program : Ending → Host → Option Program → Option ℕ → Host × Option ℕ
end_program k h none e = (h, e)
end_program k h (some p) e =
    let (p1, a1, e1) = detach p h.attached k.closes_link k.detaching in
    let (p2, a2, e2) = Program.close p1 a1 k.closing in
    (unload (record h { attached = a2 }), first_error (first_error e e1) e2)

-- `Close`: the host, the fleet, which has nothing any more, and the first error.
unfoldable pub close_fleet : Ending → Host → Fleet → Host × Fleet × Option ℕ
close_fleet k h f =
    let (h1, p1, e1) = close_sockets k 0 f.sockets h f.program none in
    let (h2, e2) = end_program k h1 p1 e1 in
    (
      record h2 { tuning = restore h2.tuning f.tuning k.writes_defer k.writes_gro },
      record f { program = none; sockets = []; tuning = none },
      e2,
    )

-- ---- WaitLinkUp ----

-- The readings of the link, one every 200 ms until the deadline; `up` counts those in a row that were up.
unfoldable pub wait_link_up : ℕ → List Bool → Bool
wait_link_up up [] = false
wait_link_up up (true ∷ readings) =
    let rest = wait_link_up (up + 1) readings in if ltb 4 (up + 1) then true else rest
wait_link_up up (false ∷ readings) = wait_link_up 0 readings
