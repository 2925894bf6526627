-- ===== src/FleetExamples.antt =====
-- The theorems on the redirect program, tuning and fleets at concrete inputs.
use go_afxdp.Prelude.{ℕ, ◌+◌, ◌≡◌, refl, false, none, some, List, [], ◌∷◌, if◌then◌else◌, ◌==◌}
use go_afxdp.Redirect.{Maps}
use go_afxdp.Program
use go_afxdp.Program.{removes, linked, Closing}
use go_afxdp.Filter.Program.{
  program_blocks, classifier_blocks, validate_matches, emit_all, emit, check_block, violation,
}
use go_afxdp.Filter.Emit.{with_entry}
use go_afxdp.Options.{with_defaults}
use go_afxdp.Program.Routes.{Call, registers, unregisters}
use go_afxdp.Tuning.{Settings}
use go_afxdp.Tuning
use go_afxdp.Tuning.Restore.{untouched, settings_restored}
use go_afxdp.Tuning.Fleets.{opens, closes, Event, event, events}
use go_afxdp.Ebpf.{little}
use go_afxdp.Filter.Match.{match_all}
use go_afxdp.Options.Config.{Config, with_filter, with_queues, with_need_wakeup, new_config}
use go_afxdp.Fleet.{
  Host, Fleet, Kernel, mode_groups, build_program, register_sockets, try_binds, close_all,
}
use go_afxdp.Fleet.Locals.{unknown}
use go_afxdp.Fleet.Open.{
  Opening, opened, failed, open_fleet, try_groups, queue_count, base_options, exceptions_of,
  tune_fleet, Ending, close_fleet,
}
use go_afxdp.Socket.{no_counts, closed}
use go_afxdp.Socket.Stats.{Stats, StatsResult, sampled, unsampled}
use go_afxdp.Info.{fleet_stats}
use go_afxdp.Info.Sums.{IsSum, fleet_stats-IsSum}
use go_afxdp.Fleet.Lifetime.{open_fleet-Outcome}
use go_afxdp.Fleet.Attach.{Outcome}
use go_afxdp.Fleet.Ending.{Released, open_fleet-close_fleet}

-- ---- Program ----

abbrev maps : Maps
maps = record { max_entries = 2; qidconf = λ q. if q == 0 then 1 else 0; xsks = λ q. some (q + 7) }

-- The second registration fails half way, and the first queue is taken off again.
abbrev calls : List Call
calls = registers 0 7 none none ∷ registers 1 8 none (some 22) ∷ unregisters 0 none none ∷ []

-- ---- Tuning ----

abbrev settings : ℕ → Settings
settings _ = record { defer = 0; gro = 0 }

abbrev all_works : Tuning.Answers
all_works = record {
  reads_defer = none;
  reads_gro = none;
  writes_defer = none;
  writes_gro = none;
  writes_back = none;
}

-- Two fleets on the interface 3 open and close, in the order of their opening.
abbrev two_fleets : List Event
two_fleets =
    opens 3 2 200000 all_works
    ∷ opens 3 9 500000 all_works
    ∷ closes 3 none none
    ∷ closes 3 none none
    ∷ []

settings_restored_example : (events (untouched settings) two_fleets).state.files 3 ≡ settings 3
unfolding events event Tuning.apply_napi_tuning Tuning.restore
settings_restored_example =
    settings_restored settings two_fleets 3 (refl, (refl, ((refl, refl), ((refl, refl), tt)))) refl

-- ---- Fleets ----

abbrev config : Config
config = new_config (with_filter (match_all ∷ []) ∷ with_queues 2 ∷ with_need_wakeup ∷ [])

abbrev host : Host
host = record {
  attached = none;
  programs = 0;
  sockets = λ _. 0;
  tuning = record { files = settings; refs = λ _. none };
}

abbrev closing : Closing
closing = record {
  closes_link = none;
  closes_sockets = none;
  closes_queues = none;
  closes_program = none;
}

-- Native zero-copy binding is refused on the second queue, native copying works.
abbrev kernel : Kernel
kernel = record {
  loads = λ _. none;
  removal = λ _. removes;
  linking = λ _. linked;
  closes_link = λ _. none;
  detaching = λ _. removes;
  closing = λ _. closing;
  new_socket = λ a q. if q == 1 then (if a.bind_flags == 12 then some 95 else none) else none;
  fd = λ a q. q + 10;
  puts_socket = λ _ _. none;
  puts_queue = λ _ _. none;
  sysfs = all_works;
}

open_fleet-Outcome_example :
    Outcome all_works 3
      (queue_count config 4)
      host
      (open_fleet little config false 3 4 unknown kernel host)
open_fleet-Outcome_example =
    open_fleet-Outcome little config false 3 4 unknown kernel host (λ _. refl)

abbrev ending : Ending
ending = record {
  puts_queue = λ _. none;
  deletes = λ _. some 2;
  closes_socket = λ _. none;
  closes_link = none;
  detaching = removes;
  closing = closing;
  writes_defer = none;
  writes_gro = none;
}

abbrev host_of : Opening → Host
host_of (opened h f) = h
host_of (failed h e) = h

abbrev no_fleet : Fleet
no_fleet = record { ifindex = 0; opts = (config).opts; program = none; sockets = []; tuning = none }

abbrev fleet_of : Opening → Fleet
fleet_of (opened h f) = f
fleet_of (failed h e) = no_fleet

abbrev opening : Opening
opening = open_fleet little config false 3 4 unknown kernel host

opening-opened : opening ≡ opened (host_of opening) (fleet_of opening)
unfolding open_fleet try_groups mode_groups build_program program_blocks classifier_blocks
    validate_matches emit_all emit check_block register_sockets try_binds Program.attach
    Program.remove_program Program.register close_all queue_count tune_fleet new_config
    exceptions_of with_entry violation base_options with_defaults
opening-opened = refl

open_fleet-close_fleet_example :
    Released settings
      (λ _. 0)
      host
      (close_fleet ending (host_of opening) (fleet_of opening)).0
      (close_fleet ending (host_of opening) (fleet_of opening)).1
open_fleet-close_fleet_example =
    open_fleet-close_fleet little config false 3 4 unknown kernel host ending settings (λ _. 0)
      (λ _. refl) refl refl refl refl (λ i. (refl, refl)) (host_of opening) (fleet_of opening)
      opening-opened

-- ---- Statistics: the second queue's socket is closed ----

abbrev first_queue : Stats
first_queue = record {
  filled = 7;
  received = 18446744073709551615;
  transmitted = 3;
  completed = 3;
  counters = no_counts;
  kernel_stats = record {
    rx_dropped = 1;
    rx_invalid_descs = 0;
    tx_invalid_descs = 0;
    rx_ring_full = 2;
    rx_fill_ring_empty_descs = 0;
    tx_ring_empty_descs = 0;
  };
}

abbrev results : List StatsResult
results = sampled first_queue ∷ sampled first_queue ∷ unsampled closed ∷ sampled first_queue ∷ []

fleet_stats-IsSum_example :
    let (fs, e) = fleet_stats no_fleet results in
    IsSum fs × (fs.per_queue ≡ first_queue ∷ first_queue ∷ []) × (e ≡ some (2, closed))
fleet_stats-IsSum_example = fleet_stats-IsSum no_fleet results
