-- ===== src/RuntimeExamples.antt =====
-- The theorems on shutdown, maps, tuning and fleets at concrete inputs.
use go_afxdp.Prelude.{ℕ, ◌+◌, ◌≡◌, ◌≤◌, refl, true, false, List, [], ◌∷◌, inl}
use go_afxdp.Shutdown.{
  Place, at_rest, checked, counted, polling, to_poll, undoing, Thread, waiting, waking, State,
  fresh_thread, initial, first_load, add_one, second_load, adds, loads, proceeds, calls,
  starts_poll, swap_closing, write_wake, acts, closes, wakes, Reach, here, next, undo, undoes,
}
use go_afxdp.Shutdown.Safety.{Idle, live_in_use}
use go_afxdp.Shutdown.Drain.{Finishes, close-Finishes}
use go_afxdp.Shutdown.Budget.{total, act_count, refused_count, acts_bounded}

-- ---- Shutdown: one goroutine is in Poll, another comes too late ----

abbrev two : List Thread
two = fresh_thread ∷ fresh_thread ∷ []

abbrev at : ℕ → Place → Thread
at n p = record { depth = n; place = p }

abbrev with_threads : ℕ → List Thread → State
with_threads ops ts = record (initial two) { ops = ops; threads = ts }

abbrev in_poll : State
in_poll = with_threads 1 (at 1 polling ∷ fresh_thread ∷ [])

abbrev late : State
late = with_threads 1 (at 1 polling ∷ at 0 checked ∷ [])

enters : Reach (initial two) late
unfolding first_load add_one second_load
enters =
    next
      (next
        (next
          (next
            (next here
              (acts [] fresh_thread (fresh_thread ∷ []) 0 (at 0 checked) refl (calls refl) refl))
            (acts [] (at 0 checked) (fresh_thread ∷ []) 1 (at 0 counted) refl (proceeds (adds refl))
              refl))
          (acts [] (at 0 counted) (fresh_thread ∷ []) 1 (at 1 to_poll) refl
            (proceeds (loads true refl)) refl))
        (acts [] (at 1 to_poll) (fresh_thread ∷ []) 1 (at 1 polling) refl
          (proceeds (starts_poll refl)) refl))
      (acts (at 1 polling ∷ []) fresh_thread [] 1 (at 0 checked) refl (calls refl) refl)

abbrev shut : State
shut = record late { closing = true; closer = waking }

abbrev shut_waiting : State
shut_waiting = record late { closing = true; closer = waiting; woken = true }

shuts : Reach (initial two) shut
unfolding swap_closing
shuts = next enters (closes refl)

shuts_waiting : Reach (initial two) shut_waiting
unfolding write_wake
shuts_waiting = next shuts (wakes refl refl)

backs_out : Reach shut (record shut { threads = at 1 polling ∷ at 0 at_rest ∷ [] })
unfolding add_one second_load undo
backs_out =
    next
      (next
        (next here (
          acts (at 1 polling ∷ []) (at 0 checked) [] 2 (at 0 counted) refl (proceeds (adds refl))
            refl))
        (acts (at 1 polling ∷ []) (at 0 counted) [] 2 (at 0 undoing) refl
          (proceeds (loads false refl)) refl))
      (acts (at 1 polling ∷ []) (at 0 undoing) [] 1 (at 0 at_rest) refl (proceeds (undoes refl))
        refl)

two-Idle : Idle two
two-Idle = (refl, (refl, tt))

live_in_use_example : ◌≡◌ shut_waiting.live true
live_in_use_example =
    live_in_use two-Idle shuts_waiting [] (at 1 polling) (at 0 checked ∷ []) refl refl

close-Finishes_example : Finishes shut
close-Finishes_example = close-Finishes two-Idle shuts (inl refl)

acts_bounded_example :
    act_count backs_out + total (at 1 polling ∷ at 0 at_rest ∷ [])
    ≤ total (at 1 polling ∷ at 0 checked ∷ []) + refused_count backs_out
acts_bounded_example = acts_bounded backs_out refl
