-- ===== src/Shutdown/Drain.antt =====
-- A socket that closes drains: its methods end, and Close comes to its end.
use go_afxdp.Prelude.{
  ℕ, zero, suc, ◌<◌, ◌≡◌, refl, ap, subst, true, false, List, [], ◌∷◌, ◌++◌, ltb, arith, inl, inr,
  ◌⊎◌, Bool-cases,
}
use go_afxdp.Shutdown.{
  Place, at_rest, checked, counted, undoing, to_poll, polling, Thread, waiting, tearing, finished,
  State, move, add_one, second_load, undo, decref, Proceeds, adds, loads, undoes, returns,
  starts_poll, wakes_up, proceeds, load_ops, tear_down, write_wake, waking, Step, acts, wakes,
  Reach, Unaided, goes, close_wakes, close_waits, close_tears, Drains, drained, on, initial,
}
use go_afxdp.Shutdown.Safety.{Reach-IsConsistent, Idle, initial-IsConsistent}
use go_afxdp.Shutdown.Books.{adds_up, single, share, IsConsistent, Step-IsConsistent}
use go_afxdp.Shutdown.Budget.{budget, Proceeds-Spends, total}

-- ---- Close comes to its end ----

-- One goroutine that has a share of `ops`, in its place among the others.
record Busy (ts : List Thread) : Type 0 where
  before : List Thread
  busy : Thread
  after : List Thread
  place : ts ≡ before ++ (busy ∷ after)
  holds : 0 < share busy

find-Busy : (ts : List Thread) → 0 < adds_up share ts → Busy ts
find-Busy [] h = absurd (omega (arith, h))
find-Busy (t ∷ ts) h = elim (Bool-cases (ltb 0 (share t))) [
  | inl b ↦ record { before = []; busy = t; after = ts; place = refl; holds = ground arith }
  | inr b ↦
      let r = find-Busy ts (ground arith) in
      record {
        before = t ∷ r.before;
        busy = r.busy;
        after = r.after;
        place = ap (λ xs. t ∷ xs) r.place;
        holds = r.holds;
      }
]

-- A goroutine with a share of `ops` can go on by itself once the eventfd is readable.
record Goes (s : State) (t : Thread) : Type 0 where
  ops : ℕ
  t' : Thread
  step : Proceeds s t (move ops t')

backs_off :
    (s : State) (t : Thread)
    → s.closing ≡ true
    → second_load false s.closing s.ops t ≡ move s.ops (record t { place = undoing })
unfolding second_load
backs_off s t h = rw h refl

Goes-on :
    (s : State) (t : Thread) (place : Place)
    → t.place ≡ place
    → s.closing ≡ true
    → s.woken ≡ true
    → 0 < share t
    → Goes s t
unfolding add_one undo decref
Goes-on s t at_rest e h w p = record { ops = _; t' = _; step = returns e (ground (arith, p, e)) }
Goes-on s t checked e h w p = record { ops = _; t' = _; step = adds e }
Goes-on s t counted e h w p = record {
  ops = _;
  t' = _;
  step = subst (Proceeds s t) (backs_off s t h) (loads false e);
}
Goes-on s t undoing e h w p = record { ops = _; t' = _; step = undoes e }
Goes-on s t to_poll e h w p = record { ops = _; t' = _; step = starts_poll e }
Goes-on s t polling e h w p = record { ops = _; t' = _; step = wakes_up e w }

first_on : {s t u : State} → Unaided s t → Drains t u → Drains s u
first_on st drained = on drained st
first_on st (on d st') = on (first_on st d) st'

-- The state after Close, and the steps that lead there without anything from outside: no call of a method,
-- no packet, no timeout, no error of poll(2).
pub record Finishes (s : State) : Type 0 where
  pub last : State
  pub run : Drains s last
  pub done : last.closer ≡ finished
  pub unmapped : last.live ≡ false
  pub out : last.ops ≡ 0

earlier : {s t : State} → Unaided s t → Finishes t → Finishes s
earlier st f = record {
  last = f.last;
  run = first_on st f.run;
  done = f.done;
  unmapped = f.unmapped;
  out = f.out;
}

no_ops : (s : State) → s.closer ≡ waiting → s.ops ≡ 0 → Finishes s
unfolding load_ops tear_down
no_ops s w z =
    let idle : ltb 0 s.ops ≡ false = ground arith in
    let torn : (load_ops s).closer ≡ tearing = rw (load_ops, idle) refl in
    record {
      last = tear_down (load_ops s);
      run = on (on drained (close_waits w refl)) (close_tears torn refl);
      done = refl;
      unmapped = refl;
      out = rw idle z;
    }

drain :
    (fuel : ℕ) (s : State)
    → IsConsistent s
    → s.closer ≡ waiting
    → total s.threads < fuel
    → Finishes s
drain zero s c w h = absurd (omega (arith, h))
drain (suc fuel) s c w h = elim (Bool-cases (ltb 0 s.ops)) [
  | inr b ↦ no_ops s w (ground arith)
  | inl b ↦
      let shut : s.closing ≡ true = ground (arith, c.flag) in
      let r = find-Busy s.threads (ground (arith, c.count)) in
      let g = Goes-on s r.busy r.busy.place refl shut (c.told (rw w refl)) r.holds in
      let st : Step s (record s { ops = g.ops; threads = r.before ++ (g.t' ∷ r.after) }) =
        acts r.before r.busy r.after g.ops g.t' r.place (proceeds g.step) refl in
      earlier (goes r.before r.busy r.after g.ops g.t' r.place g.step refl) (
        drain fuel _ (Step-IsConsistent s _ c st) w (
          omega (
            arith,
            h,
            Proceeds-Spends s r.busy shut g.step,
            ap total r.place,
            single budget r.before r.busy r.after,
            single budget r.before g.t' r.after,
          )))
]

-- Whatever the goroutines are doing when Close has set its flag, before or after it has written to the
-- eventfd, it is never stuck: its own operations and those that the goroutines perform by themselves, with
-- no further call, no packet and no timeout, lead to a state in which `ops` is 0 and Close has torn down
-- and returned.
pub close-Finishes :
    {threads : List Thread} {s : State}
    → Idle threads
    → Reach (initial threads) s
    → (s.closer ≡ waking) ⊎ (s.closer ≡ waiting)
    → Finishes s
unfolding write_wake
close-Finishes {threads} {s} idle run (inr w) =
    drain (suc (total s.threads)) s (Reach-IsConsistent (initial-IsConsistent threads idle) run) w
      (omega arith)
close-Finishes {threads} {s} idle run (inl w) =
    let c = Reach-IsConsistent (initial-IsConsistent threads idle) run in
    earlier (close_wakes w refl) (
      drain (suc (total s.threads)) (write_wake s)
        (Step-IsConsistent s (write_wake s) c (wakes w refl)) refl (omega arith))
