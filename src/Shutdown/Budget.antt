-- ===== src/Shutdown/Budget.antt =====
-- Once a socket closes, its goroutines have a bounded number of operations left.
use go_afxdp.Prelude.{
  ℕ, suc, ◌+◌, ◌*◌, ◌<◌, ◌≤◌, ◌≡◌, refl, ap, ◌∙◌, true, List, ltb, arith, inl, inr, Bool-cases,
}
use go_afxdp.Shutdown.{
  Place, at_rest, checked, counted, undoing, to_poll, polling, Thread, State, Move, stay, move,
  first_load, add_one, second_load, undo, decref, Proceeds, adds, loads, undoes, returns,
  starts_poll, wakes_up, Acts, proceeds, calls, polled, swap_closing, write_wake, load_ops,
  tear_down, Step, acts, turned_away, spawns, closes, wakes, waits, tears, Reach, here, next,
}
use go_afxdp.Shutdown.Books.{adds_up, single}

-- How many operations a goroutine still has before it is out of all methods, when it may enter no other:
-- at most three for a method that polls and eight for the methods around it.
abbrev rest : Place → ℕ
rest at_rest = 0
rest checked = 3
rest counted = 2
rest undoing = 1
rest to_poll = 2
rest polling = 1

abbrev pub budget : Thread → ℕ
budget t = 8 * t.depth + rest t.place

-- The operations of goroutines in a run, those of Close left out; and those among them that only find that
-- the socket has closed, one for each call of a method on it.
unfoldable pub act_count : {s u : State} → Reach s u → ℕ
act_count here = 0
act_count (next r (acts _ _ _ _ _ _ _ _)) = suc (act_count r)
act_count (next r (turned_away _ _ _ _ _ _)) = suc (act_count r)
act_count (next r _) = act_count r

unfoldable pub refused_count : {s u : State} → Reach s u → ℕ
refused_count here = 0
refused_count (next r (turned_away _ _ _ _ _ _)) = suc (refused_count r)
refused_count (next r _) = refused_count r

-- What is left of a goroutine's operations after one on a closing socket.
abbrev Spends : Thread → Move → Type 0
Spends t stay = Unit
Spends t (move ops t') = budget t' < budget t

pub Proceeds-Spends :
    (s : State) (t : Thread) {m : Move} → s.closing ≡ true → Proceeds s t m → Spends t m
unfolding add_one undo decref second_load
Proceeds-Spends s t h (adds p) = ground arith
Proceeds-Spends s t h (loads polls p) = rw h (ground arith)
Proceeds-Spends s t h (undoes p) = ground arith
Proceeds-Spends s t h (returns p d) = ground arith
Proceeds-Spends s t h (starts_poll p) = ground arith
Proceeds-Spends s t h (wakes_up p w) = ground arith

Acts-Spends : (s : State) (t : Thread) {m : Move} → s.closing ≡ true → Acts s t m → Spends t m
unfolding first_load
Acts-Spends s t h (proceeds a) = Proceeds-Spends s t h a
Acts-Spends s t h (calls p) = rw h tt
Acts-Spends s t h (polled p) = ground arith

abbrev pub total : List Thread → ℕ
total = adds_up budget

-- A step on a closing socket leaves it closing, and its goroutines no more budget than they had: an
-- operation of one of them takes some.
abbrev cost : {s u : State} → Step s u → ℕ
cost (acts _ _ _ _ _ _ _ _) = 1
cost _ = 0

abbrev refusal : {s u : State} → Step s u → ℕ
refusal (turned_away _ _ _ _ _ _) = 1
refusal _ = 0

load_ops_keeps :
    (s : State) → ((load_ops s).closing ≡ s.closing) × ((load_ops s).threads ≡ s.threads)
unfolding load_ops
load_ops_keeps s = elim (Bool-cases (ltb 0 s.ops)) [
  | inl b ↦ rw b (refl, refl)
  | inr b ↦ rw b (refl, refl)
]

Step-spends :
    (s u : State) (st : Step s u)
    → s.closing ≡ true
    → (u.closing ≡ true) × (cost st + total u.threads ≤ total s.threads)
unfolding swap_closing write_wake tear_down
Step-spends s u (acts before t after ops t' e a q) h = (
  ap (λ x. x.closing) q ∙ h,
  omega (
    arith,
    Acts-Spends s t h a,
    ap total e,
    single budget before t after,
    single budget before t' after,
    ap (λ x. total x.threads) q,
  ),
)
Step-spends s u (turned_away before t after e a q) h =
    (ap (λ x. x.closing) q ∙ h, omega (arith, ap (λ x. total x.threads) q))
Step-spends s u (spawns q) h =
    (ap (λ x. x.closing) q ∙ h, omega (arith, ap (λ x. total x.threads) q))
Step-spends s u (closes q) h = (ap (λ x. x.closing) q, omega (arith, ap (λ x. total x.threads) q))
Step-spends s u (wakes w q) h =
    (ap (λ x. x.closing) q ∙ h, omega (arith, ap (λ x. total x.threads) q))
Step-spends s u (waits w q) h = (
  ap (λ x. x.closing) q ∙ (load_ops_keeps s).0 ∙ h,
  omega (arith, ap (λ x. total x.threads) q ∙ ap total (load_ops_keeps s).1),
)
Step-spends s u (tears w q) h =
    (ap (λ x. x.closing) q ∙ h, omega (arith, ap (λ x. total x.threads) q))

act_count-next :
    {s t u : State} (r : Reach s t) (st : Step t u)
    → act_count (next r st) ≡ cost st + refusal st + act_count r
unfolding act_count
act_count-next r (acts _ _ _ _ _ _ _ _) = omega arith
act_count-next r (turned_away _ _ _ _ _ _) = omega arith
act_count-next r (spawns _) = omega arith
act_count-next r (closes _) = omega arith
act_count-next r (wakes _ _) = omega arith
act_count-next r (waits _ _) = omega arith
act_count-next r (tears _ _) = omega arith

refused_count-next :
    {s t u : State} (r : Reach s t) (st : Step t u)
    → refused_count (next r st) ≡ refusal st + refused_count r
unfolding refused_count
refused_count-next r (acts _ _ _ _ _ _ _ _) = omega arith
refused_count-next r (turned_away _ _ _ _ _ _) = omega arith
refused_count-next r (spawns _) = omega arith
refused_count-next r (closes _) = omega arith
refused_count-next r (wakes _ _) = omega arith
refused_count-next r (waits _ _) = omega arith
refused_count-next r (tears _ _) = omega arith

Reach-spends :
    {s u : State} (r : Reach s u)
    → s.closing ≡ true
    → (u.closing ≡ true) × (act_count r + total u.threads ≤ total s.threads + refused_count r)
unfolding act_count refused_count
Reach-spends here h = (h, omega arith)
Reach-spends (next {t} {u} r st) h =
    let rest = Reach-spends r h in
    let last = Step-spends t u st rest.0 in
    (last.0, omega (arith, rest.1, last.1, act_count-next r st, refused_count-next r st))

-- From a closing socket on, however the operations interleave and however many goroutines are started,
-- the goroutines together perform at most the operations that `budget` allows those in a method, and one
-- load for each call of a method that the closed socket turns away; the operations of Close are not counted.
pub acts_bounded :
    {s u : State} (run : Reach s u)
    → s.closing ≡ true
    → act_count run + total u.threads ≤ total s.threads + refused_count run
acts_bounded run h = (Reach-spends run h).1
