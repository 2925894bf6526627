-- ===== src/Shutdown/Safety.antt =====
-- Nothing is unmapped under a method, and a closed socket starts none.
use go_afxdp.Prelude.{
  ◌<◌, ◌≤◌, ◌≡◌, refl, ap, sym, subst, true, List, [], ◌∷◌, ◌++◌, arith, All, Bool-cases, inl, inr,
}
use go_afxdp.Shutdown.{Thread, State, fresh_thread, initial, Reach, here, next}
use go_afxdp.Shutdown.Books.{
  adds_up, share, uses, depths, is_past, PollsInside, IsConsistent, single, Step-IsConsistent,
}

abbrev pub Idle : List Thread → Type 0
Idle ts = All (λ t. t ≡ fresh_thread) ts

pub initial-IsConsistent : (ts : List Thread) → Idle ts → IsConsistent (initial ts)
initial-IsConsistent ts h = record {
  count = sym (no_share ts h);
  flag = refl;
  told = λ w. cc;
  mapping = refl;
  quiet = λ w. cc;
  inside = all_inside ts h;
}
  where
    no_share : (xs : List Thread) → Idle xs → adds_up share xs ≡ 0
    no_share [] i = refl
    no_share (x ∷ xs) (e, i) = rw e (omega (arith, no_share xs i))

    all_inside : (xs : List Thread) → Idle xs → All PollsInside xs
    all_inside [] i = tt
    all_inside (x ∷ xs) (e, i) = (rw e (λ h. cc), all_inside xs i)

pub Reach-IsConsistent : {s u : State} → IsConsistent s → Reach s u → IsConsistent u
Reach-IsConsistent c here = c
Reach-IsConsistent c (next {t} {u} r st) = Step-IsConsistent t u (Reach-IsConsistent c r) st

depth-le-depths :
    (before : List Thread) (t : Thread) (after : List Thread)
    → t.depth ≤ depths (before ++ (t ∷ after))
depth-le-depths before t after = omega (arith, single (λ x. x.depth) before t after)

All-at :
    (P : Thread → Type 0) (before : List Thread) (t : Thread) (after : List Thread)
    → All P (before ++ (t ∷ after))
    → P t
All-at P [] t after h = h.0
All-at P (x ∷ before) t after h = All-at P before t after h.1

module _ {threads : List Thread} {s : State} (idle : Idle threads)
    (reached : Reach (initial threads) s) where
  consistent : IsConsistent s
  consistent = Reach-IsConsistent (initial-IsConsistent threads idle) reached

  -- However the operations of the goroutines and of Close interleave, while a goroutine is in a method,
  -- or in or about to call poll(2), the descriptors are open and the memory is mapped.
  pub live_in_use :
      (before : List Thread) (t : Thread) (after : List Thread)
      → s.threads ≡ before ++ (t ∷ after)
      → uses t ≡ true
      → s.live ≡ true
  live_in_use before t after e h = elim (Bool-cases (is_past s.closer)) [
    | inl past ↦ absurd (omega (arith, deep, none_deep past))
    | inr early ↦ ground (arith, consistent.mapping)
  ]
    where
      deep : 0 < t.depth
      deep =
          ground
            (arith, All-at PollsInside before t after (subst (All PollsInside) e consistent.inside))

      none_deep : is_past s.closer ≡ true → t.depth ≡ 0
      none_deep past =
          omega (arith, consistent.quiet past, ap depths e, depth-le-depths before t after)

  -- `ops` is always the number of methods that goroutines are in, with those that have added one and not
  -- yet seen `closing`: it is never negative, and no `decref` is lost.
  pub ops-shares : s.ops ≡ adds_up share s.threads
  ops-shares = consistent.count
