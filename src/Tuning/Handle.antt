-- ===== src/Tuning/Handle.antt =====
-- One fleet that takes a handle on an interface's settings and restores them, among others that hold some.
use go_afxdp.Prelude.{
  ℕ, ◌+◌, ◌-◌, ◌≡◌, refl, ap, ◌∙◌, subst, Option, none, some, arith, Option-cases, inl, inr,
  if_true, ==_refl,
}
use go_afxdp.Program.{update}
use go_afxdp.Tuning.{
  Settings, NapiTuning, TuningRef, State, Answers, tune, apply_napi_tuning, restore,
}
use go_afxdp.Tuning.Fleets.{Fleets, took, IsKept, update_self, update-update}
use go_afxdp.Tuning.Restore.{opens-IsKept, gives_up-IsKept}

-- Where the handle stands.
Held : ℕ → State × Option NapiTuning → Type 0
Held i (s, none) = Unit
Held i (s, some t) = (r : TuningRef) × (s.refs i ≡ some r) × (r.tuning ≡ t)

tune-Held :
    (s : State) (i defers flush : ℕ) (rd rg wd wg back : Option ℕ)
    → Held i (tune s i defers flush rd rg wd wg back)
unfolding Held
tune-Held s i defers flush (some x) rg wd wg back = tt
tune-Held s i defers flush none (some x) wd wg back = tt
tune-Held s i defers flush none none (some x) wg back = tt
tune-Held s i defers flush none none none (some x) back = tt
tune-Held s i defers flush none none none none back = (_, if_true _ _ (==_refl i), refl)

apply-Held :
    (s : State) (i defers flush : ℕ) (a : Answers) → Held i (apply_napi_tuning s i defers flush a)
unfolding Held apply_napi_tuning
apply-Held s i defers flush a = elim (Option-cases (s.refs i)) [
  | inl e ↦
      rw (apply_napi_tuning, e)
        (tune-Held s i defers flush a.reads_defer a.reads_gro a.writes_defer a.writes_gro
          a.writes_back)
  | inr (r, e) ↦ rw (apply_napi_tuning, e) (_, if_true _ _ (==_refl i), refl)
]

module _ (v : ℕ → Settings) (holders : ℕ → ℕ) (i : ℕ) where
  abbrev books : State → Fleets
  books s = record { state = s; holders = holders }

  -- If the books were right before a fleet took its handle, they are when it has given it back.
  given_back :
      (s : State) (t : Option NapiTuning)
      → Held i (s, t)
      → IsKept v (took (books s) i (s, t))
      → IsKept v (books (restore s t none none))
  unfolding restore Held
  given_back s none h k = k
  given_back s (some t) (r, e, same) k =
      let w = took (books s) i (s, some t) in
      let one_less : update w.holders i (w.holders i - 1) ≡ holders =
        update-update holders i (holders i + 1) (w.holders i - 1)
        ∙ update_self holders i (w.holders i - 1)
            (ap (λ n. n - 1) (if_true _ _ (==_refl i)) ∙ omega arith) in
      subst (λ (n : ℕ → ℕ). IsKept v (record { state = restore s (some t) none none; holders = n }))
        one_less
        (subst
          (λ x. IsKept v (record {
            state = restore s (some x) none none;
            holders = update w.holders i (w.holders i - 1);
          }))
          same (gives_up-IsKept v w k i (some r) e))

  pub apply-restore :
      (s : State) (defers flush : ℕ) (a : Answers)
      → a.writes_back ≡ none
      → IsKept v (books s)
      → let (s', t) = apply_napi_tuning s i defers flush a in
        IsKept v (books (restore s' t none none))
  apply-restore s defers flush a back h =
      let (s', t) = apply_napi_tuning s i defers flush a in
      given_back s' t (apply-Held s i defers flush a)
        (opens-IsKept v (books s) h i defers flush a (s.refs i) back refl)
