-- ===== src/Tuning/Restore.antt =====
-- The last fleet of an interface puts its settings back, in whatever order the fleets open and close.
use go_afxdp.Prelude.{
  ℕ, ◌+◌, ◌-◌, ◌≡◌, refl, ap, sym, ◌∙◌, subst, Option, none, some, List, [], ◌∷◌, ltb, arith,
  Bool-cases, inl, inr, if_true, if_false, ==_refl, All,
}
use go_afxdp.Program.{update}
use go_afxdp.Tuning.{
  Settings, NapiTuning, TuningRef, State, Answers, tune, share, apply_napi_tuning, release, restore,
  saved_as,
}
use go_afxdp.Tuning.Fleets.{
  opens, closes, Event, PutsBack, Fleets, took, gives_up, event, events, Kept, IsKept, at_one,
  update_self, update-update,
}

module _ (v : ℕ → Settings) (w : Fleets) (h : IsKept v w) (j : ℕ) where
  -- The files as they are.
  refs_only :
      (k : ℕ) (r : Option TuningRef)
      → Kept j (v j) (w.state.files j) k r
      → IsKept v (record {
        state = record w.state { refs = update w.state.refs j r };
        holders = update w.holders j k;
      })
  refs_only k r here =
      subst
        (λ (f : ℕ → Settings). IsKept v (record {
          state = record { files = f; refs = update w.state.refs j r };
          holders = update w.holders j k;
        }))
        (update_self w.state.files j (w.state.files j) refl)
        (at_one v w j (w.state.files j) k r h here)

  share-IsKept : (r : TuningRef) → w.state.refs j ≡ some r → IsKept v (took w j (share w.state j r))
  share-IsKept r e =
      let (same, count, some_of) = subst (Kept j (v j) (w.state.files j) (w.holders j)) e (h j) in
      refs_only (w.holders j + 1) (some (record r { n = r.n + 1 }))
        (same, omega (arith, count), omega arith)

  write_twice :
      (x : Settings → Settings) (y : Settings → Settings)
      → update
          (update w.state.files j (x (w.state.files j)))
          j
          (y (update w.state.files j (x (w.state.files j)) j))
        ≡ update w.state.files j (y (x (w.state.files j)))
  write_twice x y =
      update-update w.state.files j (x (w.state.files j)) _
      ∙ ap (λ a. update w.state.files j (y a)) (if_true _ _ (==_refl j))

  tune-IsKept :
      (defers flush : ℕ) (rd rg wd wg : Option ℕ)
      → w.state.refs j ≡ none
      → IsKept v (took w j (tune w.state j defers flush rd rg wd wg none))
  tune-IsKept defers flush (some x) rg wd wg e = h
  tune-IsKept defers flush none (some x) wd wg e = h
  tune-IsKept defers flush none none (some x) wg e = h
  tune-IsKept defers flush none none none none e =
      let (free, same) = subst (Kept j (v j) (w.state.files j) (w.holders j)) e (h j) in
      subst
        (λ (f : ℕ → Settings). IsKept v (record {
          state = record {
            files = f;
            refs =
                update w.state.refs j
                  (some (record { tuning = saved_as j (w.state.files j); n = 1 }));
          };
          holders = update w.holders j (w.holders j + 1);
        }))
        (sym (write_twice (λ a. record a { defer = defers }) (λ a. record a { gro = flush })))
        (at_one v w j (record { defer = defers; gro = flush }) (w.holders j + 1) _ h
          (ap (saved_as j) same, omega (arith, free), omega arith))
  tune-IsKept defers flush none none none (some x) e =
      subst (λ (f : ℕ → Settings). IsKept v (record w { state = record w.state { files = f } }))
        (sym (
          write_twice (λ a. record a { defer = defers })
            (λ a. record a { defer = (w.state.files j).defer })
          ∙ update_self w.state.files j _ refl))
        h

  release-IsKept :
      (r : TuningRef)
      → w.state.refs j ≡ some r
      → IsKept v (record {
        state = release w.state (saved_as j (v j)) r none none;
        holders = update w.holders j (w.holders j - 1);
      })
  release-IsKept r e =
      let (same, count, some_of) = subst (Kept j (v j) (w.state.files j) (w.holders j)) e (h j) in
      elim (Bool-cases (ltb 0 (r.n - 1))) [
        | inl more ↦
            subst
              (λ (s : State).
                IsKept v (record { state = s; holders = update w.holders j (w.holders j - 1) }))
              (sym (if_true _ _ more))
              (refs_only (w.holders j - 1) (some (record r { n = r.n - 1 }))
                (same, omega (arith, count), ground (arith, count)))
        | inr last ↦
            subst
              (λ (s : State).
                IsKept v (record { state = s; holders = update w.holders j (w.holders j - 1) }))
              (sym (
                if_false _ _ last
                ∙ ap (λ f. record { files = f; refs = update w.state.refs j none })
                    (write_twice (λ a. record a { defer = (v j).defer })
                      (λ a. record a { gro = (v j).gro }))))
              (at_one v w j (v j) (w.holders j - 1) none h (ground (arith, count), refl))
      ]

  pub gives_up-IsKept :
      (r : Option TuningRef) → w.state.refs j ≡ r → IsKept v (gives_up w j none none r)
  unfolding restore
  gives_up-IsKept none e = h
  gives_up-IsKept (some r) e =
      let (same, count, some_of) = subst (Kept j (v j) (w.state.files j) (w.holders j)) e (h j) in
      subst
        (λ (s : State).
          IsKept v (record { state = s; holders = update w.holders j (w.holders j - 1) }))
        (sym (ap (λ t. restore w.state (some t) none none) same ∙ restored r e))
        (release-IsKept r e)
    where
      restored :
          (r : TuningRef)
          → w.state.refs j ≡ some r
          → restore w.state (some (saved_as j (v j))) none none
            ≡ release w.state (saved_as j (v j)) r none none
      restored r e = rw (restore, e) refl

  pub opens-IsKept :
      (defers flush : ℕ) (a : Answers) (r : Option TuningRef)
      → a.writes_back ≡ none
      → w.state.refs j ≡ r
      → IsKept v (took w j (apply_napi_tuning w.state j defers flush a))
  unfolding apply_napi_tuning
  opens-IsKept defers flush a none back e =
      subst (λ (x : State × Option NapiTuning). IsKept v (took w j x)) (sym (first e))
        (tune-IsKept defers flush a.reads_defer a.reads_gro a.writes_defer a.writes_gro e)
    where
      first :
          w.state.refs j ≡ none
          → apply_napi_tuning w.state j defers flush a
            ≡ tune w.state j defers flush a.reads_defer a.reads_gro a.writes_defer a.writes_gro none
      first e = rw (apply_napi_tuning, e, back) refl
  opens-IsKept defers flush a (some r) back e =
      subst (λ (x : State × Option NapiTuning). IsKept v (took w j x)) (sym (again r e))
        (share-IsKept r e)
    where
      again :
          (r : TuningRef)
          → w.state.refs j ≡ some r
          → apply_napi_tuning w.state j defers flush a ≡ share w.state j r
      again r e = rw (apply_napi_tuning, e) refl

event-IsKept :
    (v : ℕ → Settings) (w : Fleets) (e : Event) → PutsBack e → IsKept v w → IsKept v (event w e)
unfolding event
event-IsKept v w (opens i defers flush a) back h =
    opens-IsKept v w h i defers flush a (w.state.refs i) back refl
event-IsKept v w (closes i d g) (e, e') h = elim (Bool-cases (ltb 0 (w.holders i))) [
  | inl z ↦
      subst (IsKept v) (sym (if_true _ _ z))
        (rw (e, e') (gives_up-IsKept v w h i (w.state.refs i) refl))
  | inr z ↦ subst (IsKept v) (sym (if_false _ _ z)) h
]

events-IsKept :
    (v : ℕ → Settings) (w : Fleets) (es : List Event)
    → All PutsBack es
    → IsKept v w
    → IsKept v (events w es)
unfolding events
events-IsKept v w [] back h = h
events-IsKept v w (e ∷ es) (b, back) h =
    events-IsKept v (event w e) es back (event-IsKept v w e b h)

-- No fleet is open, and the settings are the given ones.
abbrev pub untouched : (ℕ → Settings) → Fleets
untouched v = record { state = record { files = v; refs = λ _. none }; holders = λ _. 0 }

-- After any opening and closing of fleets on any interfaces, with any answers to the reads and writes but for
-- those that put a value back, which succeed, an interface for which no fleet holds a handle has the settings
-- that it had at first.
pub settings_restored :
    (v : ℕ → Settings) (es : List Event) (i : ℕ)
    → All PutsBack es
    → (events (untouched v) es).holders i ≡ 0
    → (events (untouched v) es).state.files i ≡ v i
settings_restored v es i back z =
    settled ((events (untouched v) es).state.refs i)
      (events-IsKept v (untouched v) es back (λ j. (refl, refl)) i)
  where
    settled :
        (r : Option TuningRef)
        → Kept i
            (v i)
            ((events (untouched v) es).state.files i)
            ((events (untouched v) es).holders i)
            r
        → (events (untouched v) es).state.files i ≡ v i
    settled none k = k.1
    settled (some r) k = absurd (omega (arith, k, z))
