-- ===== src/Tuning/Fleets.antt =====
-- Fleets that open and close on interfaces, and what is kept for each interface.
use go_afxdp.Prelude.{
  ℕ, ◌+◌, ◌-◌, ◌<◌, ◌≡◌, ap, sym, ◌∙◌, subst, Option, none, some, List, [], ◌∷◌, ltb, ◌==◌,
  if◌then◌else◌, Bool-cases, inl, inr, if_true, if_false, ==_iff, fun_ext,
}
use go_afxdp.Program.{update}
use go_afxdp.Tuning.{
  Settings, NapiTuning, TuningRef, State, Answers, apply_napi_tuning, restore, saved_as,
}

-- What fleets do, with the kernel's answers: one opens an interface and gets a handle or none; or one of those
-- that hold a handle closes, and writes two values if it is the last.
pub data Event : Type 0 where
  opens : (i defers flush : ℕ) → Answers → Event
  closes : (i : ℕ) → Option ℕ → Option ℕ → Event

-- The writes that put a value back succeed.
abbrev pub PutsBack : Event → Type 0
PutsBack (opens i defers flush a) = a.writes_back ≡ none
PutsBack (closes i writes_defer writes_gro) = (writes_defer ≡ none) × (writes_gro ≡ none)

-- The state, and how many fleets hold a handle for each interface. They all hold the one in `tuningRefs`.
pub record Fleets : Type 0 where
  pub state : State
  pub holders : ℕ → ℕ

abbrev pub took : Fleets → ℕ → State × Option NapiTuning → Fleets
took w i (s, none) = record w { state = s }
took w i (s, some t) = record { state = s; holders = update w.holders i (w.holders i + 1) }

abbrev pub gives_up : Fleets → ℕ → Option ℕ → Option ℕ → Option TuningRef → Fleets
gives_up w i writes_defer writes_gro none = w
gives_up w i writes_defer writes_gro (some r) = record {
  state = restore w.state (some r.tuning) writes_defer writes_gro;
  holders = update w.holders i (w.holders i - 1);
}

unfoldable pub event : Fleets → Event → Fleets
event w (opens i defers flush a) = took w i (apply_napi_tuning w.state i defers flush a)
event w (closes i writes_defer writes_gro) =
    if ltb 0 (w.holders i) then gives_up w i writes_defer writes_gro (w.state.refs i) else w

unfoldable pub events : Fleets → List Event → Fleets
events w [] = w
events w (e ∷ es) = events (event w e) es

-- What stands in `tuningRefs` for an interface with the original settings `v` and `k` holders.
abbrev pub Kept : ℕ → Settings → Settings → ℕ → Option TuningRef → Type 0
Kept i v now k none = (k ≡ 0) × (now ≡ v)
Kept i v now k (some r) = (r.tuning ≡ saved_as i v) × (r.n ≡ k) × (0 < k)

abbrev pub IsKept : (ℕ → Settings) → Fleets → Type 0
IsKept v w = (i : ℕ) → Kept i (v i) (w.state.files i) (w.holders i) (w.state.refs i)

moved :
    (i : ℕ) (v : Settings) {now now' : Settings} {k k' : ℕ} {r r' : Option TuningRef}
    → now' ≡ now
    → k' ≡ k
    → r' ≡ r
    → Kept i v now k r
    → Kept i v now' k' r'
moved i v e f g h = rw (e, f, g) h

-- An event on the interface `j` that makes its entries `now`, `k` and `r`.
pub at_one :
    (v : ℕ → Settings) (w : Fleets) (j : ℕ) (now : Settings) (k : ℕ) (r : Option TuningRef)
    → IsKept v w
    → Kept j (v j) now k r
    → IsKept v (record {
      state = record { files = update w.state.files j now; refs = update w.state.refs j r };
      holders = update w.holders j k;
    })
at_one v w j now k r h here i = elim (Bool-cases (i == j)) [
  | inl z ↦
      let e : i ≡ j = (==_iff i j).0 z in
      moved i (v i) (if_true _ _ z) (if_true _ _ z) (if_true _ _ z)
        (subst (λ x. Kept x (v x) now k r) (sym e) here)
  | inr z ↦ moved i (v i) (if_false _ _ z) (if_false _ _ z) (if_false _ _ z) (h i)
]

-- An update with what is there changes nothing.
pub update_self {ℓ} : {A : Type ℓ} (f : ℕ → A) (j : ℕ) (a : A) → a ≡ f j → update f j a ≡ f
update_self f j a e = fun_ext (λ i. elim (Bool-cases (i == j)) [
  | inl z ↦ if_true _ _ z ∙ e ∙ ap f (sym ((==_iff i j).0 z))
  | inr z ↦ if_false _ _ z
])

pub update-update {ℓ} :
    {A : Type ℓ} (f : ℕ → A) (j : ℕ) (a b : A) → update (update f j a) j b ≡ update f j b
update-update f j a b = fun_ext (λ i. elim (Bool-cases (i == j)) [
  | inl z ↦ if_true _ _ z ∙ sym (if_true _ _ z)
  | inr z ↦ if_false _ _ z ∙ if_false _ _ z ∙ sym (if_false _ _ z)
])
