-- ===== src/Fleet/Attach.antt =====
-- Attaching and detaching a program, and what a failed attempt leaves.
use go_afxdp.Prelude.{
  ℕ, ◌+◌, ◌≡◌, refl, ap, ◌∙◌, true, false, Option, none, some, if◌then◌else◌, arith, ◌⊎◌, inl, inr,
  Bool-cases, Option-cases, if_true, if_false, length,
}
use go_afxdp.Program
use go_afxdp.Program.{
  Program, Attached, Removal, no_interface, held_by_link, removes, Linking, linked, unsupported,
  denied, remove_program, attach, detach, link_to,
}
use go_afxdp.Tuning
use go_afxdp.Tuning.{Answers, NapiTuning, apply_napi_tuning}
use go_afxdp.Fleet.{Host, Fleet, Kernel}
use go_afxdp.Fleet.Open.{Opening, opened, failed, drop_program, detach_program}
use go_afxdp.Fleet.Rollback.{Holds}

-- Nothing that was opened is left: the sockets, the programs and the settings are as before, and the
-- interface has the program it had, or none.
pub record Undone (h h' : Host) : Type 0 where
  pub sockets : (q : ℕ) → h'.sockets q ≡ h.sockets q
  pub programs : h'.programs ≡ h.programs
  pub tuning : h'.tuning ≡ h.tuning
  pub attached : (h'.attached ≡ h.attached) ⊎ (h'.attached ≡ none)

-- The settings and the fleet's handle on them: it has none, or the one that `applyNAPITuning` has given it.
abbrev pub Tuned : Answers → ℕ → Tuning.State → Tuning.State × Option NapiTuning → Type 0
Tuned sys net s x =
    (x ≡ (s, none)) ⊎ ((defers flush : ℕ) × (x ≡ apply_napi_tuning s net defers flush sys))

-- What an Open that succeeds leaves: one more program, attached, and `n` more sockets, those of the fleet.
pub record Stands (sys : Answers) (net n : ℕ) (h h' : Host) (f : Fleet) : Type 0 where
  pub sockets : Holds h.sockets f.sockets h'
  pub programs : h'.programs ≡ h.programs + 1
  pub attached : h'.attached ≡ some f.opts.xdp_flags
  pub number : length f.sockets ≡ n
  pub program : (p : Program) × (f.program ≡ some p)
  pub tuned : Tuned sys net h.tuning (h'.tuning, f.tuning)

abbrev pub Outcome : Answers → ℕ → ℕ → Host → Opening → Type 0
Outcome sys net n h (opened h' f) = Stands sys net n h h' f
Outcome sys net n h (failed h' e) = Undone h h'

-- ---- attaching ----

-- The interface after an attach that failed, and after one that did not.
abbrev pub Attaches : Program → Attached → ℕ → Program × Attached × Option ℕ → Type 0
Attaches p a flags (p', a', some e) = (p'.link ≡ p.link) × ((a' ≡ a) ⊎ (a' ≡ none))
Attaches p a flags (p', a', none) = a' ≡ some flags

remove_program-or :
    (a : Attached) (r : Removal) → ((remove_program a r).0 ≡ a) ⊎ ((remove_program a r).0 ≡ none)
unfolding remove_program
remove_program-or a (no_interface e) = inl refl
remove_program-or none (held_by_link e) = inl refl
remove_program-or (some f) (held_by_link e) = inl refl
remove_program-or none removes = inl refl
remove_program-or (some f) removes = inr refl

remove_program-removes : (a : Attached) → (remove_program a removes).0 ≡ none
unfolding remove_program
remove_program-removes none = refl
remove_program-removes (some f) = refl

pub or_none :
    {a b c : Attached} → (c ≡ b) ⊎ (c ≡ none) → (b ≡ a) ⊎ (b ≡ none) → (c ≡ a) ⊎ (c ≡ none)
or_none (inl e) (inl f) = inl (e ∙ f)
or_none (inl e) (inr f) = inr (e ∙ f)
or_none (inr e) g = inr e

link_to-Attaches :
    (p : Program) (a a' : Attached) (flags : ℕ) (l : Linking)
    → (a' ≡ a) ⊎ (a' ≡ none)
    → Attaches p a flags (link_to p a' flags l)
link_to-Attaches p a a' flags linked o = refl
link_to-Attaches p a a' flags (denied e) o = (refl, o)
link_to-Attaches p a a' flags (unsupported none) o = refl
link_to-Attaches p a a' flags (unsupported (some e)) o = (refl, o)

pub attach-Attaches :
    (p : Program) (a : Attached) (flags : ℕ) (r : Removal) (l : Linking)
    → Attaches p a flags (attach p a flags r l)
unfolding attach
attach-Attaches p a flags r l = elim (Option-cases (remove_program a r).1) [
  | inl z ↦
      rw (attach, z) (link_to-Attaches p a (remove_program a r).0 flags l (remove_program-or a r))
  | inr (e, z) ↦ rw (attach, z) (refl, remove_program-or a r)
]

-- ---- giving up a group ----

-- The host with the program loaded, before its sockets.
pub record Loaded (h h' : Host) : Type 0 where
  pub sockets : (q : ℕ) → h'.sockets q ≡ h.sockets q
  pub programs : h'.programs ≡ h.programs + 1
  pub tuning : h'.tuning ≡ h.tuning

pub drop_program-Undone :
    (k : Kernel) (flags : ℕ) (p : Program) (h h' : Host)
    → Loaded h h'
    → (h'.attached ≡ h.attached) ⊎ (h'.attached ≡ none)
    → Undone h (drop_program k flags p h')
unfolding Program.close
drop_program-Undone k flags p h h' l o = record {
  sockets = l.sockets;
  programs = omega (arith, l.programs);
  tuning = l.tuning;
  attached = or_none (unlinked (Bool-cases p.link)) o;
}
  where
    unlinked :
        (p.link ≡ true) ⊎ (p.link ≡ false)
        → ((if p.link then none else h'.attached) ≡ h'.attached)
          ⊎ ((if p.link then none else h'.attached) ≡ none)
    unlinked (inl e) = inr (if_true _ _ e)
    unlinked (inr e) = inl (if_false _ _ e)

pub detach-removes :
    (p : Program) (a : Attached) (c : Option ℕ) (r : Removal)
    → r ≡ removes
    → (detach p a c r).1 ≡ none
unfolding detach
detach-removes p a c r e = elim (Bool-cases p.link) [
  | inl l ↦ ap (λ (x : Program × Attached × Option ℕ). x.1) (if_true _ _ l)
  | inr l ↦
      ap (λ (x : Program × Attached × Option ℕ). x.1) (if_false _ _ l)
      ∙ ap (λ x. (remove_program a x).0) e
      ∙ remove_program-removes a
]

pub detach_program-Undone :
    (k : Kernel) (flags : ℕ) (p : Program) (h h' : Host)
    → Loaded h h'
    → k.detaching flags ≡ removes
    → Undone h (detach_program k flags p h')
detach_program-Undone k flags p h h' l r =
    drop_program-Undone k flags _ h _
      (record { sockets = l.sockets; programs = l.programs; tuning = l.tuning })
      (inr (detach-removes p h'.attached (k.closes_link flags) (k.detaching flags) r))
