-- ===== src/Fleet/Lifetime.antt =====
-- From Open to Close: a failed Open leaves nothing behind, and neither does a fleet that is closed.
use go_afxdp.Prelude.{
  ℕ, ◌+◌, ◌≡◌, refl, ap, ◌∙◌, Bool, Option, none, some, List, [], ◌∷◌, arith, ◌⊎◌, inl, inr,
  Bool-cases, subst, not, ◌&&◌, ◌==◌,
}
use go_afxdp.Options.{Options}
use go_afxdp.Options.Config.{Config}
use go_afxdp.Ebpf.{Endian}
use go_afxdp.Filter.Match.{Match}
use go_afxdp.Fleet.Locals.{Locals}
use go_afxdp.Filter.Program.{is_nil}
use go_afxdp.Program.{Program, Attached, removes, attach}
use go_afxdp.Tuning
use go_afxdp.Tuning.{Answers, apply_napi_tuning}
use go_afxdp.Fleet.{
  Host, drv_mode, ModeGroup, mode_groups, FleetError, no_mode, too_many_addresses, errno,
  BuiltProgram, made, unmade, build_program, Kernel, Bound, bound, unbound,
}
use go_afxdp.Fleet.Open.{
  Opening, opened, failed, new_fleet, after_build, after_attach, after_binds, try_groups,
  base_options, queue_count, exceptions_of, after_exceptions, open_fleet, tune_fleet,
}
use go_afxdp.Fleet.Rollback.{queues, Bindings, try_binds-Bindings}
use go_afxdp.Prelude.Count.{count}
use go_afxdp.Fleet.Attach.{
  Undone, Tuned, Outcome, Attaches, or_none, attach-Attaches, Loaded, drop_program-Undone,
  detach_program-Undone,
}

-- ---- Open ----

Undone-refl : (h : Host) → Undone h h
Undone-refl h = record { sockets = λ q. refl; programs = refl; tuning = refl; attached = inl refl }

Outcome-trans :
    (sys : Answers) (net n : ℕ) (h h' : Host) (o : Opening)
    → Undone h h'
    → Outcome sys net n h' o
    → Outcome sys net n h o
Outcome-trans sys net n h h' (opened g f) u s = record {
  sockets = λ q. s.sockets q ∙ ap (λ x. x + count q (queues f.sockets)) (u.sockets q);
  programs = s.programs ∙ ap (λ x. x + 1) u.programs;
  attached = s.attached;
  number = s.number;
  program = s.program;
  tuned = subst (λ t. Tuned sys net t (g.tuning, f.tuning)) u.tuning s.tuned;
}
Outcome-trans sys net n h h' (failed g e) u s = record {
  sockets = λ q. s.sockets q ∙ u.sockets q;
  programs = s.programs ∙ u.programs;
  tuning = s.tuning ∙ u.tuning;
  attached = or_none s.attached u.attached;
}

-- Tuning touches the settings only.
tune_fleet-same :
    (cfg : Config) (ifindex flags : ℕ) (k : Kernel) (h : Host)
    → (t : Tuning.State) × ((tune_fleet cfg ifindex flags k h).0 ≡ record h { tuning = t })
unfolding tune_fleet
tune_fleet-same cfg ifindex flags k h = ((tune_fleet cfg ifindex flags k h).0.tuning, ground arith)

tune_fleet-Tuned :
    (cfg : Config) (ifindex flags : ℕ) (k : Kernel) (h : Host)
    → let (h', t) = tune_fleet cfg ifindex flags k h in
      Tuned k.sysfs ifindex h.tuning (h'.tuning, t)
unfolding tune_fleet
tune_fleet-Tuned cfg ifindex flags k h =
    elim (Bool-cases (not cfg.no_auto_tune && (flags == drv_mode))) [
      | inl z ↦ rw (tune_fleet, z) (inr (_, _, refl))
      | inr z ↦ rw (tune_fleet, z) (inl refl)
    ]

after_binds-Outcome :
    (n : ℕ) (cfg : Config) (base : Options) (ifindex flags : ℕ) (k : Kernel) (h h' : Host)
    (p : Program) (retry : Host → Program → Opening) (b : Bound)
    → Loaded h h'
    → h'.attached ≡ some flags
    → ((g : Host) (q : Program) → Loaded h g → Outcome k.sysfs ifindex n h (retry g q))
    → Bindings h'.sockets h' p n b
    → Outcome k.sysfs ifindex n h
        (after_binds retry (λ g q f socks. new_fleet cfg base ifindex k flags g q f socks) b)
after_binds-Outcome n cfg base ifindex flags k h h' p retry (bound g q f socks) l at again
      (holds, same, link, size) =
    let (t, e) = tune_fleet-same cfg ifindex flags k g in
    record {
      sockets = λ i.
          ap (λ (x : Host). x.sockets i) e
          ∙ holds i
          ∙ ap (λ x. x + count i (queues socks)) (l.sockets i);
      programs = ap (λ (x : Host). x.programs) e ∙ same.programs ∙ l.programs;
      attached = ap (λ (x : Host). x.attached) e ∙ same.attached ∙ at;
      number = size;
      program = (q, refl);
      tuned =
          subst
            (λ s.
              Tuned k.sysfs ifindex s
                ((tune_fleet cfg ifindex flags k g).0.tuning, (tune_fleet cfg ifindex flags k g).1))
            (same.tuning ∙ l.tuning) (tune_fleet-Tuned cfg ifindex flags k g);
    }
after_binds-Outcome n cfg base ifindex flags k h h' p retry (unbound g q) l at again
      (holds, same, link) =
    again g q (record {
      sockets = λ i. holds i ∙ unfold count in (omega (arith, l.sockets i));
      programs = same.programs ∙ l.programs;
      tuning = same.tuning ∙ l.tuning;
    })

after_attach-Outcome :
    (sys : Answers) (net n flags : ℕ) (h : Host) (p : Program) (a : Attached)
    (retry : Program → Attached → ℕ → Opening) (on : Program → Attached → Opening)
    (r : Program × Attached × Option ℕ)
    → Attaches p a flags r
    → ((p' : Program) (a' : Attached) (c : ℕ)
        → (a' ≡ a) ⊎ (a' ≡ none)
        → Outcome sys net n h (retry p' a' c))
    → ((p' : Program) (a' : Attached) → a' ≡ some flags → Outcome sys net n h (on p' a'))
    → Outcome sys net n h (after_attach retry on r)
after_attach-Outcome sys net n flags h p a retry on (p', a', some e) at fails goes =
    fails p' a' e at.1
after_attach-Outcome sys net n flags h p a retry on (p', a', none) at fails goes = goes p' a' at

after_build-Outcome :
    (sys : Answers) (net n : ℕ) (h : Host) (stop : FleetError → Opening) (on : Program → Opening)
    (b : BuiltProgram)
    → ((e : FleetError) → Outcome sys net n h (stop e))
    → ((p : Program) → Outcome sys net n h (on p))
    → Outcome sys net n h (after_build stop on b)
after_build-Outcome sys net n h stop on (unmade e) fails goes = fails e
after_build-Outcome sys net n h stop on (made p) fails goes = goes p

module _ (cfg : Config) (base : Options) (ifindex n : ℕ) (exceptions : List Match) (k : Kernel)
    (removable : (flags : ℕ) → k.detaching flags ≡ removes) where
  try_groups-Outcome :
      (gs : List ModeGroup) (h : Host) (e : FleetError)
      → Outcome k.sysfs ifindex n h (try_groups cfg base ifindex n exceptions k gs h e)
  unfolding try_groups
  try_groups-Outcome [] h e = Undone-refl h
  try_groups-Outcome (g ∷ gs) h e =
      let again : (h' : Host) (e' : FleetError)
          → Undone h h'
          → Outcome k.sysfs ifindex n h (try_groups cfg base ifindex n exceptions k gs h' e') =
        λ h' e' u.
          Outcome-trans k.sysfs ifindex n h h' (try_groups cfg base ifindex n exceptions k gs h' e')
            u (try_groups-Outcome gs h' e') in
      after_build-Outcome k.sysfs ifindex n h _ _
        (build_program n exceptions cfg.matches (k.loads g.xdp_flags)) (λ e'. Undone-refl h)
        (λ p.
          after_attach-Outcome k.sysfs ifindex n g.xdp_flags h p h.attached _ _
            (attach p h.attached g.xdp_flags (k.removal g.xdp_flags) (k.linking g.xdp_flags))
            (attach-Attaches p h.attached g.xdp_flags (k.removal g.xdp_flags)
              (k.linking g.xdp_flags))
            (λ p' a c o.
              again _ (errno c) (drop_program-Undone k g.xdp_flags p' h (loaded a) (ready a) o))
            (λ p' a at.
              after_binds-Outcome n cfg base ifindex g.xdp_flags k h (loaded a) p' _ _ (ready a) at
                (λ u q l.
                  again _ no_mode
                    (detach_program-Undone k g.xdp_flags q h u l (removable g.xdp_flags)))
                (try_binds-Bindings k h.sockets g.xdp_flags base.bind_flags n g.bind_flags
                  (loaded a) p' (λ q. none_open q))))
    where
      loaded : Attached → Host
      loaded a = record h { programs = h.programs + 1; attached = a }

      ready : (a : Attached) → Loaded h (loaded a)
      ready a = record { sockets = λ q. refl; programs = refl; tuning = refl }

      none_open : (q : ℕ) → h.sockets q ≡ h.sockets q + count q []
      none_open q = unfold count in (omega arith)

-- Whatever the kernel refuses, if it lets Open remove by netlink a program that Open has attached: an Open that
-- succeeds leaves one program more, attached in the mode that the fleet reports, and for every queue to
-- bind one socket more, all of them the fleet's, and the interface's settings are those of before or those
-- that `applyNAPITuning` makes of them; one that fails leaves no socket, no program and no changed setting
-- behind, and the interface with the program it had or none.
pub open_fleet-Outcome :
    (host : Endian) (cfg : Config) (ena : Bool) (ifindex total : ℕ) (locals : Locals) (k : Kernel)
    (h : Host)
    → ((flags : ℕ) → k.detaching flags ≡ removes)
    → Outcome k.sysfs ifindex
        (queue_count cfg total)
        h
        (open_fleet host cfg ena ifindex total locals k h)
unfolding open_fleet
open_fleet-Outcome host cfg ena ifindex total locals k h removable =
    elim (Bool-cases (is_nil cfg.matches)) [
      | inl z ↦ rw z (Undone-refl h)
      | inr z ↦ rw z (with_exceptions (exceptions_of host cfg locals))
    ]
  where
    with_exceptions :
        (o : Option (List Match))
        → Outcome k.sysfs ifindex (queue_count cfg total) h (
            after_exceptions
              (failed h too_many_addresses)
              (λ exceptions.
                try_groups cfg
                  (base_options cfg ena)
                  ifindex
                  (queue_count cfg total)
                  exceptions
                  k
                  (mode_groups cfg.mode)
                  h
                  no_mode)
              o)
    with_exceptions none = Undone-refl h
    with_exceptions (some exceptions) =
        try_groups-Outcome cfg (base_options cfg ena) ifindex (queue_count cfg total) exceptions k
          removable (mode_groups cfg.mode) h no_mode
