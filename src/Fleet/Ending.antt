-- ===== src/Fleet/Ending.antt =====
-- Close gives back what Open took.
use go_afxdp.Prelude.{
  ℕ, ◌+◌, ◌-◌, ◌≡◌, refl, ap, sym, ◌∙◌, subst, Bool, Option, none, some, List, [], ◌∷◌, arith, inl,
  inr, Bool-cases, if_true, if_false,
}
use go_afxdp.Prelude.Count.{count}
use go_afxdp.Options.Config.{Config}
use go_afxdp.Ebpf.{Endian}
use go_afxdp.Fleet.Locals.{Locals}
use go_afxdp.Program
use go_afxdp.Program.{Program, Attached, Closing, Removal, removes, detach, unregister}
use go_afxdp.Fleet.{Host, Xsk, Fleet, Kernel, close_socket}
use go_afxdp.Fleet.Open.{
  opened, open_fleet, queue_count, Ending, unregister_from, close_sockets, end_program, close_fleet,
}
use go_afxdp.Fleet.Rollback.{Holds, SameHost, SameHost-trans, close_socket-Holds}
use go_afxdp.Fleet.Lifetime.{open_fleet-Outcome}
use go_afxdp.Tuning.{Settings, NapiTuning, State, Answers, restore}
use go_afxdp.Tuning.Fleets.{IsKept}
use go_afxdp.Tuning.Handle.{apply-restore}
use go_afxdp.Fleet.Attach.{Stands, Tuned, Outcome, detach-removes}

abbrev IsSome : Option Program → Type 0
IsSome p = (q : Program) × (p ≡ some q)

-- The loop over the sockets leaves those that were open before.
close_sockets-lem :
    (k : Ending) (base : ℕ → ℕ) (q : ℕ) (xs : List Xsk) (h : Host) (p : Option Program)
    (e : Option ℕ)
    → Holds base xs h
    → IsSome p
    → let (h', p', e') = close_sockets k q xs h p e in Holds base [] h' × SameHost h h' × IsSome p'
unfolding close_sockets
close_sockets-lem k base q [] h p e holds s =
    (holds, record { attached = refl; programs = refl; tuning = refl }, s)
close_sockets-lem k base q (x ∷ xs) h none e holds (r, s) = absurd cc
close_sockets-lem k base q (x ∷ xs) h (some p) e holds s =
    let (a, b, c) =
      close_sockets-lem k base (q + 1) xs (close_socket x.queue h) (unregister_from (some p) q k).0
        _ (close_socket-Holds base x xs h holds)
        ((unregister p q (k.puts_queue q) (k.deletes q)).0, refl) in
    (a, SameHost-trans (record { attached = refl; programs = refl; tuning = refl }) b, c)

close-detached :
    (p : Program) (a : Attached) (c : Closing) → a ≡ none → (Program.close p a c).1 ≡ none
unfolding Program.close
close-detached p a c e = elim (Bool-cases p.link) [
  | inl l ↦ if_true _ _ l
  | inr l ↦ if_false _ _ l ∙ e
]

-- What a Close leaves: the sockets and programs of before the Open, and nothing attached; the interfaces'
-- settings `v` for those that hold a handle, `holders` of them by interface; the fleet is empty.
pub record Released (v : ℕ → Settings) (holders : ℕ → ℕ) (h h' : Host) (f : Fleet) : Type 0 where
  pub sockets : (q : ℕ) → h'.sockets q ≡ h.sockets q
  pub programs : h'.programs ≡ h.programs
  pub attached : h'.attached ≡ none
  pub settings : IsKept v (record { state = h'.tuning; holders = holders })
  pub empty : f.sockets ≡ []
  pub no_program : f.program ≡ none
  pub no_handle : f.tuning ≡ none

end_program-lem :
    (k : Ending) (h : Host) (p : Option Program) (e : Option ℕ)
    → IsSome p
    → k.detaching ≡ removes
    → ((end_program k h p e).0.sockets ≡ h.sockets)
      × ((end_program k h p e).0.programs ≡ h.programs - 1)
      × ((end_program k h p e).0.attached ≡ none)
      × ((end_program k h p e).0.tuning ≡ h.tuning)
end_program-lem k h none e (r, s) d = absurd cc
end_program-lem k h (some p) e s d = (
  refl,
  refl,
  close-detached _ _ k.closing (detach-removes p h.attached k.closes_link k.detaching d),
  refl,
)

module _ (v : ℕ → Settings) (holders : ℕ → ℕ) where
  -- The books of the tuning, after the handle that Open has taken is given back.
  settings-back :
      (sys : Answers) (i : ℕ) (s s' : State) (t : Option NapiTuning)
      → sys.writes_back ≡ none
      → IsKept v (record { state = s; holders = holders })
      → Tuned sys i s (s', t)
      → IsKept v (record { state = restore s' t none none; holders = holders })
  unfolding restore
  settings-back sys i s s' t back h (inl e) =
      subst
        (λ (x : State × Option NapiTuning).
          IsKept v (record { state = restore x.0 x.1 none none; holders = holders }))
        (sym e) h
  settings-back sys i s s' t back h (inr (defers, flush, e)) =
      subst
        (λ (x : State × Option NapiTuning).
          IsKept v (record { state = restore x.0 x.1 none none; holders = holders }))
        (sym e) (apply-restore v holders i s defers flush sys back h)

  close_fleet-Released :
      (k : Ending) (sys : Answers) (i n : ℕ) (h h' : Host) (f : Fleet)
      → Stands sys i n h h' f
      → k.detaching ≡ removes
      → k.writes_defer ≡ none
      → k.writes_gro ≡ none
      → sys.writes_back ≡ none
      → IsKept v (record { state = h.tuning; holders = holders })
      → Released v holders h (close_fleet k h' f).0 (close_fleet k h' f).1
  unfolding close_fleet
  close_fleet-Released k sys i n h h' f s d wd wg back books =
      let (closed, same, still) =
        close_sockets-lem k h.sockets 0 f.sockets h' f.program none s.sockets s.program in
      let (a, b, c, t) = end_program-lem k _ _ _ still d in
      record {
        sockets = λ q. ap (λ g. g q) a ∙ closed q ∙ unfold count in (omega arith);
        programs = omega (arith, b, same.programs, s.programs);
        attached = c;
        settings =
            rw (t ∙ same.tuning, wd, wg)
              (settings-back sys i h.tuning h'.tuning f.tuning back books s.tuned);
        empty = refl;
        no_program = refl;
        no_handle = refl;
      }

-- Let the interfaces have the settings `v`, changed where there are fleets that hold handles. Closing a fleet
-- that Open returned, whatever fails on the way but the removal by netlink of the fleet's own program and
-- the writes that put a setting back, leaves the sockets and the programs that were there before the Open,
-- no program attached to the interface, and the settings `v` on every interface for which no other fleet
-- holds a handle; for the others the handles are counted as before.
pub open_fleet-close_fleet :
    (host : Endian) (cfg : Config) (ena : Bool) (ifindex total : ℕ) (locals : Locals) (k : Kernel)
    (h : Host) (e : Ending) (v : ℕ → Settings) (holders : ℕ → ℕ)
    → ((flags : ℕ) → k.detaching flags ≡ removes)
    → e.detaching ≡ removes
    → k.sysfs.writes_back ≡ none
    → e.writes_defer ≡ none
    → e.writes_gro ≡ none
    → IsKept v (record { state = h.tuning; holders = holders })
    → (h' : Host) (f : Fleet) → open_fleet host cfg ena ifindex total locals k h ≡ opened h' f
    → Released v holders h (close_fleet e h' f).0 (close_fleet e h' f).1
open_fleet-close_fleet host cfg ena ifindex total locals k h e v holders removable d back wd wg
      books h' f o =
    close_fleet-Released v holders e k.sysfs ifindex (queue_count cfg total) h h' f
      (subst (Outcome k.sysfs ifindex (queue_count cfg total) h) o
        (open_fleet-Outcome host cfg ena ifindex total locals k h removable))
      d wd wg back books
