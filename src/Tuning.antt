-- ===== src/Tuning.antt =====
-- tune.go: the NAPI settings of interfaces, tuned while a fleet is open, and put back after. A file's
-- text is a number here: the source writes back what it read, and compares nothing. Mutual exclusion
-- (`tuningMu`) makes each call one step. A read or a write takes the kernel's answer, and one that fails
-- changes nothing.
pub mod Fleets
pub mod Restore
pub mod Handle
use go_afxdp.Prelude.{ℕ, zero, suc, ◌+◌, ◌-◌, Bool, Option, none, some, ltb, ◌==◌, if◌then◌else◌}
use go_afxdp.Program.{update}

-- `napi_defer_hard_irqs` and `gro_flush_timeout` of an interface.
pub record Settings : Type 0 where
  pub defer : ℕ
  pub gro : ℕ

-- `napiTuning`; the line for Info is made of what was written.
pub record NapiTuning : Type 0 where
  pub iface : ℕ
  pub saved : Settings

pub record TuningRef : Type 0 where
  pub tuning : NapiTuning
  pub n : ℕ

-- The files under /sys/class/net, and `tuningRefs`.
pub record State : Type 0 where
  pub files : ℕ → Settings
  pub refs : ℕ → Option TuningRef

pub record Answers : Type 0 where
  pub reads_defer : Option ℕ
  pub reads_gro : Option ℕ
  pub writes_defer : Option ℕ
  pub writes_gro : Option ℕ
  pub writes_back : Option ℕ

abbrev write_defer : State → ℕ → ℕ → Option ℕ → State
write_defer s i v none = record s { files = update s.files i (record (s.files i) { defer = v }) }
write_defer s i v (some e) = s

abbrev write_gro : State → ℕ → ℕ → Option ℕ → State
write_gro s i v none = record s { files = update s.files i (record (s.files i) { gro = v }) }
write_gro s i v (some e) = s

abbrev saved_as : ℕ → Settings → NapiTuning
saved_as i v = record { iface = i; saved = v }

-- The second write, after the first has made `s` of the state in which `saved` was read.
abbrev second_write : State → ℕ → ℕ → Settings → Option ℕ → Option ℕ → State × Option NapiTuning
second_write s i flush saved none back =
    let t = saved_as i saved in
    let s' = write_gro s i flush none in
    (record s' { refs = update s'.refs i (some (record { tuning = t; n = 1 })) }, some t)
second_write s i flush saved (some e) back = (write_defer s i saved.defer back, none)

-- The first fleet of an interface, by the answers to the two reads, the two writes, and the one that puts
-- the first value back.
abbrev pub tune :
    State
    → ℕ
    → ℕ
    → ℕ
    → Option ℕ
    → Option ℕ
    → Option ℕ
    → Option ℕ
    → Option ℕ
    → State × Option NapiTuning
tune s i defers flush (some e) reads_gro writes_defer writes_gro back = (s, none)
tune s i defers flush none (some e) writes_defer writes_gro back = (s, none)
tune s i defers flush none none (some e) writes_gro back = (s, none)
tune s i defers flush none none none writes_gro back =
    second_write (write_defer s i defers none) i flush (s.files i) writes_gro back

abbrev pub share : State → ℕ → TuningRef → State × Option NapiTuning
share s i r = (record s { refs = update s.refs i (some (record r { n = r.n + 1 })) }, some r.tuning)

unfoldable pub apply_napi_tuning : State → ℕ → ℕ → ℕ → Answers → State × Option NapiTuning
apply_napi_tuning s i defers flush a = elim (s.refs i) [
  | some r ↦ share s i r
  | none ↦ tune s i defers flush a.reads_defer a.reads_gro a.writes_defer a.writes_gro a.writes_back
]

abbrev pub put_back : State → NapiTuning → Option ℕ → Option ℕ → State
put_back s t writes_defer writes_gro =
    let s' = record s { refs = update s.refs t.iface none } in
    write_gro (write_defer s' t.iface t.saved.defer writes_defer) t.iface t.saved.gro writes_gro

abbrev pub release : State → NapiTuning → TuningRef → Option ℕ → Option ℕ → State
release s t r writes_defer writes_gro =
    if ltb 0 (r.n - 1)
    then record s { refs = update s.refs t.iface (some (record r { n = r.n - 1 })) }
    else put_back s t writes_defer writes_gro

-- `restore`; a nil receiver is `none`. A count that is positive before it is lowered is not below 0 after.
unfoldable pub restore : State → Option NapiTuning → Option ℕ → Option ℕ → State
restore s none writes_defer writes_gro = s
restore s (some t) writes_defer writes_gro = elim (s.refs t.iface) [
  | none ↦ s
  | some r ↦ release s t r writes_defer writes_gro
]
