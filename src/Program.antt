-- ===== src/Program.antt =====
-- program.go: `Program`, the loaded XDP program with its two maps and its link, and what its methods do to
-- it and to the interface. A call to the kernel takes its answer: an errno or none. A call that fails
-- changes nothing, but for the closing of a descriptor, which is gone whatever the answer.
pub mod Routes
use go_afxdp.Prelude.{
  ℕ, zero, Bool, true, false, not, ◌||◌, Option, none, some, ◌==◌, if◌then◌else◌,
}
use go_afxdp.Redirect.{Maps}

-- `BPF_F_XDP_HAS_FRAGS`
abbrev pub has_frags : ℕ
has_frags = 32

abbrev pub frags_flag : Bool → ℕ
frags_flag frags = if frags then has_frags else 0

-- The program has its maps or, for a pass-only program, none. `link`: it is attached by a BPF link.
pub record Program : Type 0 where
  pub loaded : Bool
  pub maps : Option Maps
  pub link : Bool

-- `newRedirectProgram`, once the kernel has made the maps, every queue off, and loaded the program.
abbrev pub new_maps : ℕ → Maps
new_maps max_queues = record { max_entries = max_queues; qidconf = λ _. 0; xsks = λ _. none }

abbrev pub new_program : ℕ → Program
new_program max_queues = record { loaded = true; maps = some (new_maps max_queues); link = false }

-- The interface: the flags of the XDP program that is attached to it.
abbrev pub Attached : Type 0
Attached = Option ℕ

abbrev pub update {ℓ} : {A : Type ℓ} → (ℕ → A) → ℕ → A → ℕ → A
update f q v i = if i == q then v else f i

-- `Map.Put` and `Map.Delete`, each with the kernel's answer.
abbrev put_socket : Maps → ℕ → ℕ → Option ℕ → Maps
put_socket m q fd none = record m { xsks = update m.xsks q (some fd) }
put_socket m q fd (some e) = m

abbrev put_queue : Maps → ℕ → ℕ → Option ℕ → Maps
put_queue m q v none = record m { qidconf = update m.qidconf q v }
put_queue m q v (some e) = m

abbrev delete_socket : Maps → ℕ → Option ℕ → Maps
delete_socket m q none = record m { xsks = update m.xsks q none }
delete_socket m q (some e) = m

abbrev pub enable : Maps → ℕ → ℕ → Option ℕ → Option ℕ → Maps × Option ℕ
enable m q fd none puts_queue = (put_queue (put_socket m q fd none) q 1 puts_queue, puts_queue)
enable m q fd (some e) puts_queue = (m, some e)

abbrev pub disable : Maps → ℕ → Option ℕ → Option ℕ → Maps × Option ℕ
disable m q none deletes = (delete_socket (put_queue m q 0 none) q deletes, deletes)
disable m q (some e) deletes = (m, some e)

abbrev on_maps : Program → (Maps → Maps × Option ℕ) → Program × Option ℕ
on_maps p f = elim p.maps [
  | none ↦ (p, none)
  | some m ↦ let (m', e) = f m in (record p { maps = some m' }, e)
]

-- `Register`, with the kernel's answers for the socket and for the queue.
unfoldable pub register : Program → ℕ → ℕ → Option ℕ → Option ℕ → Program × Option ℕ
register p q fd puts_socket puts_queue = on_maps p (λ m. enable m q fd puts_socket puts_queue)

unfoldable pub unregister : Program → ℕ → Option ℕ → Option ℕ → Program × Option ℕ
unregister p q puts_queue deletes = on_maps p (λ m. disable m q puts_queue deletes)

-- What the kernel says to the removal of a program by netlink: that it cannot look the interface up, that it
-- refuses (the program is held by another process's link), or yes.
pub data Removal : Type 0 where
  no_interface held_by_link : ℕ → Removal
  removes : Removal

-- `removeProgram`. The wait for the kernel to have it done is left out.
unfoldable pub remove_program : Attached → Removal → Attached × Option ℕ
remove_program a (no_interface e) = (a, some e)
remove_program none (held_by_link e) = (none, none)
remove_program (some f) (held_by_link e) = (some f, some e)
remove_program a removes = (none, none)

-- The kernel's answer to the attaching of a link, and to the netlink call that stands in where links are
-- not supported.
pub data Linking : Type 0 where
  linked : Linking
  unsupported : Option ℕ → Linking
  denied : ℕ → Linking

abbrev fall_back : Program → Attached → ℕ → Option ℕ → Program × Attached × Option ℕ
fall_back p a flags none = (p, some flags, none)
fall_back p a flags (some e) = (p, a, some e)

abbrev pub link_to : Program → Attached → ℕ → Linking → Program × Attached × Option ℕ
link_to p a flags linked = (record p { link = true }, some flags, none)
link_to p a flags (denied e) = (p, a, some e)
link_to p a flags (unsupported answer) = fall_back p a flags answer

unfoldable pub attach : Program → Attached → ℕ → Removal → Linking → Program × Attached × Option ℕ
attach p a flags removal linking =
    let (a', e) = remove_program a removal in
    elim e [ some e' ↦ (p, a', some e') | none ↦ link_to p a' flags linking ]

-- `Detach`, with the answers to the closing of the link and to the removal by netlink.
unfoldable pub detach : Program → Attached → Option ℕ → Removal → Program × Attached × Option ℕ
detach p a closes removal =
    let (a', e) = remove_program a removal in
    if p.link then (record p { link = false }, none, closes) else (p, a', e)

abbrev pub first_error : Option ℕ → Option ℕ → Option ℕ
first_error (some e) e' = some e
first_error none e' = e'

-- The answers to the closing of the link, of the two maps and of the program.
pub record Closing : Type 0 where
  pub closes_link : Option ℕ
  pub closes_sockets : Option ℕ
  pub closes_queues : Option ℕ
  pub closes_program : Option ℕ

abbrev asked : Bool → Option ℕ → Option ℕ
asked b e = if b then e else none

abbrev has_maps : Program → Bool
has_maps p = elim p.maps [ none ↦ false | some m ↦ true ]

abbrev pub closed_program : Program
closed_program = record { loaded = false; maps = none; link = false }

-- `Close`
unfoldable pub close : Program → Attached → Closing → Program × Attached × Option ℕ
close p a c = (
  closed_program,
  if p.link then none else a,
  first_error (asked p.link c.closes_link) (
      first_error (asked (has_maps p) c.closes_sockets)
        (first_error (asked (has_maps p) c.closes_queues) (asked p.loaded c.closes_program))),
)
