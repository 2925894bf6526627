-- ===== src/Program/Routes.antt =====
-- No queue is enabled without a socket, whatever fails.
use go_afxdp.Prelude.{ℕ, ◌≡◌, Option, some, List, [], ◌∷◌, ◌⊎◌}
use go_afxdp.Redirect.{Maps, passed, redirected, verdict}
use go_afxdp.Program.{Program, register, unregister}

-- A call of Register or Unregister, with the kernel's answers.
pub data Call : Type 0 where
  registers : (q fd : ℕ) → Option ℕ → Option ℕ → Call
  unregisters : (q : ℕ) → Option ℕ → Option ℕ → Call

abbrev run : Program → Call → Program
run p (registers q fd a b) = (register p q fd a b).0
run p (unregisters q a b) = (unregister p q a b).0

unfoldable pub run_all : Program → List Call → Program
run_all p [] = p
run_all p (c ∷ cs) = run_all (run p c) cs

-- The queue is off, or has a socket.
abbrev Served : Maps → ℕ → Type 0
Served m q = (m.qidconf q ≡ 0) ⊎ ((fd : ℕ) × (m.xsks q ≡ some fd))

-- A program with maps of `k` entries, no queue of which is on without a socket.
abbrev pub IsServed : ℕ → Program → Type 0
IsServed k p = (m : Maps) × (p.maps ≡ some m) × (m.max_entries ≡ k) × ((q : ℕ) → Served m q)

-- A frame goes to the kernel or to the socket that stands in the map: it is not dropped.
abbrev pub Delivered : Maps → ℕ → Type 0
Delivered m q =
    (verdict m q ≡ passed) ⊎ ((fd : ℕ) × (verdict m q ≡ redirected fd) × (m.xsks q ≡ some fd))
