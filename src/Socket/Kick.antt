-- ===== src/Socket/Kick.antt =====
-- The retry loop of `Kick` (socket.go) against a kernel that keeps asking to be called again.
use go_afxdp.Prelude.{
  ℕ, zero, suc, ◌+◌, ◌-◌, ◌<◌, ◌≡◌, ap, min, none, List, [], ◌∷◌, arith, ltb, Bool-cases, inl, inr,
  ◌∙◌, if_true, if_false,
}
use go_afxdp.Socket.{Answer, eagain, kick_loop}

-- The kernel answers `EAGAIN` to the first `n` calls.
abbrev pub again : ℕ → List Answer
again zero = []
again (suc n) = eagain ∷ again n

-- With a positive budget of retries, a kernel that answers EAGAIN `n` times is called `n + 1` times or as
-- often as the budget says, whichever is less, and `Kick` reports no error: a condition that a kick
-- cannot clear does not keep it in the loop.
pub kick_loop_lem :
    (retries n : ℕ) → 0 < retries → kick_loop retries (again n) ≡ (min (n + 1) retries, none)
unfolding kick_loop
kick_loop_lem retries zero h = ap (λ c. (c, none)) (omega arith)
kick_loop_lem retries (suc n) h = elim (Bool-cases (ltb 0 (retries - 1))) [
  | inl c ↦
      if_true _ _ c
      ∙ ap (λ t. (suc t.0, t.1)) (kick_loop_lem (retries - 1) n (ground arith))
      ∙ ap (λ t. (t, none)) {x = suc (min (n + 1) (retries - 1))} {y = min (suc n + 1) retries}
          (omega arith)
  | inr c ↦
      if_false _ _ c ∙ ap (λ t. (t, none)) {x = 1} {y = min (suc n + 1) retries} (ground arith)
]
