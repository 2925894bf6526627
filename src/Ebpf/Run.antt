-- ===== src/Ebpf/Run.antt =====
-- Runs of code put together from parts: what leaves a part enters the next one.
use go_afxdp.Prelude.{
  ℕ, ◌≡◌, refl, Bool, true, false, Option, none, some, List, [], ◌∷◌, ◌++◌, Bool-cases, inl, inr,
  ==_refl, arith,
}
use go_afxdp.Ebpf.{
  Target, pass, redirect, except, accept, Label, entry, inner, target_eq, Instr, Regs, Outcome,
  goto, fell, returned, left, fault, Endian, Effect, jump, ret, leave, bad, step, carries, exec,
}

-- What happens after a part.
unfoldable pub onward : Endian → List ℕ → List Instr → Outcome → Outcome
onward e frame rest (fell s) = exec e frame rest none s
onward e frame rest (goto l s) = exec e frame rest (some l) s
onward e frame rest (returned v) = returned v
onward e frame rest left = left
onward e frame rest fault = fault

abbrev pub resume : Endian → List ℕ → List Instr → Effect → Outcome
resume e frame is x = elim x [
  | Effect.next t ↦ exec e frame is none t
  | jump l t ↦ exec e frame is (some l) t
  | ret v ↦ returned v
  | leave ↦ left
  | bad ↦ fault
]

resume-append :
    (e : Endian) (frame : List ℕ) (is js : List Instr)
    → ((at : Option Label) (s : Regs)
        → exec e frame (is ++ js) at s ≡ onward e frame js (exec e frame is at s))
    → (x : Effect) → resume e frame (is ++ js) x ≡ onward e frame js (resume e frame is x)
unfolding onward
resume-append e frame is js h (Effect.next t) = h none t
resume-append e frame is js h (jump l t) = h (some l) t
resume-append e frame is js h (ret v) = refl
resume-append e frame is js h leave = refl
resume-append e frame is js h bad = refl

pub exec-append :
    (e : Endian) (frame : List ℕ) (is js : List Instr) (at : Option Label) (s : Regs)
    → exec e frame (is ++ js) at s ≡ onward e frame js (exec e frame is at s)
unfolding exec onward
exec-append e frame [] js none s = refl
exec-append e frame [] js (some l) s = refl
exec-append e frame (i ∷ is) js none s =
    resume-append e frame is js (exec-append e frame is js) (step e frame i.op s)
exec-append e frame (i ∷ is) js (some l) s = elim (Bool-cases (carries i l)) [
  | inl h ↦
      rw (exec, h) (resume-append e frame is js (exec-append e frame is js) (step e frame i.op s))
  | inr h ↦ rw (exec, h) (exec-append e frame is js (some l) s)
]

-- No instruction is the entry of a block.
unfoldable pub no_entry : List Instr → Bool
no_entry [] = true
no_entry (i ∷ is) = elim i.symbol [
  | none ↦ no_entry is
  | some (entry t) ↦ false
  | some (inner t a) ↦ no_entry is
]

pub no_entry-append :
    (is js : List Instr) → no_entry is ≡ true → no_entry js ≡ true → no_entry (is ++ js) ≡ true
unfolding no_entry
no_entry-append [] js h k = k
no_entry-append (i ∷ is) js h k = ground (arith, no_entry-append is js)

-- A jump to the entry of a block passes over code without entries.
pub over :
    (e : Endian) (frame : List ℕ) (is : List Instr) (t : Target) (s : Regs)
    → no_entry is ≡ true
    → exec e frame is (some (entry t)) s ≡ goto (entry t) s
unfolding exec no_entry
over e frame [] t s h = refl
over e frame (i ∷ is) t s h = ground (arith, over e frame is t s)

-- No instruction carries a label.
unfoldable pub unlabelled : List Instr → Bool
unlabelled [] = true
unlabelled (i ∷ is) = elim i.symbol [ none ↦ unlabelled is | some l ↦ false ]

pub past_unlabelled :
    (e : Endian) (frame : List ℕ) (is : List Instr) (l : Label) (s : Regs)
    → unlabelled is ≡ true
    → exec e frame is (some l) s ≡ goto l s
unfolding exec unlabelled
past_unlabelled e frame [] l s h = refl
past_unlabelled e frame (i ∷ is) l s h = ground (arith, past_unlabelled e frame is l s)

pub target_eq_refl : (t : Target) → target_eq t t ≡ true
target_eq_refl pass = refl
target_eq_refl redirect = refl
target_eq_refl (except i) = ==_refl i
target_eq_refl (accept i) = ==_refl i
