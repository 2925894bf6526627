-- ===== src/Filter/Contract.antt =====
-- What `checkBlock` (match.go) guarantees of any block that it lets through.
use go_afxdp.Prelude.{
  ℕ, ◌+◌, ◌%◌, ◌^◌, ◌≡◌, refl, ◌∙◌, Bool, true, false, ◌||◌, Option, none, some, List, [], ◌∷◌,
  Bool-cases, inl, inr, arith, if◌then◌else◌, leb, ltb, ◌==◌, not, length, bit_and,
}
use go_afxdp.Ebpf.{
  Reg, r0, r1, r2, r3, r4, r5, r6, r7, r8, r9, r10, reg_eq, Label, Op, mov_reg, mov_imm, add_imm,
  and_imm, load_mem, store_mem, ja, jeq_imm, jeq_imm32, jne_imm, jne_imm32, jlt_imm, jgt_imm,
  jgt_reg, alu, ld, call, exit, Instr, Val, num, pkt, other, Regs, get, put, Outcome, goto, fell,
  returned, left, fault, Endian, Effect, jump, ret, leave, bad, bpf_tail_call, branch, on_num,
  load_from, add_to, past, step, carries, exec, Size, bytes, load,
}
use go_afxdp.Ebpf.Run.{resume}
use go_afxdp.Filter.Program.{mentions, writes_dst, is_exit, violation, check_block}

abbrev pub Keeps : Regs → Regs → Type 0
Keeps s t = (t.v6 ≡ s.v6) × (t.v7 ≡ s.v7) × (t.v8 ≡ s.v8)

abbrev is_tail_call : Op → Bool
is_tail_call (call n) = n == bpf_tail_call
is_tail_call _ = false

abbrev pub tail_calls : List Instr → Bool
tail_calls [] = false
tail_calls (i ∷ is) = is_tail_call i.op || tail_calls is

-- An outcome that is no action of the block's own, with R6, R7 and R8 kept; it leaves for another program only
-- if `leaves` holds.
abbrev pub WithinContract : Bool → Regs → Outcome → Type 0
WithinContract leaves s (goto l t) = Keeps s t
WithinContract leaves s (fell t) = Keeps s t
WithinContract leaves s (returned v) = ⊥
WithinContract leaves s left = leaves ≡ true
WithinContract leaves s fault = Unit

abbrev Safe : Bool → Regs → Effect → Type 0
Safe leaves s (Effect.next t) = Keeps s t
Safe leaves s (jump l t) = Keeps s t
Safe leaves s (ret v) = ⊥
Safe leaves s leave = leaves ≡ true
Safe leaves s bad = Unit

put-Keeps :
    (d : Reg) (v : Val) (s : Regs)
    → reg_eq d r6 ≡ false
    → reg_eq d r7 ≡ false
    → reg_eq d r8 ≡ false
    → Keeps s (put d v s)
put-Keeps r0 v s h k l = (refl, refl, refl)
put-Keeps r1 v s h k l = (refl, refl, refl)
put-Keeps r2 v s h k l = (refl, refl, refl)
put-Keeps r3 v s h k l = (refl, refl, refl)
put-Keeps r4 v s h k l = (refl, refl, refl)
put-Keeps r5 v s h k l = (refl, refl, refl)
put-Keeps r6 v s h k l = absurd (ground arith)
put-Keeps r7 v s h k l = absurd (ground arith)
put-Keeps r8 v s h k l = absurd (ground arith)
put-Keeps r9 v s h k l = (refl, refl, refl)
put-Keeps r10 v s h k l = (refl, refl, refl)

branch-Safe : (b : Bool) (l : Label) (s : Regs) → Safe false s (branch b l s)
branch-Safe true l s = (refl, refl, refl)
branch-Safe false l s = (refl, refl, refl)

test-Safe :
    (v : Val) (f : ℕ → Bool) (l : Label) (s : Regs)
    → Safe false s (on_num v (λ n. branch (f n) l s))
test-Safe (num n) f l s = branch-Safe (f n) l s
test-Safe (pkt o) f l s = tt
test-Safe other f l s = tt

past-Safe : (v w : Val) (l : Label) (s : Regs) → Safe false s (past v w l s)
past-Safe (num a) (num b) l s = branch-Safe (ltb b a) l s
past-Safe (pkt a) (pkt b) l s = branch-Safe (ltb b a) l s
past-Safe (num a) (pkt b) l s = tt
past-Safe (num a) other l s = tt
past-Safe (pkt a) (num b) l s = tt
past-Safe (pkt a) other l s = tt
past-Safe other w l s = tt

put-clean :
    (d : Reg) (s : Regs)
    → reg_eq d r6 ≡ false
    → reg_eq d r7 ≡ false
    → reg_eq d r8 ≡ false
    → (v : Val) → Keeps s (put d v s)
put-clean d s h k l v = put-Keeps d v s h k l

add-Safe :
    (v : Val) (k : ℕ) (d : Reg) (s : Regs)
    → ((x : Val) → Keeps s (put d x s))
    → Safe false s (add_to v k d s)
add-Safe (num n) k d s h = h (num ((n + k) % 2 ^ 64))
add-Safe (pkt o) k d s h = h (pkt (o + k))
add-Safe other k d s h = tt

and-Safe :
    (v : Val) (k : ℕ) (d : Reg) (s : Regs)
    → ((x : Val) → Keeps s (put d x s))
    → Safe false s (on_num v (λ n. Effect.next (put d (num (bit_and n k)) s)))
and-Safe (num n) k d s h = h (num (bit_and n k))
and-Safe (pkt o) k d s h = tt
and-Safe other k d s h = tt

if-Safe : (b : Bool) (t s : Regs) → Keeps s t → Safe false s (if b then Effect.next t else bad)
if-Safe true t s h = h
if-Safe false t s h = tt

load-Safe :
    (e : Endian) (frame : List ℕ) (v : Val) (off : ℕ) (size : Size) (d : Reg) (s : Regs)
    → ((x : Val) → Keeps s (put d x s))
    → Safe false s (load_from e frame v off size d s)
load-Safe e frame (num n) off size d s h = tt
load-Safe e frame (pkt o) off size d s h =
    if-Safe (leb (o + off + bytes size) (length frame))
      (put d (num (load e frame (o + off) size)) s) s (h (num (load e frame (o + off) size)))
load-Safe e frame other off size d s h = h other

or_left : (a b : Bool) → a || b ≡ false → a ≡ false
or_left a b h = ground arith

record Clean (o : Op) : Type 0 where
  no_r8 : mentions o r8 ≡ false
  no_r6 : writes_dst o r6 ≡ false
  no_r7 : writes_dst o r7 ≡ false
  no_exit : is_exit o ≡ false

violation-Clean : (o : Op) → violation o ≡ none → Clean o
unfolding violation
violation-Clean o h = ground arith

step-Safe :
    (e : Endian) (frame : List ℕ) (o : Op) (s : Regs)
    → Clean o
    → Safe (is_tail_call o) s (step e frame o s)
unfolding step
step-Safe e frame (mov_reg d r) s c =
    put-Keeps d (get s r) s c.no_r6 c.no_r7 (or_left (reg_eq d r8) (reg_eq r r8) c.no_r8)
step-Safe e frame (mov_imm d k) s c = put-Keeps d (num k) s c.no_r6 c.no_r7 c.no_r8
step-Safe e frame (add_imm d k) s c =
    add-Safe (get s d) k d s (put-clean d s c.no_r6 c.no_r7 c.no_r8)
step-Safe e frame (and_imm d k) s c =
    and-Safe (get s d) k d s (put-clean d s c.no_r6 c.no_r7 c.no_r8)
step-Safe e frame (load_mem d r off size) s c =
    load-Safe e frame (get s r) off size d s
      (put-clean d s c.no_r6 c.no_r7 (or_left (reg_eq d r8) (reg_eq r r8) c.no_r8))
step-Safe e frame (store_mem d off r size) s c = (refl, refl, refl)
step-Safe e frame (ja l) s c = (refl, refl, refl)
step-Safe e frame (jeq_imm d k l) s c = test-Safe (get s d) (λ n. n == k) l s
step-Safe e frame (jeq_imm32 d k l) s c = test-Safe (get s d) (λ n. n % 2 ^ 32 == k) l s
step-Safe e frame (jne_imm d k l) s c = test-Safe (get s d) (λ n. not (n == k)) l s
step-Safe e frame (jne_imm32 d k l) s c = test-Safe (get s d) (λ n. not (n % 2 ^ 32 == k)) l s
step-Safe e frame (jlt_imm d k l) s c = test-Safe (get s d) (λ n. ltb n k) l s
step-Safe e frame (jgt_imm d k l) s c = test-Safe (get s d) (λ n. ltb k n) l s
step-Safe e frame (jgt_reg d r l) s c = past-Safe (get s d) (get s r) l s
step-Safe e frame (alu d r) s c =
    put-Keeps d other s c.no_r6 c.no_r7 (or_left (reg_eq d r8) (reg_eq r r8) c.no_r8)
step-Safe e frame (ld d r) s c =
    put-Keeps d other s c.no_r6 c.no_r7 (or_left (reg_eq d r8) (reg_eq r r8) c.no_r8)
step-Safe e frame (call n) s c = elim (Bool-cases (n == bpf_tail_call)) [
  | inl h ↦ rw h refl
  | inr h ↦ rw h (refl, refl, refl)
]
step-Safe e frame exit s c = absurd (ground (arith, c.no_exit))

check_block-cons :
    (i : ℕ) (x : Instr) (xs : List Instr)
    → check_block i (x ∷ xs) ≡ none
    → (violation x.op ≡ none) × (check_block (i + 1) xs ≡ none)
unfolding check_block
check_block-cons i x xs h = ground arith

onto :
    (leaves more : Bool) (s t : Regs)
    → Keeps s t
    → (o : Outcome) → WithinContract more t o
    → WithinContract (leaves || more) s o
onto leaves more s t (a, b, c) (goto l u) (x, y, z) = (x ∙ a, y ∙ b, z ∙ c)
onto leaves more s t (a, b, c) (fell u) (x, y, z) = (x ∙ a, y ∙ b, z ∙ c)
onto leaves more s t k (returned v) w = w
onto leaves more s t k left w = ground arith
onto leaves more s t k fault w = tt

resume-Safe :
    (e : Endian) (frame : List ℕ) (is : List Instr) (leaves : Bool) (s : Regs) (x : Effect)
    → Safe leaves s x
    → ((at : Option Label) (t : Regs) → WithinContract (tail_calls is) t (exec e frame is at t))
    → WithinContract (leaves || tail_calls is) s (resume e frame is x)
resume-Safe e frame is leaves s (Effect.next t) h go =
    onto leaves (tail_calls is) s t h (exec e frame is none t) (go none t)
resume-Safe e frame is leaves s (jump l t) h go =
    onto leaves (tail_calls is) s t h (exec e frame is (some l) t) (go (some l) t)
resume-Safe e frame is leaves s (ret v) h go = absurd h
resume-Safe e frame is leaves s leave h go = ground arith
resume-Safe e frame is leaves s bad h go = tt

-- A block of the instructions modelled that `checkBlock` lets through, on any frame, from any registers, from
-- its start or from any of its labels, and up to a jump back or its end: it returns no action of its own, it
-- keeps R6, R7 and R8 wherever it goes on, and it leaves for another program only if it has a tail call,
-- which `checkBlock` does not look for.
pub check_block-WithinContract :
    (e : Endian) (frame : List ℕ) (i : ℕ) (is : List Instr)
    → check_block i is ≡ none
    → (at : Option Label) (s : Regs) → WithinContract (tail_calls is) s (exec e frame is at s)
unfolding exec
check_block-WithinContract e frame i [] h none s = (refl, refl, refl)
check_block-WithinContract e frame i [] h (some l) s = (refl, refl, refl)
check_block-WithinContract e frame i (x ∷ xs) h none s =
    let (v, rest) = check_block-cons i x xs h in
    resume-Safe e frame xs (is_tail_call x.op) s (step e frame x.op s)
      (step-Safe e frame x.op s (violation-Clean x.op v))
      (check_block-WithinContract e frame (i + 1) xs rest)
check_block-WithinContract e frame i (x ∷ xs) h (some l) s =
    let (v, rest) = check_block-cons i x xs h in
    elim (Bool-cases (carries x l)) [
      | inl c ↦
          rw (exec, c)
            (resume-Safe e frame xs (is_tail_call x.op) s (step e frame x.op s)
              (step-Safe e frame x.op s (violation-Clean x.op v))
              (check_block-WithinContract e frame (i + 1) xs rest))
      | inr c ↦
          rw (exec, c)
            (onto (is_tail_call x.op) (tail_calls xs) s s (refl, refl, refl)
              (exec e frame xs (some l) s)
              (check_block-WithinContract e frame (i + 1) xs rest (some l) s))
    ]
