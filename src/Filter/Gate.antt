-- ===== src/Filter/Gate.antt =====
-- Where the program of `newFilterProgram` (filter.go) sends a frame: the blocks decide whether it is
-- wanted, and then the queue whether there is a socket for it.
use go_afxdp.Prelude.{
  ℕ, ◌+◌, ◌≡◌, ◌≢◌, refl, ap, ◌∙◌, sym, Bool, true, false, Option, none, some, List, [], ◌∷◌, ◌++◌,
  if◌then◌else◌, ltb, ◌==◌, length, Bool-cases, inl, inr, arith, if_true, if_false, take, drop,
  Option-cases, subst,
}
use go_afxdp.Ebpf.{
  r0, Target, pass, redirect, except, accept, entry, Instr, Regs, Val, goto, Endian,
}
use go_afxdp.Redirect.{Maps, Verdict, qidconf_map, xsks_map, passed}
use go_afxdp.Redirect.Route.{to_socket}
use go_afxdp.Filter.Match.{Match, Built, built, failed}
use go_afxdp.Filter.Program.{
  code, rejected, emit, emit_all, check_block, classifier_blocks, Violation, checked, is_nil,
  bad_match,
}
use go_afxdp.Filter.Contract.{tail_calls, WithinContract, check_block-WithinContract}
use go_afxdp.Filter.Classify.{
  ready, Verdicts, any, classifier_blocks_lem, instrs, after-code, split,
}
use go_afxdp.Filter.Tail.{
  State, Value, set_reg, value, num, map_at, kept, entry_of, chosen, prologue, redirect_tail,
  redirect_to, effects, run_tail, at_pass, at_redirect, at_entry, to_regs, of_regs, go_on,
  filter_program,
}

-- The contract of the redirect tail: on a queue that is not enabled, or beyond the maps, the kernel gets
-- the frame; on an enabled one the queue's socket does, and without a socket the frame is dropped.
unfoldable pub gate : Maps → ℕ → Verdict
gate m q =
    if ltb q m.max_entries
    then (if m.qidconf q == 0 then passed else to_socket (m.xsks q))
    else passed

module _ (m : Maps) (q n : ℕ) where
  at_pass_lem : (s : State) → at_pass m q n s ≡ passed
  unfolding at_pass
  at_pass_lem s = refl

  -- The state at the first call, and what is left to run once its answer is there.
  abbrev asking : Regs → State
  asking t = effects m q n (take 4 redirect_tail) (of_regs t)

  unfoldable after_lookup : Regs → Value → Verdict
  after_lookup t v = run_tail m q n (at_pass m q n) (drop 5 redirect_tail) (set_reg r0 v (asking t))

  unfoldable after_redirect : Regs → ℕ → Option ℕ → Verdict
  after_redirect t k fd = run_tail m q n (at_pass m q n) (drop 12 redirect_tail) (
      redirect_to fd
        (effects m q n (take 5 (drop 6 redirect_tail)) (set_reg r0 (value k) (asking t))))

  to_lookup :
      (t : Regs)
      → at_redirect m q n (of_regs t) ≡ after_lookup t (entry_of m qidconf_map (kept t.v8))
  unfolding at_redirect after_lookup run_tail
  to_lookup t = refl

  no_entry_passes : (t : Regs) → after_lookup t (num 0) ≡ passed
  unfolding after_lookup run_tail at_pass
  no_entry_passes t = refl

  to_redirect :
      (t : Regs) (k : ℕ)
      → after_lookup t (value k)
        ≡ (if k == 0 then passed else after_redirect t k (chosen m (map_at xsks_map) (kept t.v8)))
  unfolding after_lookup after_redirect run_tail at_pass
  to_redirect t k = refl

  after_redirect-to_socket :
      (t : Regs) (k : ℕ) (fd : Option ℕ) → after_redirect t k fd ≡ to_socket fd
  unfolding after_redirect run_tail
  after_redirect-to_socket t k none = refl
  after_redirect-to_socket t k (some fd) = refl

  at_redirect_lem : (t : Regs) → t.v8 ≡ Val.num q → at_redirect m q n (of_regs t) ≡ gate m q
  unfolding gate
  at_redirect_lem t h =
      let start = to_lookup t ∙ ap (λ v. after_lookup t (entry_of m qidconf_map (kept v))) h in
      elim (Bool-cases (ltb q m.max_entries)) [
        | inl c ↦
            start
            ∙ ap (after_lookup t) (if_true _ _ c)
            ∙ to_redirect t (m.qidconf q)
            ∙ ap (λ v. if m.qidconf q == 0 then passed else v)
                (after_redirect-to_socket t (m.qidconf q) (chosen m (map_at xsks_map) (kept t.v8))
                  ∙ ap (λ v. to_socket (chosen m (map_at xsks_map) (kept v))) h
                  ∙ ap to_socket (if_true _ _ c))
            ∙ sym (if_true _ _ c)
        | inr c ↦
            start ∙ ap (after_lookup t) (if_false _ _ c) ∙ no_entry_passes t ∙ sym (if_false _ _ c)
      ]

-- Each block that is emitted has been checked, so all of them together are within the contract.
check_block-index : (i j : ℕ) (is : List Instr) → check_block i is ≡ none → check_block j is ≡ none
unfolding check_block
check_block-index i j [] h = refl
check_block-index i j (x ∷ is) h = ground (arith, check_block-index (i + 1) (j + 1) is)

check_block-append :
    (i : ℕ) (is js : List Instr)
    → check_block i is ≡ none
    → check_block 0 js ≡ none
    → check_block i (is ++ js) ≡ none
unfolding check_block
check_block-append i [] js h k = check_block-index 0 i js k
check_block-append i (x ∷ is) js h k = ground (arith, check_block-append (i + 1) is js)

checked-none :
    (is js : List Instr) (v : Option (ℕ × Violation))
    → v ≡ check_block 0 is
    → checked is v ≡ code js
    → check_block 0 js ≡ none
checked-none is js (some (i, w)) e h = absurd (ground arith)
checked-none is js none e h = rw (← ap instrs h) (sym e)

built-none :
    (b : Built) (js : List Instr)
    → elim b [ failed e ↦ rejected (bad_match e) | built is ↦ checked is (check_block 0 is) ]
      ≡ code js
    → check_block 0 js ≡ none
built-none (failed e) js h = absurd (ground arith)
built-none (built is) js h = checked-none is js (check_block 0 is) refl h

emit-none :
    (m : Match) (e n h : Target) (js : List Instr)
    → emit m e n h ≡ code js
    → check_block 0 js ≡ none
unfolding emit
emit-none m e n h js k = elim (Option-cases m.build) [
  | inl missing ↦ absurd (ground (arith, missing))
  | inr (f, some_f) ↦ built-none (f e n h) js (rw some_f at k)
]

emit_all-none :
    (name : ℕ → Target) (last hit : Target) (i : ℕ) (ms : List Match) (is : List Instr)
    → emit_all name last hit i ms ≡ code is
    → check_block 0 is ≡ none
unfolding emit_all check_block
emit_all-none name last hit i [] is h = rw (← ap instrs h) refl
emit_all-none name last hit i (m ∷ ms) is h =
    let n = if is_nil ms then last else name (i + 1) in
    let (js, ks, he, hr, e) =
      after-code (emit m (name i) n hit) (emit_all name last hit (i + 1) ms) is h in
    rw e (
      check_block-append 0 js ks (emit-none m (name i) n hit js he)
        (emit_all-none name last hit (i + 1) ms ks hr))

module _ (host : Endian) (frame : List ℕ) where
  classifier_blocks-none :
      (exceptions matches : List Match) (is : List Instr)
      → classifier_blocks exceptions matches ≡ code is
      → check_block 0 is ≡ none
  classifier_blocks-none exceptions matches is h =
      let (A, B, ha, hb, e) = split host frame exceptions matches is h in
      rw e (
        check_block-append 0 A B (emit_all-none except (accept 0) pass 0 exceptions A ha)
          (emit_all-none accept pass redirect 0 matches B hb))

  -- The registers at the start of the blocks.
  abbrev started : Maps → ℕ → Regs
  started m q = to_regs (effects m q (length frame) prologue at_entry)

  goes_on :
      (m : Maps) (q : ℕ) (x y : Bool) (t : Regs)
      → t.v8 ≡ Val.num q
      → go_on m q
          (length frame)
          (goto (entry (if x then pass else if y then redirect else pass)) (ready frame t))
        ≡ (if x then passed else if y then gate m q else passed)
  goes_on m q true y t h = at_pass_lem m q (length frame) (of_regs (ready frame t))
  goes_on m q false true t h = at_redirect_lem m q (length frame) (ready frame t) h
  goes_on m q false false t h = at_pass_lem m q (length frame) (of_regs (ready frame t))

  -- With the verdicts of each exception and each match on the frame, at least one match, and a filter that
  -- assembles, the whole program passes the frame to the kernel if an exception takes it or no match does,
  -- and otherwise sends it where the maps say for the queue that it came in on: whatever the blocks do,
  -- that is the queue of the context.
  pub filter_program_lem :
      (m : Maps) (q : ℕ) (exceptions matches : List Match) (xs ys : List Bool) (is : List Instr)
      → Verdicts host frame exceptions xs
      → Verdicts host frame matches ys
      → matches ≢ []
      → classifier_blocks exceptions matches ≡ code is
      → filter_program host m q frame is
        ≡ (if any xs then passed else if any ys then gate m q else passed)
  unfolding filter_program
  filter_program_lem m q exceptions matches xs ys is vx vy ne h =
      let (s', r) =
        classifier_blocks_lem host frame exceptions matches xs ys is (started m q) vx vy ne h in
      let end = entry (if any xs then pass else if any ys then redirect else pass) in
      let within =
        check_block-WithinContract host frame 0 is (classifier_blocks-none exceptions matches is h)
          none (started m q) in
      let keeps : WithinContract (tail_calls is) (started m q) (goto end (ready frame s')) =
        subst (WithinContract (tail_calls is) (started m q)) r within in
      ap (go_on m q (length frame)) r ∙ goes_on m q (any xs) (any ys) s' keeps.2
