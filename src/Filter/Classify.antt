-- ===== src/Filter/Classify.antt =====
-- The assembled filter as a decision: exceptions first, then the matches, any of which is enough.
use go_afxdp.Prelude.{
  ℕ, ◌+◌, ◌≡◌, ◌≢◌, refl, ap, sym, ◌∙◌, Bool, true, false, Option, none, some, List, [], ◌∷◌, ◌++◌,
  if◌then◌else◌, length, arith,
}
use go_afxdp.Ebpf.{
  Target, pass, redirect, except, accept, target_eq, Label, entry, Regs, pkt, Instr, Outcome, goto,
  Endian, exec,
}
use go_afxdp.Ebpf.Run.{onward, exec-append}
use go_afxdp.Filter.Match.{Match, built}
use go_afxdp.Filter.Program.{
  Assembled, code, rejected, emit, emit_all, validate_matches, classifier_blocks, check_block,
  after, is_nil, Violation, checked, unless, FilterError,
}

-- The registers on entry to a block: R6 is data_end and R7 the frame's start.
abbrev pub ready : List ℕ → Regs → Regs
ready frame s = record s { v6 = pkt (length frame); v7 = pkt 0 }

-- A match whose block, wherever it stands, jumps to `hit` if `b` holds and to `next` if not, with R6
-- and R7 as they were, and carries no other block's entry.
pub record Decides (host : Endian) (frame : List ℕ) (m : Match) (b : Bool) : Type 0 where
  pub block : Target → Target → Target → List Instr
  pub builds : m.build ≡ some (λ e n h. built (block e n h))
  pub enters :
      (e n h : Target) (s : Regs)
      → exec host frame (block e n h) (some (entry e)) s ≡ exec host frame (block e n h) none s
  pub skips :
      (e n h t : Target) (s : Regs)
      → target_eq e t ≡ false
      → exec host frame (block e n h) (some (entry t)) s ≡ goto (entry t) s
  pub runs :
      (e n h : Target) (s : Regs)
      → (s' : Regs) × (exec host frame (block e n h) none (ready frame s)
          ≡ goto (entry (if b then h else n)) (ready frame s'))

abbrev pub Verdicts : Endian → List ℕ → List Match → List Bool → Type 0
Verdicts host frame [] [] = Unit
Verdicts host frame [] (b ∷ bs) = ⊥
Verdicts host frame (m ∷ ms) [] = ⊥
Verdicts host frame (m ∷ ms) (b ∷ bs) = Decides host frame m b × Verdicts host frame ms bs

abbrev pub any : List Bool → Bool
any [] = false
any (b ∷ bs) = if b then true else any bs

abbrev pub instrs : Assembled → List Instr
instrs (code is) = is
instrs (rejected e) = []

pub after-code :
    (a b : Assembled) (is : List Instr)
    → after a b ≡ code is
    → (js : List Instr) × (ks : List Instr) × (a ≡ code js) × (b ≡ code ks) × (is ≡ js ++ ks)
after-code (rejected e) b is h = absurd (ground arith)
after-code (code js) (rejected e) is h = absurd (ground arith)
after-code (code js) (code ks) is h = (js, ks, refl, refl, sym (ap instrs h))

module _ (host : Endian) (frame : List ℕ) where
  checked-code :
      (is : List Instr) (v : Option (ℕ × Violation)) (js : List Instr)
      → checked is v ≡ code js
      → js ≡ is
  checked-code is (some (i, v)) js h = absurd (ground arith)
  checked-code is none js h = sym (ap instrs h)

  emit-code :
      (m : Match) (b : Bool) (d : Decides host frame m b) (e n h : Target) (js : List Instr)
      → emit m e n h ≡ code js
      → js ≡ d.block e n h
  unfolding emit
  emit-code m b d e n h js =
      rw d.builds (checked-code (d.block e n h) (check_block 0 (d.block e n h)) js)

  join :
      (is js : List Instr) (at : Option Label) (s : Regs) {o : Outcome}
      → exec host frame is at s ≡ o
      → exec host frame (is ++ js) at s ≡ onward host frame js o
  join is js at s e = exec-append host frame is js at s ∙ ap (onward host frame js) e

  -- The blocks of one loop of `classifierBlocks`.
  module _ (name : ℕ → Target) (last hit : Target)
      (hit_ne : (i : ℕ) → target_eq (name i) hit ≡ false) where
    emit_all-skips :
        (i : ℕ) (ms : List Match) (bs : List Bool)
        → Verdicts host frame ms bs
        → (is : List Instr) → emit_all name last hit i ms ≡ code is
        → (t : Target) → ((j : ℕ) → target_eq (name j) t ≡ false)
        → (s : Regs) → exec host frame is (some (entry t)) s ≡ goto (entry t) s
    unfolding emit_all onward exec
    emit_all-skips i [] [] v is h t ne s =
        ap (λ js. exec host frame js (some (entry t)) s) (sym (ap instrs h))
    emit_all-skips i [] (b ∷ bs) v is h t ne s = absurd v
    emit_all-skips i (m ∷ ms) [] v is h t ne s = absurd v
    emit_all-skips i (m ∷ ms) (b ∷ bs) (d, v) is h t ne s =
        let n = if is_nil ms then last else name (i + 1) in
        let (js, ks, he, hr, e) =
          after-code (emit m (name i) n hit) (emit_all name last hit (i + 1) ms) is h in
        rw (e, emit-code m b d (name i) n hit js he)
          (join (d.block (name i) n hit) ks (some (entry t)) s (d.skips (name i) n hit t s (ne i))
            ∙ emit_all-skips (i + 1) ms bs v ks hr t ne s)

    at_end :
        (b : Bool) (s : Regs)
        → onward host frame [] (goto (entry (if b then hit else last)) (ready frame s))
          ≡ goto (entry (if any (b ∷ []) then hit else last)) (ready frame s)
    unfolding onward exec
    at_end true s = refl
    at_end false s = refl

    onwards :
        (b c : Bool) (ks : List Instr) (s : Regs) (n : Target)
        → ((t : Regs) → exec host frame ks (some (entry hit)) t ≡ goto (entry hit) t)
        → (s' : Regs) × (exec host frame ks (some (entry n)) (ready frame s)
            ≡ goto (entry (if c then hit else last)) (ready frame s'))
        → (s' : Regs) × (onward host frame ks (goto (entry (if b then hit else n)) (ready frame s))
            ≡ goto (entry (if if b then true else c then hit else last)) (ready frame s'))
    unfolding onward
    onwards true c ks s n over go = (s, over (ready frame s))
    onwards false c ks s n over go = go

    emit_all-Run :
        (i : ℕ) (m : Match) (ms : List Match) (b : Bool) (bs : List Bool)
        → Verdicts host frame (m ∷ ms) (b ∷ bs)
        → (is : List Instr) → emit_all name last hit i (m ∷ ms) ≡ code is
        → ((s : Regs) → exec host frame is (some (entry (name i))) s ≡ exec host frame is none s)
          × ((s : Regs)
              → (s' : Regs) × (exec host frame is none (ready frame s)
                  ≡ goto (entry (if any (b ∷ bs) then hit else last)) (ready frame s')))
    unfolding emit_all onward exec
    emit_all-Run i m [] b (c ∷ bs) (d, v) is h = absurd v
    emit_all-Run i m (m' ∷ ms) b [] (d, v) is h = absurd v
    emit_all-Run i m [] b [] (d, v) is h =
        let (js, ks, he, hr, e) = after-code (emit m (name i) last hit) (code []) is h in
        let bl = d.block (name i) last hit in
        rw (e, emit-code m b d (name i) last hit js he, ← ap instrs hr)
          (
            (λ s.
                join bl [] (some (entry (name i))) s (d.enters (name i) last hit s)
                ∙ sym (exec-append host frame bl [] none s)),
            (λ s.
                let (s', r) = d.runs (name i) last hit s in
                (s', join bl [] none (ready frame s) r ∙ at_end b s')),
          )
    emit_all-Run i m (m' ∷ ms) b (b' ∷ bs) (d, v) is h =
        let n = name (i + 1) in
        let (js, ks, he, hr, e) =
          after-code (emit m (name i) n hit) (emit_all name last hit (i + 1) (m' ∷ ms)) is h in
        let bl = d.block (name i) n hit in
        let (enter, run) = emit_all-Run (i + 1) m' ms b' bs v ks hr in
        rw (e, emit-code m b d (name i) n hit js he)
          (
            (λ s.
                join bl ks (some (entry (name i))) s (d.enters (name i) n hit s)
                ∙ sym (exec-append host frame bl ks none s)),
            (λ s.
                let (s', r) = d.runs (name i) n hit s in
                let (s'', q) =
                  onwards b (any (b' ∷ bs)) ks s' n
                    (λ t. emit_all-skips (i + 1) (m' ∷ ms) (b' ∷ bs) v ks hr hit hit_ne t)
                    (let (u, w) = run s' in (u, enter (ready frame s') ∙ w)) in
                (s'', join bl ks none (ready frame s) r ∙ q)),
          )

  pub unless-code :
      (v : Option FilterError) (a : Assembled) (is : List Instr)
      → unless v a ≡ code is
      → a ≡ code is
  unless-code (some e) a is h = absurd (ground arith)
  unless-code none a is h = h

  both :
      (x : Bool) (c : Bool) (A B : List Instr) (s : Regs)
      → (s' : Regs) × (exec host frame A none (ready frame s)
          ≡ goto (entry (if x then pass else accept 0)) (ready frame s'))
      → ((t : Regs) → exec host frame B (some (entry pass)) t ≡ goto (entry pass) t)
      → ((t : Regs) → exec host frame B (some (entry (accept 0))) t ≡ exec host frame B none t)
      → ((t : Regs)
          → (t' : Regs) × (exec host frame B none (ready frame t)
              ≡ goto (entry (if c then redirect else pass)) (ready frame t')))
      → (s' : Regs) × (exec host frame (A ++ B) none (ready frame s)
          ≡ goto (entry (if x then pass else if c then redirect else pass)) (ready frame s'))
  unfolding onward
  both true c A B s (s', a) over enter run =
      (s', join A B none (ready frame s) a ∙ over (ready frame s'))
  both false c A B s (s', a) over enter run =
      let (t, r) = run s' in (t, join A B none (ready frame s) a ∙ enter (ready frame s') ∙ r)

  pub split :
      (exceptions matches : List Match) (is : List Instr)
      → classifier_blocks exceptions matches ≡ code is
      → (A : List Instr) × (B : List Instr) × (emit_all except (accept 0) pass 0 exceptions
          ≡ code A)
        × (emit_all accept pass redirect 0 matches ≡ code B)
        × (is ≡ A ++ B)
  unfolding classifier_blocks
  split exceptions matches is h =
      let a = emit_all except (accept 0) pass 0 exceptions in
      let b = emit_all accept pass redirect 0 matches in
      after-code a b is (unless-code (validate_matches exceptions matches) (after a b) is h)

  -- With the verdicts of each exception and each match on the frame, at least one match, and a filter that
  -- assembles, a run of the blocks from their start goes to "pass" if an exception takes the frame, else to
  -- "redirect" if a match takes it, and else to "pass"; R6 and R7 are kept.
  pub classifier_blocks_lem :
      (exceptions matches : List Match) (xs ys : List Bool) (is : List Instr) (s : Regs)
      → Verdicts host frame exceptions xs
      → Verdicts host frame matches ys
      → matches ≢ []
      → classifier_blocks exceptions matches ≡ code is
      → (s' : Regs) × (exec host frame is none (ready frame s)
          ≡ goto
              (entry (if any xs then pass else if any ys then redirect else pass))
              (ready frame s'))
  unfolding emit_all
  classifier_blocks_lem exceptions [] xs ys is s vx vy ne h = absurd (ne refl)
  classifier_blocks_lem exceptions (m ∷ ms) xs [] is s vx vy ne h = absurd vy
  classifier_blocks_lem [] (m ∷ ms) (x ∷ xs) (y ∷ ys) is s vx vy ne h = absurd vx
  classifier_blocks_lem (e ∷ es) (m ∷ ms) [] (y ∷ ys) is s vx vy ne h = absurd vx
  classifier_blocks_lem [] (m ∷ ms) [] (y ∷ ys) is s vx vy ne h =
      let (A, B, ha, hb, q) = split [] (m ∷ ms) is h in
      rw (q, ← ap instrs ha)
        ((emit_all-Run accept pass redirect (λ i. refl) 0 m ms y ys vy B hb).1 s)
  classifier_blocks_lem (e ∷ es) (m ∷ ms) (x ∷ xs) (y ∷ ys) is s vx vy ne h =
      let (A, B, ha, hb, q) = split (e ∷ es) (m ∷ ms) is h in
      let (enter, run) = emit_all-Run accept pass redirect (λ i. refl) 0 m ms y ys vy B hb in
      rw q (
        both (any (x ∷ xs)) (any (y ∷ ys)) A B s
          ((emit_all-Run except (accept 0) pass (λ i. refl) 0 e es x xs vx A ha).1 s)
          (λ t.
            emit_all-skips accept pass redirect (λ i. refl) 0 (m ∷ ms) (y ∷ ys) vy B hb pass
              (λ j. refl) t)
          enter run)
