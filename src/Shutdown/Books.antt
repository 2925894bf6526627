-- ===== src/Shutdown/Books.antt =====
-- What every step keeps: `ops` is what the goroutines have added, and nothing is torn down under a method.
use go_afxdp.Prelude.{
  ℕ, ◌+◌, ◌<◌, ◌≤◌, ◌≡◌, refl, ap, sym, ◌∙◌, subst, Bool, true, false, not, List, [], ◌∷◌, ◌++◌,
  ltb, arith, ◌||◌, All, Bool-cases, inl, inr,
}
use go_afxdp.Shutdown.{
  Place, at_rest, counted, undoing, to_poll, polling, Thread, Closer, none_yet, waking, waiting,
  tearing, finished, State, Move, stay, move, first_load, add_one, second_load, undo, decref,
  Proceeds, adds, loads, undoes, returns, starts_poll, wakes_up, Acts, proceeds, calls, polled,
  swap_closing, write_wake, load_ops, tear_down, Step, acts, turned_away, spawns, closes, wakes,
  waits, tears,
}

abbrev pub adds_up {ℓ} : {A : Type ℓ} → (A → ℕ) → List A → ℕ
adds_up f [] = 0
adds_up f (x ∷ xs) = f x + adds_up f xs

pub adds_up-append {ℓ} :
    {A : Type ℓ} (f : A → ℕ) (xs ys : List A) → adds_up f (xs ++ ys) ≡ adds_up f xs + adds_up f ys
adds_up-append f [] ys = omega arith
adds_up-append f (x ∷ xs) ys = omega (arith, adds_up-append f xs ys)

abbrev counts : Place → ℕ
counts counted = 1
counts undoing = 1
counts _ = 0

-- A goroutine's share of `ops`.
abbrev pub share : Thread → ℕ
share t = t.depth + counts t.place

abbrev in_poll : Place → Bool
in_poll to_poll = true
in_poll polling = true
in_poll _ = false

-- It is in a method, whose body may touch the rings and the descriptors.
abbrev pub uses : Thread → Bool
uses t = ltb 0 t.depth || in_poll t.place

abbrev pub depths : List Thread → ℕ
depths = adds_up (λ t. t.depth)

abbrev is_none : Closer → Bool
is_none none_yet = true
is_none _ = false

abbrev pub is_past : Closer → Bool
is_past tearing = true
is_past finished = true
is_past _ = false

abbrev has_woken : Closer → Bool
has_woken none_yet = false
has_woken waking = false
has_woken _ = true

abbrev is_finished : Closer → Bool
is_finished finished = true
is_finished _ = false

abbrev pub PollsInside : Thread → Type 0
PollsInside t = in_poll t.place ≡ true → 0 < t.depth

pub record IsConsistent (s : State) : Type 0 where
  pub count : s.ops ≡ adds_up share s.threads
  pub flag : s.closing ≡ not (is_none s.closer)
  pub told : has_woken s.closer ≡ true → s.woken ≡ true
  pub mapping : s.live ≡ not (is_finished s.closer)
  pub quiet : is_past s.closer ≡ true → depths s.threads ≡ 0
  pub inside : All PollsInside s.threads

-- What an act does to a goroutine's share of `ops` and to its depth.
record Accounts (closing : Bool) (ops : ℕ) (t : Thread) (ops' : ℕ) (t' : Thread) : Type 0 where
  balance : ops' + share t ≡ ops + share t'
  closed : closing ≡ true → t'.depth ≤ t.depth
  polls : PollsInside t → PollsInside t'

abbrev Accounted : Bool → ℕ → Thread → Move → Type 0
Accounted closing ops t stay = Unit
Accounted closing ops t (move ops' t') = Accounts closing ops t ops' t'

second_load-Accounted :
    (polls closing : Bool) (ops : ℕ) (t : Thread)
    → t.place ≡ counted
    → Accounted closing ops t (second_load polls closing ops t)
unfolding second_load
second_load-Accounted polls true ops t p = ground arith
second_load-Accounted true false ops t p = ground arith
second_load-Accounted false false ops t p = ground arith

first_load-Accounted :
    (closing : Bool) (ops : ℕ) (t : Thread)
    → t.place ≡ at_rest
    → Accounted closing ops t (first_load closing ops t)
unfolding first_load
first_load-Accounted true ops t p = tt
first_load-Accounted false ops t p = ground arith

Proceeds-Accounted :
    (s : State) (t : Thread) {m : Move}
    → Proceeds s t m
    → share t ≤ s.ops
    → Accounted s.closing s.ops t m
unfolding add_one undo decref
Proceeds-Accounted s t (adds p) h = ground arith
Proceeds-Accounted s t (loads polls p) h = second_load-Accounted polls s.closing s.ops t p
Proceeds-Accounted s t (undoes p) h = ground arith
Proceeds-Accounted s t (returns p d) h = ground arith
Proceeds-Accounted s t (starts_poll p) h = ground arith
Proceeds-Accounted s t (wakes_up p w) h = ground arith

Acts-Accounted :
    (s : State) (t : Thread) {m : Move}
    → Acts s t m
    → share t ≤ s.ops
    → Accounted s.closing s.ops t m
Acts-Accounted s t (proceeds a) h = Proceeds-Accounted s t a h
Acts-Accounted s t (calls p) h = first_load-Accounted s.closing s.ops t p
Acts-Accounted s t (polled p) h = ground arith

-- The sums over the goroutines, with one of them singled out.
pub single :
    (f : Thread → ℕ) (before : List Thread) (t : Thread) (after : List Thread)
    → adds_up f (before ++ (t ∷ after)) ≡ f t + (adds_up f before + adds_up f after)
single f before t after = omega (arith, adds_up-append f before (t ∷ after))

All-single :
    (P : Thread → Type 0) (before : List Thread) (t t' : Thread) (after : List Thread)
    → (P t → P t')
    → All P (before ++ (t ∷ after))
    → All P (before ++ (t' ∷ after))
All-single P [] t t' after f (h, r) = (f h, r)
All-single P (x ∷ before) t t' after f (h, r) = (h, All-single P before t t' after f r)

module _ (s : State) (c : IsConsistent s) (before : List Thread) (t : Thread) (after : List Thread)
    (e : s.threads ≡ before ++ (t ∷ after)) where
  pub share-le : share t ≤ s.ops
  share-le = omega (arith, c.count, ap (adds_up share) e, single share before t after)

  act-IsConsistent :
      (ops' : ℕ) (t' : Thread)
      → Accounts s.closing s.ops t ops' t'
      → IsConsistent (record s { ops = ops'; threads = before ++ (t' ∷ after) })
  act-IsConsistent ops' t' a = record {
    count = omega (
      arith,
      c.count,
      a.balance,
      ap (adds_up share) e,
      single share before t after,
      single share before t' after,
    );
    flag = c.flag;
    told = c.told;
    mapping = c.mapping;
    quiet = λ past. omega (
      arith,
      c.quiet past,
      ap depths e,
      single (λ x. x.depth) before t after,
      single (λ x. x.depth) before t' after,
      a.closed (closing_of past),
    );
    inside = All-single PollsInside before t t' after a.polls (subst (All PollsInside) e c.inside);
  }
    where
      closing_of : is_past s.closer ≡ true → s.closing ≡ true
      closing_of h = ground (arith, c.flag)

depths-le-shares : (ts : List Thread) → depths ts ≤ adds_up share ts
depths-le-shares [] = omega arith
depths-le-shares (t ∷ ts) = omega (arith, depths-le-shares ts)

swap-IsConsistent : (s : State) → IsConsistent s → IsConsistent (swap_closing s)
unfolding swap_closing
swap-IsConsistent s c = elim (Bool-cases s.closing) [
  | inl h ↦ rw h (record {
    count = c.count;
    flag = sym h ∙ c.flag;
    told = c.told;
    mapping = c.mapping;
    quiet = c.quiet;
    inside = c.inside;
  })
  | inr h ↦
      let fresh : is_none s.closer ≡ true = ground (arith, c.flag) in
      rw h (record {
        count = c.count;
        flag = refl;
        told = λ w. cc;
        mapping = ground (arith, c.mapping);
        quiet = λ w. cc;
        inside = c.inside;
      })
]

load_ops-IsConsistent :
    (s : State) → IsConsistent s → s.closer ≡ waiting → IsConsistent (load_ops s)
unfolding load_ops
load_ops-IsConsistent s c w = elim (Bool-cases (ltb 0 s.ops)) [
  | inl h ↦ rw h c
  | inr h ↦ rw h (record {
    count = c.count;
    flag = ground (arith, c.flag);
    told = λ _. c.told (rw w refl);
    mapping = ground (arith, c.mapping);
    quiet = λ _. ground (arith, c.count, depths-le-shares s.threads);
    inside = c.inside;
  })
]

pub Step-IsConsistent : (s u : State) → IsConsistent s → Step s u → IsConsistent u
unfolding write_wake tear_down
Step-IsConsistent s u c (acts before t after ops t' e a q) = subst IsConsistent (sym q) (
    act-IsConsistent s c before t after e ops t'
      (Acts-Accounted s t a (share-le s c before t after e)))
Step-IsConsistent s u c (turned_away before t after e a q) = subst IsConsistent (sym q) c
Step-IsConsistent s u c (spawns q) = subst IsConsistent (sym q) (record {
  count = omega (arith, c.count);
  flag = c.flag;
  told = c.told;
  mapping = c.mapping;
  quiet = λ h. omega (arith, c.quiet h);
  inside = (λ h. cc, c.inside);
})
Step-IsConsistent s u c (closes q) = subst IsConsistent (sym q) (swap-IsConsistent s c)
Step-IsConsistent s u c (wakes w q) = subst IsConsistent (sym q) (record {
  count = c.count;
  flag = ground (arith, c.flag);
  told = λ _. refl;
  mapping = ground (arith, c.mapping);
  quiet = λ h. cc;
  inside = c.inside;
})
Step-IsConsistent s u c (waits w q) = subst IsConsistent (sym q) (load_ops-IsConsistent s c w)
Step-IsConsistent s u c (tears w q) = subst IsConsistent (sym q) (record {
  count = c.count;
  flag = ground (arith, c.flag);
  told = λ _. c.told (rw w refl);
  mapping = refl;
  quiet = λ _. c.quiet (rw w refl);
  inside = c.inside;
})
