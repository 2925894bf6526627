-- ===== src/Fleet/Locals.antt =====
-- fleet.go: `localPrefixes`. What netlink says of the interface and of its children is an argument, each
-- address as the host prefix that package netip makes of it, or none where it makes none.
use go_afxdp.Prelude.{
  ℕ, ◌≡◌, ◌≤◌, refl, ap, sym, ◌∙◌, Bool, true, false, ◌&&◌, ◌||◌, Option, none, some, List, [], ◌∷◌,
  ◌++◌, ltb, ◌==◌, length, if◌then◌else◌, ==_refl, Bool-cases, inl, inr, if_true, if_false, arith,
  All, subst,
}
use go_afxdp.Filter.Cidr.{Prefix}

abbrev bool_eq : Bool → Bool → Bool
bool_eq true b = b
bool_eq false true = false
bool_eq false false = true

abbrev list_eq : List ℕ → List ℕ → Bool
list_eq [] [] = true
list_eq [] (y ∷ ys) = false
list_eq (x ∷ xs) [] = false
list_eq (x ∷ xs) (y ∷ ys) = (x == y) && list_eq xs ys

-- `==` on prefixes
unfoldable pub prefix_eq : Prefix → Prefix → Bool
prefix_eq p q = (bool_eq p.is4 q.is4 && list_eq p.addr q.addr) && (p.bits == q.bits)

abbrev pub max_local_prefixes : ℕ
max_local_prefixes = 16

abbrev pub member : Prefix → List Prefix → Bool
member p [] = false
member p (q ∷ qs) = prefix_eq p q || member p qs

-- The loop over the addresses. The prefixes collected are those seen.
unfoldable pub collect : List Prefix → List (Option Prefix) → List Prefix
collect seen [] = seen
collect seen (none ∷ addrs) = collect seen addrs
collect seen (some p ∷ addrs) =
    let again = collect seen addrs in
    let new = collect (seen ++ (p ∷ [])) addrs in if member p seen then again else new

-- A link: whether its parent is the interface, and its addresses, if they can be read.
pub record Link : Type 0 where
  pub is_child : Bool
  pub addrs : Option (List (Option Prefix))

abbrev addrs_of : Option (List (Option Prefix)) → List (Option Prefix)
addrs_of none = []
addrs_of (some addrs) = addrs

unfoldable pub child_addrs : List Link → List (Option Prefix)
child_addrs [] = []
child_addrs (l ∷ ls) = if l.is_child then addrs_of l.addrs ++ child_addrs ls else child_addrs ls

abbrev pub links_of : Option (List Link) → List Link
links_of none = []
links_of (some ls) = ls

pub data Locals : Type 0 where
  unknown too_many : Locals
  known : List Prefix → Locals

unfoldable pub within_limit : List Prefix → Locals
within_limit ps = if ltb max_local_prefixes (length ps) then too_many else known ps

unfoldable pub local_prefixes : Option (List (Option Prefix)) → Option (List Link) → Locals
local_prefixes none links = unknown
local_prefixes (some addrs) links =
    within_limit (collect [] (addrs ++ child_addrs (links_of links)))

-- ---- what it collects ----

list_eq_refl : (xs : List ℕ) → list_eq xs xs ≡ true
list_eq_refl [] = refl
list_eq_refl (x ∷ xs) = rw (==_refl x) (list_eq_refl xs)

bool_eq_refl : (b : Bool) → bool_eq b b ≡ true
bool_eq_refl true = refl
bool_eq_refl false = refl

prefix_eq_refl : (p : Prefix) → prefix_eq p p ≡ true
unfolding prefix_eq
prefix_eq_refl p = rw (bool_eq_refl p.is4, list_eq_refl p.addr, ==_refl p.bits) refl

or_true : (b : Bool) → (b || true) ≡ true
or_true true = refl
or_true false = refl

member-left : (p : Prefix) (xs ys : List Prefix) → member p xs ≡ true → member p (xs ++ ys) ≡ true
member-left p (x ∷ xs) ys h = elim (Bool-cases (prefix_eq p x)) [
  | inl e ↦ rw e refl
  | inr e ↦ rw e (member-left p xs ys (sym (rw e refl) ∙ h))
]
member-left p [] ys h = absurd cc

member-last : (p : Prefix) (xs : List Prefix) → member p (xs ++ (p ∷ [])) ≡ true
member-last p [] = rw (prefix_eq_refl p) refl
member-last p (x ∷ xs) = ap (λ b. prefix_eq p x || b) (member-last p xs) ∙ or_true (prefix_eq p x)

-- What is seen stays.
collect-seen :
    (p : Prefix) (seen : List Prefix) (addrs : List (Option Prefix))
    → member p seen ≡ true
    → member p (collect seen addrs) ≡ true
unfolding collect
collect-seen p seen [] h = h
collect-seen p seen (none ∷ addrs) h = collect-seen p seen addrs h
collect-seen p seen (some q ∷ addrs) h = elim (Bool-cases (member q seen)) [
  | inl e ↦ ap (member p) (if_true _ _ e) ∙ collect-seen p seen addrs h
  | inr e ↦
      ap (member p) (if_false _ _ e)
      ∙ collect-seen p (seen ++ (q ∷ [])) addrs (member-left p seen (q ∷ []) h)
]

-- Every address in the list is a prefix in the other.
abbrev pub Covered : List Prefix → List (Option Prefix) → Type 0
Covered ps = All (λ a. elim a [ none ↦ Unit | some p ↦ member p ps ≡ true ])

collect-Covered :
    (seen : List Prefix) (addrs : List (Option Prefix)) → Covered (collect seen addrs) addrs
unfolding collect
collect-Covered seen [] = tt
collect-Covered seen (none ∷ addrs) = (tt, collect-Covered seen addrs)
collect-Covered seen (some p ∷ addrs) = elim (Bool-cases (member p seen)) [
  | inl e ↦
      subst (λ (ps : List Prefix). Covered ps (some p ∷ addrs)) (sym (if_true _ _ e))
        (collect-seen p seen addrs e, collect-Covered seen addrs)
  | inr e ↦
      subst (λ (ps : List Prefix). Covered ps (some p ∷ addrs)) (sym (if_false _ _ e))
        (
          collect-seen p (seen ++ (p ∷ [])) addrs (member-last p seen),
          collect-Covered (seen ++ (p ∷ [])) addrs,
        )
]

abbrev pub Scopes : List (Option Prefix) → Locals → Type 0
Scopes addrs unknown = Unit
Scopes addrs too_many = Unit
Scopes addrs (known ps) = Covered ps addrs × (length ps ≤ max_local_prefixes)

-- Where `localPrefixes` knows the addresses, every address of the interface, and every one that was read of
-- a child of it, is among the prefixes, and they are at most 16.
pub local_prefixes-Scopes :
    (addrs : List (Option Prefix)) (links : Option (List Link))
    → Scopes (addrs ++ child_addrs (links_of links)) (local_prefixes (some addrs) links)
unfolding local_prefixes within_limit
local_prefixes-Scopes addrs links =
    elim (Bool-cases (ltb max_local_prefixes (length (collect [] all)))) [
      | inl e ↦ rw e tt
      | inr e ↦ rw e (collect-Covered [] all, ground arith)
    ]
  where
    all : List (Option Prefix)
    all = addrs ++ child_addrs (links_of links)
