-- ===== src/Ring/Slots.antt =====
-- The slots of a ring between two indices, and what a write and a read do to them.
use native.Mathlib.Nat.{mod-eq_of_lt, mod-eq-sub-mod, mod-add-mod, mod-lt}
use native.Mathlib.Decide.{dec_lt}
use go_afxdp.Prelude.{
  ℕ, zero, suc, ◌+◌, ◌-◌, ◌%◌, ◌^◌, ◌≤◌, ◌<◌, ◌≡◌, ◌≢◌, refl, ap, ap₂, sym, ◌∙◌, bit_and, List, [],
  ◌∷◌, ◌++◌, append_assoc, append-nil, arith, ◌==◌, ==_refl, ==_iff, Bool-cases, inl, inr, subst,
  length,
}
use go_afxdp.Prelude.Bits.{bit_and-mask, mod-mod_pow, pow_pos}
use go_afxdp.Ring.{u32, u32_sub, u32_inc, update, Ring, write_descs, read_descs}

pub wrap_slot : (k i : ℕ) → k ≤ 32 → i % u32 % 2 ^ k ≡ i % 2 ^ k
wrap_slot k i h = ap (λ t. i % 2 ^ t % 2 ^ k) split ∙ mod-mod_pow k (32 - k) i
  where
    split : 32 ≡ k + (32 - k)
    split = omega arith

-- A slot, computed by the mask, is the index modulo the ring's size.
pub slot : (k i : ℕ) → k ≤ 32 → bit_and (i % u32) (2 ^ k - 1) ≡ i % 2 ^ k
slot k i h = bit_and-mask k (i % u32) ∙ wrap_slot k i h

-- A masked index lies within a ring of `2 ^ k` slots.
pub slot-lt : (k i : ℕ) → bit_and i (2 ^ k - 1) < 2 ^ k
slot-lt k i = rw (bit_and-mask k i) (mod-lt i (pow_pos k))

module _ {ℓ} {A : Type ℓ} where
  -- The `n` entries from index `c` on.
  abbrev pub window : (ℕ → A) → ℕ → ℕ → ℕ → List A
  window d size c zero = []
  window d size c (suc n) = d (c % size) ∷ window d size (c + 1) n

  pub length-window : (d : ℕ → A) (size c n : ℕ) → length (window d size c n) ≡ n
  length-window d size c zero = refl
  length-window d size c (suc n) = ap suc (length-window d size (c + 1) n)

  -- The ring's content as a list, oldest first.
  abbrev pub entries : ℕ → Ring A → List A
  entries size r = window r.descs size r.consumer (u32_sub r.producer r.consumer)

-- Fewer than `size` steps on, the slot is another one.
pub add-mod-ne : (size c j : ℕ) → 0 < j → j < size → (c + j) % size ≢ c % size
add-mod-ne size c j hj h = rw (← mod-add-mod c size j) (elim (dec_lt (r + j) size) [
  | yes p ↦ omega (arith, mod-eq_of_lt p)
  | no p ↦ omega (
    arith,
    mod-eq-sub-mod {n = r + j} {m = size} (omega arith),
    mod-eq_of_lt {n = r + j - size} {m = size} (omega (arith, mod-lt c {m = size} (omega arith))),
  )
])
  where
    r : ℕ
    r = c % size

module _ {ℓ} {A : Type ℓ} where
  update_same : (d : ℕ → A) (i : ℕ) (x : A) → update d i x i ≡ x
  update_same d i x = rw (==_refl i)

  update_other : (d : ℕ → A) (i j : ℕ) (x : A) → i ≢ j → update d i x j ≡ d j
  update_other d i j x h = elim (Bool-cases (i == j)) [
    | inl e ↦ absurd (h ((==_iff i j).0 e))
    | inr e ↦ rw e
  ]

  -- A write outside the window leaves it.
  window-update_ne :
      (d : ℕ → A) (size c n i : ℕ) (x : A)
      → c + n ≤ i
      → i < c + size
      → window (update d (i % size) x) size c n ≡ window d size c n
  window-update_ne d size c zero i x lo hi = refl
  window-update_ne d size c (suc n) i x lo hi =
      ap₂ ◌∷◌
        (update_other d (i % size) (c % size) x (
          subst (λ t. t % size ≢ c % size) {x = c + (i - c)} (omega arith)
            (add-mod-ne size c (i - c) (omega arith) (omega arith))))
        (window-update_ne d size (c + 1) n i x (omega arith) (omega arith))

  window_snoc :
      (d : ℕ → A) (size c n : ℕ)
      → window d size c (suc n) ≡ window d size c n ++ (d ((c + n) % size) ∷ [])
  window_snoc d size c zero = ap (λ t. d (t % size) ∷ []) (omega arith)
  window_snoc d size c (suc n) = ap (◌∷◌ (d (c % size))) (
      window_snoc d size (c + 1) n
      ∙ ap (λ t. window d size (c + 1) n ++ (d (t % size) ∷ [])) (omega arith))

  -- Writing just past the window extends it.
  window-update :
      (d : ℕ → A) (size c n : ℕ) (x : A)
      → n < size
      → window (update d ((c + n) % size) x) size c (suc n) ≡ window d size c n ++ (x ∷ [])
  window-update d size c n x h =
      window_snoc (update d ((c + n) % size) x) size c n
      ∙ ap₂ (λ xs y. xs ++ (y ∷ []))
          (window-update_ne d size c n (c + n) x (omega arith) (omega arith))
          (update_same d ((c + n) % size) x)

  pub window_mod :
      (d : ℕ → A) (size b c n : ℕ) → b % size ≡ c % size → window d size b n ≡ window d size c n
  window_mod d size b c zero e = refl
  window_mod d size b c (suc n) e = ap₂ ◌∷◌ (ap d e) (
      window_mod d size (b + 1) (c + 1) n
        (sym (mod-add-mod b size 1) ∙ ap (λ t. (t + 1) % size) e ∙ mod-add-mod c size 1))

  pub window-add :
      (d : ℕ → A) (size c m n : ℕ)
      → window d size c (m + n) ≡ window d size c m ++ window d size (c + m) n
  window-add d size c zero n = ap₂ (λ s t. window d size s t) (omega arith) (omega arith)
  window-add d size c (suc m) n =
      ap (λ t. window d size c t) {x = suc m + n} {y = suc (m + n)} (omega arith)
      ∙ ap (◌∷◌ (d (c % size))) (
          window-add d size (c + 1) m n
          ∙ ap (λ t. window d size (c + 1) m ++ window d size t n) (omega arith))

u32_inc_mod : (p : ℕ) → u32_inc (p % u32) ≡ (p + 1) % u32
u32_inc_mod p = omega arith

module _ {ℓ} {A : Type ℓ} (k : ℕ) (small : k ≤ 31) where
  -- One write of the loop, at an index `p` before its wrap.
  write_descs-cons :
      (d : ℕ → A) (p : ℕ) (x : A) (xs : List A)
      → write_descs (2 ^ k - 1) d (p % u32) (x ∷ xs)
        ≡ write_descs (2 ^ k - 1) (update d (p % 2 ^ k) x) ((p + 1) % u32) xs
  unfolding write_descs
  write_descs-cons d p x xs =
      ap₂ (λ i q. write_descs (2 ^ k - 1) (update d i x) q xs) (slot k p (omega arith))
        (u32_inc_mod p)

  pub write_descs_end :
      (d : ℕ → A) (p : ℕ) (xs : List A)
      → (write_descs (2 ^ k - 1) d (p % u32) xs).1 ≡ (p + length xs) % u32
  write_descs_end d p [] = unfold write_descs in (omega arith)
  write_descs_end d p (x ∷ xs) =
      ap (λ t. t.1) (write_descs-cons d p x xs)
      ∙ write_descs_end (update d (p % 2 ^ k) x) (p + 1) xs
      ∙ ap (λ t. t % u32) (omega arith)

  pub window-write_descs :
      (d : ℕ → A) (c n : ℕ) (xs : List A)
      → n + length xs ≤ 2 ^ k
      → window (write_descs (2 ^ k - 1) d ((c + n) % u32) xs).0 (2 ^ k) c (n + length xs)
        ≡ window d (2 ^ k) c n ++ xs
  window-write_descs d c n [] h =
      unfold write_descs in (ap (window d (2 ^ k) c) (omega arith) ∙ sym (append-nil _))
  window-write_descs d c n (x ∷ xs) h =
      ap₂ (λ t m. window t.0 (2 ^ k) c m) (write_descs-cons d (c + n) x xs) count
      ∙ ap (λ t. window (write_descs (2 ^ k - 1) d' (t % u32) xs).0 (2 ^ k) c (suc n + length xs))
          next
      ∙ window-write_descs d' c (suc n) xs (omega arith)
      ∙ ap (λ w. w ++ xs) (window-update d (2 ^ k) c n x (omega arith))
      ∙ append_assoc (window d (2 ^ k) c n) (x ∷ []) xs
    where
      d' : ℕ → A
      d' = update d ((c + n) % 2 ^ k) x

      count : n + length (x ∷ xs) ≡ suc n + length xs
      count = omega arith

      next : c + n + 1 ≡ c + suc n
      next = omega arith

  pub read_descs-window :
      (d : ℕ → A) (c n : ℕ)
      → read_descs (2 ^ k - 1) d (c % u32) n ≡ (window d (2 ^ k) c n, (c + n) % u32)
  unfolding read_descs
  read_descs-window d c zero = ap (λ t. ([], t % u32)) (omega arith)
  read_descs-window d c (suc n) =
      ap₂ (λ i t. (d i ∷ t.0, t.1)) (slot k c (omega arith))
        (ap (λ q. read_descs (2 ^ k - 1) d q n) (u32_inc_mod c) ∙ read_descs-window d (c + 1) n)
      ∙ ap (λ t. (window d (2 ^ k) c (suc n), t % u32)) (omega arith)
