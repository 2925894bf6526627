-- ===== src/Ring.antt =====
-- socket.go: `umemRing` and `rxTxRing`, the rings shared with the kernel, and the loops over their
-- slots. Indices are 32-bit and wrap; a slot is an index under the mask `size - 1`. The mapped
-- array is a function of the slot: Window shows that a masked index is below the ring's size.
pub mod Slots
pub mod Window
use go_afxdp.Prelude.{
  ℕ, zero, suc, ◌+◌, ◌-◌, ◌%◌, ◌^◌, bit_and, List, [], ◌∷◌, ◌==◌, if◌then◌else◌, ltb, leb, Option,
}

abbrev pub u32 : ℕ
u32 = 2 ^ 32

-- uint32 `a - b` and `a++`.
abbrev pub u32_sub : ℕ → ℕ → ℕ
u32_sub a b = (a + u32 - b) % u32

abbrev pub u32_inc : ℕ → ℕ
u32_inc a = (a + 1) % u32

abbrev pub update {ℓ} : {A : Type ℓ} → (ℕ → A) → ℕ → A → ℕ → A
update d i x j = if i == j then x else d j

-- `Flags` is none where the kernel is too old to expose it.
pub record Ring {ℓ} (A : Type ℓ) : Type ℓ where
  pub producer : ℕ
  pub consumer : ℕ
  pub flags : Option ℕ
  pub descs : ℕ → A

module _ {ℓ} {A : Type ℓ} where
  -- `for _, d := range xs { Descs[prod&mask] = d; prod++ }`
  unfoldable pub write_descs : ℕ → (ℕ → A) → ℕ → List A → (ℕ → A) × ℕ
  write_descs mask descs prod [] = (descs, prod)
  write_descs mask descs prod (x ∷ xs) =
      write_descs mask (update descs (bit_and prod mask) x) (u32_inc prod) xs

  -- `for i := 0; i < n; i++ { out = append(out, Descs[cons&mask]); cons++ }`
  unfoldable pub read_descs : ℕ → (ℕ → A) → ℕ → ℕ → List A × ℕ
  read_descs mask descs cons zero = ([], cons)
  read_descs mask descs cons (suc n) =
      let (rest, end) = read_descs mask descs (u32_inc cons) n in
      (descs (bit_and cons mask) ∷ rest, end)

  -- The free slots on the producer's side, `max - (prod - cons)` clamped to `max`.
  unfoldable pub free_slots : ℕ → Ring A → ℕ
  free_slots max r =
      let n = u32_sub max (u32_sub r.producer r.consumer) in if leb n max then n else max

  -- The entries waiting on the consumer's side, clamped to `max`.
  unfoldable pub waiting : ℕ → Ring A → ℕ
  waiting max r = let n = u32_sub r.producer r.consumer in if ltb max n then max else n

  unfoldable pub publish : ℕ → Ring A → List A → Ring A
  publish mask r xs =
      let (descs, prod) = write_descs mask r.descs r.producer xs in
      record r { descs = descs; producer = prod }

  unfoldable pub consume : ℕ → Ring A → ℕ → Ring A × List A
  consume mask r n =
      let (xs, cons) = read_descs mask r.descs r.consumer n in (record r { consumer = cons }, xs)
