-- ===== src/Prelude/Bits.antt =====
-- `&` with a mask of ones, and byte by byte, for every width.
use Prim.Native.Nat.{
  ℕ, zero, suc, ◌+◌, ◌-◌, ◌*◌, ◌/◌, ◌%◌, ◌^◌, ◌≤◌, ◌<◌, min, bit_and, digits, bit_and-bitwise,
}
use mathlib.Core.Path.{◌≡◌, refl, ap, ap₂, ◌∙◌}
use native.Mathlib.Omega.{arith}
use native.Mathlib.Decide.{ℕ_discrete}
use native.Mathlib.Nat.{
  pow-suc, pow-succ', add-mul-mod_self_left, mod-eq_of_lt, mod-lt, div-add-mod, mod-mod_of_dvd,
  dvd-mul_right, div-div-eq-div-mul, add-zero, add-suc, div-one, mod-one,
}

-- The lowest `fuel` digits of `x & y`.
abbrev low_bits : ℕ → ℕ → ℕ → ℕ
low_bits fuel x y = digits (λ _. 0) min fuel x y

-- Any fuel that covers `x` gives the same.
same_bits : (x y s t : ℕ) → x ≤ s → x ≤ t → low_bits s x y ≡ low_bits t x y
same_bits zero y zero zero hs ht = refl
same_bits zero y zero (suc t) hs ht = refl
same_bits zero y (suc s) zero hs ht = refl
same_bits zero y (suc s) (suc t) hs ht = refl
same_bits (suc x) y zero t hs ht = absurd (omega arith)
same_bits (suc x) y (suc s) zero hs ht = absurd (omega arith)
same_bits (suc x) y (suc s) (suc t) hs ht =
    let half = suc x / 2 in omega (arith, same_bits half (y / 2) s t (omega arith) (omega arith))

pub bit_and_none : (y : ℕ) → bit_and 0 y ≡ 0
bit_and_none y = bit_and-bitwise 0 y

-- The lowest digit, and the others.
pub bit_and_step : (x y : ℕ) → bit_and x y ≡ bit_and (x / 2) (y / 2) * 2 + min (x % 2) (y % 2)
bit_and_step zero y = omega (arith, bit_and_none y, bit_and_none (y / 2))
bit_and_step (suc x) y =
    let half = suc x / 2 in
    omega (
      arith,
      same_bits half (y / 2) x half (omega arith) (omega arith),
      bit_and-bitwise half (y / 2),
      bit_and-bitwise (suc x) y,
    )

halving : (fuel x : ℕ) → x ≤ fuel → bit_and x 0 ≡ 0
halving fuel zero le = refl
halving zero (suc x) le = absurd (omega arith)
halving (suc fuel) (suc x) le =
    let half = suc x / 2 in omega (arith, halving fuel half (omega arith), bit_and_step (suc x) 0)

pub bit_and-zero : (x : ℕ) → bit_and x 0 ≡ 0
bit_and-zero x = halving x x (omega arith)

pub pow_pos : (k : ℕ) → 0 < 2 ^ k
pow_pos zero = omega arith
pow_pos (suc k) = rw pow-suc (omega (arith, pow_pos k))

-- The low `k + 1` bits are the lowest one and `k` more.
mod-double : (p x : ℕ) → 0 < p → x % (2 * p) ≡ x / 2 % p * 2 + x % 2
mod-double p x h =
    ap (λ t. t % (2 * p)) split
    ∙ add-mul-mod_self_left low (2 * p) (x / 2 / p)
    ∙ mod-eq_of_lt (omega (arith, mod-lt (x / 2) h))
  where
    low : ℕ
    low = x / 2 % p * 2 + x % 2

    split : x ≡ low + 2 * p * (x / 2 / p)
    split = omega (arith, div-add-mod (x / 2) p, div-add-mod x 2)

half-pred : (p : ℕ) → 0 < p → (2 * p - 1) / 2 ≡ p - 1
half-pred p h = omega arith

bit_and_pack :
    (m n b c : ℕ) → b < 2 → c < 2 → bit_and (m * 2 + b) (n * 2 + c) ≡ bit_and m n * 2 + min b c
bit_and_pack m n b c hb hc =
    bit_and_step (m * 2 + b) (n * 2 + c)
    ∙ ap₂ (λ p q. p + q) (ap₂ (λ p q. bit_and p q * 2) (omega arith) (omega arith))
        (ap₂ min (omega arith) (omega arith))

-- `x & (2^k - 1)` is `x % 2^k`.
pub bit_and-mask : (k x : ℕ) → bit_and x (2 ^ k - 1) ≡ x % 2 ^ k
bit_and-mask zero x = omega (arith, bit_and-zero x)
bit_and-mask (suc k) x =
    let e : 2 ^ suc k ≡ 2 * 2 ^ k = pow-succ' 2 k in
    rw e (
      omega (
        arith,
        pow_pos k,
        mod-double (2 ^ k) x (pow_pos k),
        bit_and_step x (2 * 2 ^ k - 1),
        bit_and-mask k (x / 2),
        ap (bit_and (x / 2)) (half-pred (2 ^ k) (pow_pos k)),
      ))

-- `&` works on the low `k` bits and on the rest apart.
pub bit_and_split :
    (k x y : ℕ)
    → bit_and x y ≡ bit_and (x / 2 ^ k) (y / 2 ^ k) * 2 ^ k + bit_and (x % 2 ^ k) (y % 2 ^ k)
bit_and_split zero x y =
    rw (div-one x, div-one y, mod-one x, mod-one y) (omega (arith, bit_and_none 0))
bit_and_split (suc k) x y =
    rw
      (
        pow-succ' 2 k,
        mod-double (2 ^ k) x (pow_pos k),
        mod-double (2 ^ k) y (pow_pos k),
        ← div-div-eq-div-mul x 2 (2 ^ k),
        ← div-div-eq-div-mul y 2 (2 ^ k),
        bit_and_pack (x / 2 % 2 ^ k) (y / 2 % 2 ^ k) (x % 2) (y % 2) (omega arith) (omega arith),
      )
      (omega (arith, bit_and_step x y, bit_and_split k (x / 2) (y / 2)))

pow-add : (k j : ℕ) → 2 ^ (k + j) ≡ 2 ^ k * 2 ^ j
pow-add k zero = rw (add-zero) (omega arith)
pow-add k (suc j) = rw (add-suc, pow-succ', pow-succ', pow-add k j) (omega arith)

-- Reducing modulo a larger power first does not change the residue modulo a smaller one.
pub mod-mod_pow : (k j x : ℕ) → x % 2 ^ (k + j) % 2 ^ k ≡ x % 2 ^ k
mod-mod_pow k j x = mod-mod_of_dvd (2 ^ k) x (rw (pow-add k j) (dvd-mul_right (2 ^ k) (2 ^ j)))

bit_and_self_fuel : (n a : ℕ) → a ≤ n → bit_and a a ≡ a
bit_and_self_fuel n zero h = bit_and_none 0
bit_and_self_fuel zero (suc a) h = absurd (omega arith)
bit_and_self_fuel (suc n) (suc a) h =
    omega (arith, bit_and_step (suc a) (suc a), bit_and_self_fuel n (suc a / 2) (omega arith))

pub bit_and_self : (a : ℕ) → bit_and a a ≡ a
bit_and_self a = bit_and_self_fuel a a (omega arith)

double_pred : (v : ℕ) → 0 < v → v % 2 ≡ 0 → (v - 1) / 2 ≡ v / 2 - 1
double_pred v h e = omega arith

odd_pred : (v : ℕ) → v % 2 ≡ 1 → (v - 1) / 2 ≡ v / 2
odd_pred v e = omega arith

pow_of_fuel : (n v : ℕ) → v ≤ n → 0 < v → bit_and v (v - 1) ≡ 0 → (k : ℕ) × (v ≡ 2 ^ k)
pow_of_fuel zero v b h e = absurd (omega arith)
pow_of_fuel (suc n) v b h e = elim (ℕ_discrete (v % 2) 0) [
  | yes even ↦
      let half =
        pow_of_fuel n (v / 2) (omega arith) (omega arith)
          (omega (arith, bit_and_step v (v - 1), ap (bit_and (v / 2)) (double_pred v h even))) in
      (suc half.0, rw (pow-succ' 2 half.0) (omega (arith, half.1)))
  | no odd ↦ (
    0,
    omega (
      arith,
      bit_and_step v (v - 1),
      ap (bit_and (v / 2)) (odd_pred v (omega arith)),
      bit_and_self (v / 2),
    ),
  )
]

-- A word `v` with `v & (v - 1) == 0` is a power of two.
pub pow_of_bit_and-pred : (v : ℕ) → 0 < v → bit_and v (v - 1) ≡ 0 → (k : ℕ) × (v ≡ 2 ^ k)
pow_of_bit_and-pred v h e = pow_of_fuel v v (omega arith) h e
