-- ===== src/Filter/Words.antt =====
-- The words that `cidrTest` (filter.go) compares, byte by byte: a masked word of an address against a
-- masked word of a prefix, on a little-endian host.
use go_afxdp.Prelude.{
  ℕ, zero, suc, ◌+◌, ◌-◌, ◌*◌, ◌/◌, ◌%◌, ◌^◌, ◌<◌, ◌≡◌, refl, sym, ap, ap₂, ◌∙◌, Bool, true, ◌&&◌,
  if◌then◌else◌, leb, ◌==◌, bit_and, arith,
}
use native.Mathlib.Nat.{div-add-mod, mul_comm, mul-div_cancel}
use go_afxdp.Prelude.Bits.{bit_and-mask, bit_and_split, bit_and-zero, pow_pos}
use go_afxdp.Filter.Cidr.{le32}

-- A byte of `net.CIDRMask`, with `ones` bits left.
abbrev pub mask_byte : ℕ → ℕ
mask_byte ones = if leb 8 ones then 255 else 256 - 2 ^ (8 - ones)

-- The first `ones` bits of a byte, all of it from 8 on.
abbrev pub top : ℕ → ℕ → ℕ
top ones x = x / 2 ^ (8 - ones)

-- `&` with a byte of the mask keeps the first bits.
and_byte : (o x : ℕ) → x < 256 → bit_and x (mask_byte o) ≡ top o x * 2 ^ (8 - o)
and_byte zero x h = omega (arith, bit_and-zero x)
and_byte (suc zero) x h =
    omega (arith, bit_and_split 7 x 128, bit_and-mask 1 (x / 128), bit_and-zero (x % 128))
and_byte (suc (suc zero)) x h =
    omega (arith, bit_and_split 6 x 192, bit_and-mask 2 (x / 64), bit_and-zero (x % 64))
and_byte (suc (suc (suc zero))) x h =
    omega (arith, bit_and_split 5 x 224, bit_and-mask 3 (x / 32), bit_and-zero (x % 32))
and_byte (suc (suc (suc (suc zero)))) x h =
    omega (arith, bit_and_split 4 x 240, bit_and-mask 4 (x / 16), bit_and-zero (x % 16))
and_byte (suc (suc (suc (suc (suc zero))))) x h =
    omega (arith, bit_and_split 3 x 248, bit_and-mask 5 (x / 8), bit_and-zero (x % 8))
and_byte (suc (suc (suc (suc (suc (suc zero)))))) x h =
    omega (arith, bit_and_split 2 x 252, bit_and-mask 6 (x / 4), bit_and-zero (x % 4))
and_byte (suc (suc (suc (suc (suc (suc (suc zero))))))) x h =
    omega (arith, bit_and_split 1 x 254, bit_and-mask 7 (x / 2), bit_and-zero (x % 2))
and_byte (suc (suc (suc (suc (suc (suc (suc (suc o)))))))) x h =
    let full : leb 8 (suc (suc (suc (suc (suc (suc (suc (suc o)))))))) ≡ true = ground arith in
    let none_left : 8 - suc (suc (suc (suc (suc (suc (suc (suc o))))))) ≡ 0 = omega arith in
    rw (full, none_left) (omega (arith, bit_and-mask 8 x))

top_iff : (o x a : ℕ) → (top o x * 2 ^ (8 - o) == top o a * 2 ^ (8 - o)) ≡ (top o x == top o a)
top_iff zero x a = ground arith
top_iff (suc zero) x a = ground arith
top_iff (suc (suc zero)) x a = ground arith
top_iff (suc (suc (suc zero))) x a = ground arith
top_iff (suc (suc (suc (suc zero)))) x a = ground arith
top_iff (suc (suc (suc (suc (suc zero))))) x a = ground arith
top_iff (suc (suc (suc (suc (suc (suc zero)))))) x a = ground arith
top_iff (suc (suc (suc (suc (suc (suc (suc zero))))))) x a = ground arith
top_iff (suc (suc (suc (suc (suc (suc (suc (suc o)))))))) x a =
    let none_left : 8 - suc (suc (suc (suc (suc (suc (suc (suc o))))))) ≡ 0 = omega arith in
    rw none_left (ground arith)

-- Masking keeps the first bits.
pub top-and_byte : (o x : ℕ) → x < 256 → top o (bit_and x (mask_byte o)) ≡ top o x
top-and_byte o x h = rw (and_byte o x h) (mul-div_cancel (top o x) (pow_pos (8 - o)))

-- Masked bytes agree exactly if their first bits do.
same_top :
    (o x a : ℕ)
    → x < 256
    → a < 256
    → (bit_and x (mask_byte o) == bit_and a (mask_byte o)) ≡ (top o x == top o a)
same_top o x a hx ha = rw (and_byte o x hx, and_byte o a ha) (top_iff o x a)

pub and_byte-lt : (o x : ℕ) → x < 256 → bit_and x (mask_byte o) < 256
and_byte-lt o x h = omega (
  arith,
  and_byte o x h,
  ap (λ t. t * 1) (div-add-mod x (2 ^ (8 - o))),
  mul_comm (2 ^ (8 - o)) (top o x),
)

mask_byte-lt : (o : ℕ) → mask_byte o < 256
mask_byte-lt o = ground (arith, pow_pos (8 - o))

and_cons :
    (a x k y : ℕ)
    → a < 256
    → k < 256
    → bit_and (a + 256 * x) (k + 256 * y) ≡ bit_and a k + 256 * bit_and x y
and_cons a x k y ha hk =
    let hi_a : (a + 256 * x) / 256 ≡ x = omega arith in
    let hi_k : (k + 256 * y) / 256 ≡ y = omega arith in
    let lo_a : (a + 256 * x) % 256 ≡ a = omega arith in
    let lo_k : (k + 256 * y) % 256 ≡ k = omega arith in
    bit_and_split 8 (a + 256 * x) (k + 256 * y)
    ∙ ap₂ (λ p q. p * 256 + q) (ap₂ bit_and hi_a hi_k) (ap₂ bit_and lo_a lo_k)
    ∙ omega arith

le32_nested : (a b c d : ℕ) → le32 a b c d ≡ a + 256 * (b + 256 * (c + 256 * d))
le32_nested a b c d = omega arith

and_word :
    (a b c d k l m n : ℕ)
    → a < 256
    → b < 256
    → c < 256
    → d < 256
    → k < 256
    → l < 256
    → m < 256
    → n < 256
    → bit_and (le32 a b c d) (le32 k l m n)
      ≡ le32 (bit_and a k) (bit_and b l) (bit_and c m) (bit_and d n)
and_word a b c d k l m n ha hb hc hd hk hl hm hn =
    ap₂ bit_and (le32_nested a b c d) (le32_nested k l m n)
    ∙ and_cons a (b + 256 * (c + 256 * d)) k (l + 256 * (m + 256 * n)) ha hk
    ∙ ap (λ t. bit_and a k + 256 * t)
        (and_cons b (c + 256 * d) l (m + 256 * n) hb hl
          ∙ ap (λ t. bit_and b l + 256 * t) (and_cons c d m n hc hm))
    ∙ sym (le32_nested (bit_and a k) (bit_and b l) (bit_and c m) (bit_and d n))

le32_eq :
    (a b c d k l m n : ℕ)
    → a < 256
    → b < 256
    → c < 256
    → d < 256
    → k < 256
    → l < 256
    → m < 256
    → n < 256
    → (le32 a b c d % 2 ^ 32 == le32 k l m n) ≡ ((a == k) && ((b == l) && ((c == m) && (d == n))))
le32_eq a b c d k l m n ha hb hc hd hk hl hm hn = ground arith

-- The first `ones` bits of two words agree.
abbrev pub word_tops : ℕ → ℕ → ℕ → ℕ → ℕ → ℕ → ℕ → ℕ → ℕ → Bool
word_tops ones x y z w a b c d =
    (top ones x == top ones a)
    && ((top (ones - 8) y == top (ones - 8) b)
        && ((top (ones - 8 - 8) z == top (ones - 8 - 8) c)
            && (top (ones - 8 - 8 - 8) w == top (ones - 8 - 8 - 8) d)))

abbrev pub mask_word : ℕ → ℕ
mask_word ones =
    le32 (mask_byte ones) (mask_byte (ones - 8)) (mask_byte (ones - 8 - 8))
      (mask_byte (ones - 8 - 8 - 8))

and4 :
    {p q r s p' q' r' s' : Bool}
    → p ≡ p'
    → q ≡ q'
    → r ≡ r'
    → s ≡ s'
    → (p && (q && (r && s))) ≡ (p' && (q' && (r' && s')))
and4 h k l m = rw (h, k, l, m) refl

-- The comparison of a masked word of the frame with a masked word of the prefix.
pub word_test-tops :
    (ones x y z w a b c d : ℕ)
    → x < 256
    → y < 256
    → z < 256
    → w < 256
    → a < 256
    → b < 256
    → c < 256
    → d < 256
    → (bit_and (le32 x y z w) (mask_word ones) % 2 ^ 32 == bit_and (le32 a b c d) (mask_word ones))
      ≡ word_tops ones x y z w a b c d
word_test-tops ones x y z w a b c d hx hy hz hw ha hb hc hd =
    let o1 = ones - 8 in
    let o2 = ones - 8 - 8 in
    let o3 = ones - 8 - 8 - 8 in
    ap₂ (λ s t. s % 2 ^ 32 == t)
      (and_word x y z w _ _ _ _ hx hy hz hw (mask_byte-lt ones) (mask_byte-lt o1) (mask_byte-lt o2)
        (mask_byte-lt o3))
      (and_word a b c d _ _ _ _ ha hb hc hd (mask_byte-lt ones) (mask_byte-lt o1) (mask_byte-lt o2)
        (mask_byte-lt o3))
    ∙ le32_eq _ _ _ _ _ _ _ _ (and_byte-lt ones x hx) (and_byte-lt o1 y hy) (and_byte-lt o2 z hz)
        (and_byte-lt o3 w hw) (and_byte-lt ones a ha) (and_byte-lt o1 b hb) (and_byte-lt o2 c hc)
        (and_byte-lt o3 d hd)
    ∙ and4 (same_top ones x a hx ha) (same_top o1 y b hy hb) (same_top o2 z c hz hc)
        (same_top o3 w d hw hd)

no_ones : (o : ℕ) → mask_byte o ≡ 0 → o ≡ 0
no_ones zero h = refl
no_ones (suc zero) h = absurd (omega arith)
no_ones (suc (suc zero)) h = absurd (omega arith)
no_ones (suc (suc (suc zero))) h = absurd (omega arith)
no_ones (suc (suc (suc (suc zero)))) h = absurd (omega arith)
no_ones (suc (suc (suc (suc (suc zero))))) h = absurd (omega arith)
no_ones (suc (suc (suc (suc (suc (suc zero)))))) h = absurd (omega arith)
no_ones (suc (suc (suc (suc (suc (suc (suc zero))))))) h = absurd (omega arith)
no_ones (suc (suc (suc (suc (suc (suc (suc (suc o)))))))) h = absurd (ground arith)

-- A word that the prefix does not cover.
pub no_word :
    (ones x y z w a b c d : ℕ)
    → x < 256
    → y < 256
    → z < 256
    → w < 256
    → a < 256
    → b < 256
    → c < 256
    → d < 256
    → mask_word ones ≡ 0
    → word_tops ones x y z w a b c d ≡ true
no_word ones x y z w a b c d hx hy hz hw ha hb hc hd e =
    let k : ones ≡ 0 = no_ones ones (omega (arith, e)) in rw k (ground arith)
