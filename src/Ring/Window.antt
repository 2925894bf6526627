-- ===== src/Ring/Window.antt =====
-- A ring as the FIFO of the entries between its consumer and its producer index.
use native.Mathlib.Nat.{pow-le-pow_right}
use go_afxdp.Prelude.{
  ℕ, ◌+◌, ◌-◌, ◌%◌, ◌^◌, ◌≤◌, ◌<◌, ◌≡◌, ap, sym, ◌∙◌, List, ◌++◌, arith, subst, length,
}
use go_afxdp.Ring.{
  u32, u32_sub, Ring, write_descs, read_descs, free_slots, waiting, publish, consume,
}
use go_afxdp.Ring.Slots.{
  wrap_slot, window, length-window, entries, window_mod, window-add, write_descs_end,
  window-write_descs, read_descs-window,
}

-- The indices are 32-bit, and at most `size` entries wait.
pub record IsValid {ℓ} {A : Type ℓ} (size : ℕ) (r : Ring A) : Type 0 where
  pub prod_small : r.producer < u32
  pub cons_small : r.consumer < u32
  pub fits : u32_sub r.producer r.consumer ≤ size

pub pow-lt-u32 : (k : ℕ) → k ≤ 31 → 2 ^ k < u32
pow-lt-u32 k h = omega (arith, pow-le-pow_right {n = 2} (omega arith) h)

ahead : (c p : ℕ) → c < u32 → p < u32 → p ≡ (c + u32_sub p c) % u32
ahead c p hc hp = omega arith

sub_ahead : (c n : ℕ) → c < u32 → n < u32 → u32_sub ((c + n) % u32) c ≡ n
sub_ahead c n hc hn = omega arith

module _ {ℓ} {A : Type ℓ} (k : ℕ) (small : k ≤ 31) where
  -- On a valid ring of `2 ^ k` slots, publishing entries that fit appends them to the ring's entries, counts
  -- them, and leaves the ring valid; the indices may wrap.
  pub entries-publish :
      (r : Ring A) (xs : List A)
      → IsValid (2 ^ k) r
      → length xs + u32_sub r.producer r.consumer ≤ 2 ^ k
      → let r' = publish (2 ^ k - 1) r xs in
        (entries (2 ^ k) r' ≡ entries (2 ^ k) r ++ xs)
        × (u32_sub r'.producer r'.consumer ≡ u32_sub r.producer r.consumer + length xs)
        × IsValid (2 ^ k) r'
  unfolding publish
  entries-publish r xs v h = (
    ap (window (write_descs (2 ^ k - 1) r.descs r.producer xs).0 (2 ^ k) c) count
        ∙ ap (λ p. window (write_descs (2 ^ k - 1) r.descs p xs).0 (2 ^ k) c (n + length xs)) start
        ∙ window-write_descs k small r.descs c n xs (omega arith),
    count,
    record {
      prod_small = rw finish (omega arith);
      cons_small = v.cons_small;
      fits = rw count (omega arith);
    },
  )
    where
      c : ℕ
      c = r.consumer

      n : ℕ
      n = u32_sub r.producer r.consumer

      start : r.producer ≡ (c + n) % u32
      start = ahead c r.producer v.cons_small v.prod_small

      finish : (write_descs (2 ^ k - 1) r.descs r.producer xs).1 ≡ (c + (n + length xs)) % u32
      finish =
          ap (λ p. (write_descs (2 ^ k - 1) r.descs p xs).1) start
          ∙ write_descs_end k small r.descs (c + n) xs
          ∙ ap (λ t. t % u32) (omega arith)

      count : u32_sub (write_descs (2 ^ k - 1) r.descs r.producer xs).1 c ≡ n + length xs
      count =
          ap (λ t. u32_sub t c) finish
          ∙ sub_ahead c (n + length xs) v.cons_small (omega (arith, pow-lt-u32 k small))

  -- On a valid ring of `2 ^ k` slots, consuming `n` entries that are there gives the oldest `n`, leaves the
  -- others, and leaves the ring valid; the indices may wrap.
  pub entries-consume :
      (r : Ring A) (n : ℕ)
      → IsValid (2 ^ k) r
      → n ≤ u32_sub r.producer r.consumer
      → let (r', xs) = consume (2 ^ k - 1) r n in
        (xs ++ entries (2 ^ k) r' ≡ entries (2 ^ k) r)
        × (length xs ≡ n)
        × (u32_sub r'.producer r'.consumer + n ≡ u32_sub r.producer r.consumer)
        × IsValid (2 ^ k) r'
  unfolding consume
  entries-consume r n v h = rw done (
    ap (λ w. window r.descs (2 ^ k) c n ++ w)
          (ap (window r.descs (2 ^ k) ((c + n) % u32)) rest
            ∙ window_mod r.descs (2 ^ k) ((c + n) % u32) (c + n) (w - n) wrap)
        ∙ sym (window-add r.descs (2 ^ k) c n (w - n))
        ∙ ap (window r.descs (2 ^ k) c) {x = n + (w - n)} (omega arith),
    length-window r.descs (2 ^ k) c n,
    rw rest (omega arith),
    record { prod_small = v.prod_small; cons_small = omega arith; fits = rw rest (omega arith) },
  )
    where
      c : ℕ
      c = r.consumer

      w : ℕ
      w = u32_sub r.producer r.consumer

      cons : r.consumer ≡ c % u32
      cons = omega arith

      done : read_descs (2 ^ k - 1) r.descs c n ≡ (window r.descs (2 ^ k) c n, (c + n) % u32)
      done =
          ap (λ t. read_descs (2 ^ k - 1) r.descs t n) cons ∙ read_descs-window k small r.descs c n

      rest : u32_sub r.producer ((c + n) % u32) ≡ w - n
      rest = omega arith

      wrap : (c + n) % u32 % 2 ^ k ≡ (c + n) % 2 ^ k
      wrap = wrap_slot k (c + n) (omega arith)

  -- On a valid ring of `2 ^ k` slots the free slots that the producer sees and the entries in use make up
  -- the ring, with no clamping.
  pub free_slots_lem :
      (r : Ring A)
      → IsValid (2 ^ k) r
      → free_slots (2 ^ k) r + u32_sub r.producer r.consumer ≡ 2 ^ k
  unfolding free_slots
  free_slots_lem r v = ground (arith, pow-lt-u32 k small)

  pub waiting_lem :
      (r : Ring A) → IsValid (2 ^ k) r → waiting (2 ^ k) r ≡ u32_sub r.producer r.consumer
  unfolding waiting
  waiting_lem r v = ground arith

-- What `NewSocket` lets through as a ring size: a power of two that a uint32 holds.
pub record IsSize (size : ℕ) : Type 0 where
  pub log : ℕ
  pub small : log ≤ 31
  pub is_pow : size ≡ 2 ^ log

module _ {ℓ} {A : Type ℓ} {size : ℕ} (z : IsSize size) (r : Ring A) where
  pub publish_lem :
      (xs : List A)
      → IsValid size r
      → length xs + u32_sub r.producer r.consumer ≤ size
      → let r' = publish (size - 1) r xs in
        (entries size r' ≡ entries size r ++ xs)
        × (u32_sub r'.producer r'.consumer ≡ u32_sub r.producer r.consumer + length xs)
        × IsValid size r'
  publish_lem xs =
      subst
        (λ t.
          IsValid t r
          → length xs + u32_sub r.producer r.consumer ≤ t
          → let r' = publish (t - 1) r xs in
            (entries t r' ≡ entries t r ++ xs)
            × (u32_sub r'.producer r'.consumer ≡ u32_sub r.producer r.consumer + length xs)
            × IsValid t r')
        (sym z.is_pow) (entries-publish z.log z.small r xs)

  pub consume_lem :
      (n : ℕ)
      → IsValid size r
      → n ≤ u32_sub r.producer r.consumer
      → let (r', xs) = consume (size - 1) r n in
        (xs ++ entries size r' ≡ entries size r)
        × (length xs ≡ n)
        × (u32_sub r'.producer r'.consumer + n ≡ u32_sub r.producer r.consumer)
        × IsValid size r'
  consume_lem n =
      subst
        (λ t.
          IsValid t r
          → n ≤ u32_sub r.producer r.consumer
          → let (r', xs) = consume (t - 1) r n in
            (xs ++ entries t r' ≡ entries t r)
            × (length xs ≡ n)
            × (u32_sub r'.producer r'.consumer + n ≡ u32_sub r.producer r.consumer)
            × IsValid t r')
        (sym z.is_pow) (entries-consume z.log z.small r n)

  pub free-add-used : IsValid size r → free_slots size r + u32_sub r.producer r.consumer ≡ size
  free-add-used =
      subst (λ t. IsValid t r → free_slots t r + u32_sub r.producer r.consumer ≡ t) (sym z.is_pow)
        (free_slots_lem z.log z.small r)

  pub waiting-eq-used : IsValid size r → waiting size r ≡ u32_sub r.producer r.consumer
  waiting-eq-used =
      subst (λ t. IsValid t r → waiting t r ≡ u32_sub r.producer r.consumer) (sym z.is_pow)
        (waiting_lem z.log z.small r)
