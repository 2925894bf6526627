-- ===== src/Socket/Inv.antt =====
-- The socket's own invariant: its rings are valid, and sized by powers of two.
use go_afxdp.Prelude.{
  ℤ, pos, negsuc, ◌+ℤ◌, ◌-ℤ◌, append-nil, ℕ, ◌+◌, ◌-◌, ◌≤◌, ◌≡◌, refl, ap, sym, ◌∙◌, true, List, [],
  ◌∷◌, ◌++◌, arith, ◌==◌, length, min, if◌then◌else◌, Bool-cases, inl, inr,
}
use go_afxdp.Pool
use go_afxdp.Pool.{FramePool}
use go_afxdp.Pool.Laws.{length-pop, pop-append}
use go_afxdp.Ring.{Ring, u32_sub, free_slots, waiting, publish, consume}
use go_afxdp.Ring.Window
use go_afxdp.Ring.Window.{IsSize, publish_lem, consume_lem, free-add-used, waiting-eq-used}
use go_afxdp.Ring.Slots.{entries}
use go_afxdp.Socket.{Socket, Desc, capped, fill, receive}

pub record IsValid (s : Socket) : Type 0 where
  pub fill_size : IsSize s.options.fill_ring_num_descs
  pub rx_size : IsSize s.options.rx_ring_num_descs
  pub tx_size : IsSize s.options.tx_ring_num_descs
  pub completion_size : IsSize s.options.completion_ring_num_descs
  pub fill_ok : Window.IsValid s.options.fill_ring_num_descs s.fill_ring
  pub rx_ok : Window.IsValid s.options.rx_ring_num_descs s.rx_ring
  pub tx_ok : Window.IsValid s.options.tx_ring_num_descs s.tx_ring
  pub completion_ok : Window.IsValid s.options.completion_ring_num_descs s.completion_ring

-- Each operation, as the part of the socket that it replaces, what it moves, and what it returns.

pub +ℤ-zero : (z : ℤ) → z +ℤ 0 ≡ z
+ℤ-zero (pos n) = ground arith
+ℤ-zero (negsuc n) = ground arith

abbrev pub Fills : Socket → ℕ → Type 0
Fills s n =
    (p : FramePool) × (r : Ring ℕ) × (moved : List ℕ) × (fill s n ≡ (
      record s { rx_pool = p; fill_ring = r; num_filled = s.num_filled +ℤ length moved },
      length moved,
    ))
    × (p.free ++ moved ≡ s.rx_pool.free)
    × (entries s.options.fill_ring_num_descs r
        ≡ entries s.options.fill_ring_num_descs s.fill_ring ++ moved)
    × Window.IsValid s.options.fill_ring_num_descs r
    × (length moved ≡ (
        if s.closing
        then 0
        else min (length s.rx_pool.free) (
            min n
              (s.options.fill_ring_num_descs - u32_sub s.fill_ring.producer s.fill_ring.consumer))))

nil_of_length : (xs : List ℕ) → (length xs == 0) ≡ true → xs ≡ []
nil_of_length [] h = refl
nil_of_length (x ∷ xs) h = absurd (ground arith)

-- On a valid socket `fill` moves addresses, in order, from the top of the receive pool to the end of the
-- fill ring: as many as are asked for, as the pool holds and as the ring has free slots, and none if the
-- socket is closing. It returns their number, and changes nothing else but its count of filled frames.
pub fill_lem : (s : Socket) (n : ℕ) → IsValid s → Fills s n
unfolding fill
fill_lem s n v = elim (Bool-cases s.closing) [
  | inl e ↦ (
    s.rx_pool,
    s.fill_ring,
    [],
    rw (e, +ℤ-zero s.num_filled),
    append-nil _,
    sym (append-nil _),
    v.fill_ok,
    rw e refl,
  )
  | inr e ↦ elim (Bool-cases (length addrs == 0)) [
    | inl z ↦ (
      pool,
      s.fill_ring,
      [],
      rw (e, z, +ℤ-zero s.num_filled),
      ap (◌++◌ pool.free) (sym (nil_of_length addrs z)) ∙ split,
      sym (append-nil _),
      v.fill_ok,
      rw e (sym (ap length (nil_of_length addrs z)) ∙ moves),
    )
    | inr z ↦ (pool, published, addrs, rw (e, z), split, sent.0, sent.2, rw e moves)
  ]
]
  where
    free : ℕ
    free = free_slots s.options.fill_ring_num_descs s.fill_ring

    pool : FramePool
    pool = (Pool.pop s.rx_pool (capped n free) []).0

    addrs : List ℕ
    addrs = (Pool.pop s.rx_pool (capped n free) []).1

    split : pool.free ++ addrs ≡ s.rx_pool.free
    split = pop-append s.rx_pool (capped n free)

    moves :
        length addrs
        ≡ min (length s.rx_pool.free) (
            min n
              (s.options.fill_ring_num_descs - u32_sub s.fill_ring.producer s.fill_ring.consumer))
    moves = ground (
      arith,
      length-pop s.rx_pool (capped n free),
      free-add-used v.fill_size s.fill_ring v.fill_ok,
    )

    published : Ring ℕ
    published = publish (s.options.fill_ring_num_descs - 1) s.fill_ring addrs

    sent :
        (entries s.options.fill_ring_num_descs published
          ≡ entries s.options.fill_ring_num_descs s.fill_ring ++ addrs)
        × (u32_sub published.producer published.consumer
            ≡ u32_sub s.fill_ring.producer s.fill_ring.consumer + length addrs)
        × Window.IsValid s.options.fill_ring_num_descs published
    sent = publish_lem v.fill_size s.fill_ring addrs v.fill_ok (
        ground (
          arith,
          length-pop s.rx_pool (capped n free),
          free-add-used v.fill_size s.fill_ring v.fill_ok,
        ))

pub -ℤ-zero : (z : ℤ) → z -ℤ 0 ≡ z
-ℤ-zero (pos n) = ground arith
-ℤ-zero (negsuc n) = ground arith

abbrev pub Receives : Socket → ℕ → Type 0
Receives s n =
    (r : Ring Desc) × (ds : List Desc) × (receive s n
      ≡ (record s { rx_ring = r; num_filled = s.num_filled -ℤ length ds }, ds))
    × (ds ++ entries s.options.rx_ring_num_descs r ≡ entries s.options.rx_ring_num_descs s.rx_ring)
    × Window.IsValid s.options.rx_ring_num_descs r
    × (length ds ≤ n)

-- On a valid socket `receive` returns the oldest descriptors of the rx ring, in order, at most as many as
-- asked for, takes them off, and changes nothing else but its count of filled frames.
pub receive_lem : (s : Socket) (n : ℕ) → IsValid s → Receives s n
unfolding receive
receive_lem s n v = elim (Bool-cases s.closing) [
  | inl e ↦ (s.rx_ring, [], rw (e, -ℤ-zero s.num_filled), refl, v.rx_ok, omega arith)
  | inr e ↦ (taken.0, taken.1, rw (e, took.1), took.0, took.3, ground (arith, took.1))
]
  where
    m : ℕ
    m = capped n (waiting s.options.rx_ring_num_descs s.rx_ring)

    taken : Ring Desc × List Desc
    taken = consume (s.options.rx_ring_num_descs - 1) s.rx_ring m

    took :
        (taken.1 ++ entries s.options.rx_ring_num_descs taken.0
          ≡ entries s.options.rx_ring_num_descs s.rx_ring)
        × (length taken.1 ≡ m)
        × (u32_sub taken.0.producer taken.0.consumer + m
            ≡ u32_sub s.rx_ring.producer s.rx_ring.consumer)
        × Window.IsValid s.options.rx_ring_num_descs taken.0
    took =
        consume_lem v.rx_size s.rx_ring m v.rx_ok
          (ground (arith, waiting-eq-used v.rx_size s.rx_ring v.rx_ok))
