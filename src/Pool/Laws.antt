-- ===== src/Pool/Laws.antt =====
-- What the frame pool promises: no address is lost or made up, and `pop` gives as many as it can.
use go_afxdp.Prelude.{
  ℕ, ◌+◌, ◌-◌, min, ◌≡◌, refl, List, [], ◌∷◌, ◌++◌, arith, ltb, ◌==◌, if◌then◌else◌, length, take,
  drop, length-drop, take-append-drop, take-of_length_le, append-nil, Bool-cases, ==_iff, inl, inr,
}
use go_afxdp.Prelude.Count.{count, count-append, count-take-drop}
use go_afxdp.Pool.{FramePool, len, pop, push}

take_all : (xs : List ℕ) → take (length xs) xs ≡ xs
take_all xs = take-of_length_le (length xs) xs (omega arith)

drop_all : (xs : List ℕ) → drop (length xs) xs ≡ []
drop_all [] = refl
drop_all (x ∷ xs) = drop_all xs

-- What `pop` hands out.
abbrev popped : FramePool → ℕ → List ℕ
popped p n = drop (len p - min n (len p)) p.free

pop-eq :
    (p : FramePool) (n : ℕ) (dst : List ℕ)
    → pop p n dst ≡ (record { free = take (len p - min n (len p)) p.free }, dst ++ popped p n)
unfolding pop
pop-eq p n dst = elim (Bool-cases (clamp == 0)) [
  | inl z ↦
      rw (z, m-eq, (==_iff clamp 0).0 z, sub-zero, take_all p.free, drop_all p.free, append-nil)
  | inr z ↦ rw (z, m-eq)
]
  where
    clamp : ℕ
    clamp = if ltb (len p) n then len p else n

    m-eq : min n (len p) ≡ clamp
    m-eq = ground arith

    sub-zero : len p - 0 ≡ len p
    sub-zero = omega arith

-- `pop` moves the top `min n len` addresses of the pool, in order, to the end of `dst`, and leaves
-- the rest: together they are the old pool.
pub pop_lem :
    (p : FramePool) (n : ℕ) (dst : List ℕ)
    → let (p', out) = pop p n dst in
      (moved : List ℕ) × (out ≡ dst ++ moved)
      × (p'.free ++ moved ≡ p.free)
      × (length moved ≡ min n (len p))
pop_lem p n dst = rw (pop-eq p n dst) (
  popped p n,
  refl,
  take-append-drop (len p - min n (len p)) p.free,
  omega (arith, length-drop (len p - min n (len p)) p.free),
)

pub count-pop :
    (a : ℕ) (p : FramePool) (n : ℕ)
    → let (p', out) = pop p n [] in count a p'.free + count a out ≡ count a p.free
count-pop a p n = rw (pop-eq p n []) (count-take-drop a (len p - min n (len p)) p.free)

pub pop-append : (p : FramePool) (n : ℕ) → (pop p n []).0.free ++ (pop p n []).1 ≡ p.free
pop-append p n = rw (pop-eq p n []) (take-append-drop (len p - min n (len p)) p.free)

pub length-pop : (p : FramePool) (n : ℕ) → length (pop p n []).1 ≡ min n (len p)
length-pop p n = rw (pop-eq p n []) (omega (arith, length-drop (len p - min n (len p)) p.free))

pub count-push :
    (a : ℕ) (p : FramePool) (addr : ℕ)
    → count a (push p addr).free ≡ count a p.free + count a (addr ∷ [])
unfolding push
count-push a p addr = count-append a p.free (addr ∷ [])
