-- ===== src/Pool/Frames.antt =====
-- The frames that a pool starts with: each once, and none of another pool's.
use native.Mathlib.Decide.{ℕ_discrete}
use go_afxdp.Prelude.{ℕ, zero, suc, ◌+◌, ◌*◌, ◌≤◌, ◌<◌, ◌≡◌, refl, arith, ==_refl}
use go_afxdp.Prelude.Count.{count}
use go_afxdp.Pool.{frames}

module _ (fs : ℕ) (pos : 0 < fs) where
  -- No frame below the first.
  count-frames_below : (f b n : ℕ) → f < b * fs → count f (frames b n fs) ≡ 0
  unfolding count frames
  count-frames_below f b zero h = refl
  count-frames_below f b (suc n) h = ground (arith, count-frames_below f (b + 1) n)

  pub count-frames_le : (f b n : ℕ) → count f (frames b n fs) ≤ 1
  unfolding count frames
  count-frames_le f b zero = omega arith
  count-frames_le f b (suc n) =
      ground (arith, count-frames_le f (b + 1) n, count-frames_below f (b + 1) n)

  scale : (a b : ℕ) → a ≤ b → a * fs ≤ b * fs
  scale a b h = grind arith

  -- Frame `i` is one of them exactly if its index is in the range.
  pub count-frames_in : (i b n : ℕ) → b ≤ i → i < b + n → count (i * fs) (frames b n fs) ≡ 1
  unfolding count frames
  count-frames_in i b zero h k = absurd (omega arith)
  count-frames_in i b (suc n) h k = elim (ℕ_discrete b i) [
    | yes e ↦
        rw (e, ==_refl (i * fs))
          (omega (arith, count-frames_below (i * fs) (i + 1) n (omega arith)))
    | no ne ↦ ground (
      arith,
      scale (b + 1) i (omega arith),
      count-frames_in i (b + 1) n (omega arith) (omega arith),
    )
  ]

  pub count-frames_out : (i b n : ℕ) → b + n ≤ i → count (i * fs) (frames b n fs) ≡ 0
  unfolding count frames
  count-frames_out i b zero h = refl
  count-frames_out i b (suc n) h =
      ground (arith, scale (b + 1) i (omega arith), count-frames_out i (b + 1) n (omega arith))
