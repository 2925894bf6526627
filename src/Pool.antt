-- ===== src/Pool.antt =====
-- pool.go: `framePool`, the LIFO free list of UMEM frame addresses of one direction. The slice's
-- end is the stack's top.
pub mod Laws
pub mod Frames
use go_afxdp.Prelude.{
  ℕ, zero, suc, ◌+◌, ◌-◌, ◌*◌, List, [], ◌∷◌, ◌++◌, ltb, ◌==◌, if◌then◌else◌, length, take, drop,
}

pub record FramePool : Type 0 where
  pub free : List ℕ

-- `count` frames from index `base` on.
unfoldable pub frames : ℕ → ℕ → ℕ → List ℕ
frames base zero frame_size = []
frames base (suc count) frame_size = (base * frame_size) ∷ frames (base + 1) count frame_size

unfoldable pub new_frame_pool : ℕ → ℕ → ℕ → FramePool
new_frame_pool base count frame_size = record { free = frames base count frame_size }

abbrev pub len : FramePool → ℕ
len p = length p.free

-- Up to `n` addresses from the top, appended to `dst`; the pool and the grown slice.
unfoldable pub pop : FramePool → ℕ → List ℕ → FramePool × List ℕ
pop p n dst =
    let m = if ltb (len p) n then len p else n in
    if m == 0
    then (p, dst)
    else let start = len p - m in (record { free = take start p.free }, dst ++ drop start p.free)

unfoldable pub push : FramePool → ℕ → FramePool
push p addr = record { free = p.free ++ (addr ∷ []) }
