-- ===== src/Socket/Frames.antt =====
-- The frames behind addresses: how often a frame stands in a list, whatever offset within it the
-- addresses have, and how the pools take frames back.
use native.Mathlib.Nat.{div-add-mod, mul-mod_right}
use go_afxdp.Prelude.{
  ℕ, ◌+◌, ◌-◌, ◌*◌, ◌/◌, ◌%◌, ◌≡◌, refl, ap, ◌∙◌, Bool, false, List, [], ◌∷◌, ◌++◌, map, arith, ltb,
  ◌&&◌, Bool-cases, inl, inr,
}
use mathlib.Core.List.{map-append}
use go_afxdp.Prelude.Count.{count, count-append, count-cons}
use go_afxdp.Pool
use go_afxdp.Pool.{FramePool}
use go_afxdp.Socket.{Socket, Desc, frame_base, return_frame, return_frames, recycle}

-- `frameBase` at a frame size.
abbrev pub base : ℕ → ℕ → ℕ
base fs addr = addr - addr % fs

-- How many of the addresses lie in the frame at `f`.
abbrev pub tally : ℕ → ℕ → List ℕ → ℕ
tally fs f xs = count f (map (base fs) xs)

abbrev pub addrs : List Desc → List ℕ
addrs = map (λ d. d.addr)

pub base-base : (fs a : ℕ) → base fs (base fs a) ≡ base fs a
base-base fs a = ap (λ t. t - t % fs) multiple ∙ omega (arith, mul-mod_right fs (a / fs), multiple)
  where
    multiple : a - a % fs ≡ fs * (a / fs)
    multiple = omega (arith, div-add-mod a fs)

pub tally-append :
    (fs f : ℕ) (xs ys : List ℕ) → tally fs f (xs ++ ys) ≡ tally fs f xs + tally fs f ys
tally-append fs f xs ys = ap (count f) (map-append _ xs ys) ∙ count-append f _ _

pub tally-cons :
    (fs f x : ℕ) (xs : List ℕ) → tally fs f (x ∷ xs) ≡ tally fs f (x ∷ []) + tally fs f xs
tally-cons fs f x xs = count-cons f (base fs x) (map (base fs) xs)

pub tally-push :
    (fs f a : ℕ) (p : FramePool)
    → tally fs f (Pool.push p (base fs a)).free ≡ tally fs f p.free + tally fs f (a ∷ [])
unfolding Pool.push
tally-push fs f a p =
    tally-append fs f p.free (base fs a ∷ [])
    ∙ ap (λ t. tally fs f p.free + count f (t ∷ [])) (base-base fs a)

-- What `Complete` does with the pools: all the frames come back, and to the transmit pool only,
-- unless the socket is in hairpin mode.
abbrev pub Back : Socket → List ℕ → FramePool → FramePool → Type 0
Back s xs p q =
    ((f : ℕ)
      → tally s.options.frame_size f p.free + tally s.options.frame_size f q.free
        ≡ tally s.options.frame_size f s.rx_pool.free
          + tally s.options.frame_size f s.tx_pool.free
          + tally s.options.frame_size f xs)
    × (s.options.tx_reuse_rx_frames ≡ false → p ≡ s.rx_pool)

abbrev pub Returns : Socket → List ℕ → Socket → Type 0
Returns s xs s' =
    (p : FramePool) × (q : FramePool) × (s' ≡ record s { rx_pool = p; tx_pool = q }) × Back s xs p q

return_frame_lem : (s : Socket) (a : ℕ) → Returns s (a ∷ []) (return_frame s a)
unfolding return_frame frame_base
return_frame_lem s a = elim (Bool-cases to_rx) [
  | inl e ↦ (
    Pool.push s.rx_pool (base fs a),
    s.tx_pool,
    rw e,
    (λ f. omega (arith, tally-push fs f a s.rx_pool), λ h. cc),
  )
  | inr e ↦ (
    s.rx_pool,
    Pool.push s.tx_pool (base fs a),
    rw e,
    (λ f. omega (arith, tally-push fs f a s.tx_pool), λ h. refl),
  )
]
  where
    fs : ℕ
    fs = s.options.frame_size

    to_rx : Bool
    to_rx =
        s.options.tx_reuse_rx_frames
        && ltb (base fs a) ((s.options.num_frames - s.options.tx_frames) * fs)

pub return_frames_lem : (s : Socket) (xs : List ℕ) → Returns s xs (return_frames s xs)
unfolding return_frames
return_frames_lem s [] =
    (s.rx_pool, s.tx_pool, refl, (λ f. unfold count in (omega arith), λ h. refl))
return_frames_lem s (a ∷ xs) =
    let (p, q, e, b) = return_frame_lem s a in
    let (p', q', e', b') = return_frames_lem (record s { rx_pool = p; tx_pool = q }) xs in
    (
      p',
      q',
      ap (λ u. return_frames u xs) e ∙ e',
      (
        λ f. omega (arith, b.0 f, b'.0 f, tally-cons s.options.frame_size f a xs),
        λ h. b'.1 h ∙ b.1 h,
      ),
    )

pub recycle_lem :
    (s : Socket) (ds : List Desc)
    → (p : FramePool) × (recycle s ds ≡ record s { rx_pool = p })
      × ((f : ℕ)
          → tally s.options.frame_size f p.free
            ≡ tally s.options.frame_size f s.rx_pool.free + tally s.options.frame_size f (addrs ds))
unfolding recycle frame_base
recycle_lem s [] = (s.rx_pool, refl, λ f. unfold count in (omega arith))
recycle_lem s (d ∷ ds) =
    let pool = Pool.push s.rx_pool (base s.options.frame_size d.addr) in
    let (p, e, t) = recycle_lem (record s { rx_pool = pool }) ds in
    (
      p,
      e,
      λ f. omega (
        arith,
        t f,
        tally-push s.options.frame_size f d.addr s.rx_pool,
        tally-cons s.options.frame_size f d.addr (addrs ds),
      ),
    )
