-- ===== src/World/Own.antt =====
-- What `NewSocket` starts from, and who owns a frame in every reachable world.
use native.Mathlib.Nat.{mul-mod_left, pow-le-pow_right}
use native.Mathlib.Decide.{dec_le}
use go_afxdp.Prelude.{
  ℕ, zero, suc, ◌+◌, ◌-◌, ◌*◌, ◌^◌, ◌≤◌, ◌<◌, ◌≡◌, ◌≢◌, refl, ap, ap₂, sym, subst, ◌∙◌, false,
  Option, none, some, [], ◌∷◌, ◌++◌, arith, ◌==◌, if◌then◌else◌, Option-cases, Bool-cases, ltb,
  ltb→lt, inl, inr,
}
use go_afxdp.Prelude.Bits.{pow_of_bit_and-pred}
use go_afxdp.Prelude.Count.{count, count-append}
use go_afxdp.Options.{Options, SocketError, not_pow2, check_options, with_defaults}
use go_afxdp.Pool.{frames, new_frame_pool}
use go_afxdp.Pool.Frames.{count-frames_in, count-frames_out}
use go_afxdp.Ring.{u32}
use go_afxdp.Ring.Window.{IsSize}
use go_afxdp.Socket.{Socket, mapped, new_socket, fill, opened}
use go_afxdp.Socket.Frames.{tally}
use go_afxdp.Socket.Inv.{IsValid}
use go_afxdp.World.{World, Reach, next, here, Step, fills, rx_owned, tx_owned}
use go_afxdp.World.Kept.{Kept}
use go_afxdp.World.Steps.{Reach-Kept}

-- A socket that nobody has used yet.
abbrev pub fresh : Socket → World
fresh s = record { sock = s; kernel_rx = []; kernel_tx = []; app_rx = []; app_tx = [] }

-- What the options hold that `NewSocket` accepts.
pub record Accepted (o : Options) : Type 0 where
  pub frames_pos : 0 < o.num_frames
  pub tx_pos : 0 < o.tx_frames
  pub tx_lt : o.tx_frames < o.num_frames
  pub fill_pow : not_pow2 o.fill_ring_num_descs ≡ false
  pub completion_pow : not_pow2 o.completion_ring_num_descs ≡ false
  pub rx_pow : not_pow2 o.rx_ring_num_descs ≡ false
  pub tx_pow : not_pow2 o.tx_ring_num_descs ≡ false
  pub fill_le : o.fill_ring_num_descs ≤ o.num_frames - o.tx_frames

-- Options that pass the checks are consistent.
pub check_options-Accepted : (o : Options) → check_options o ≡ none → Accepted o
unfolding check_options
check_options-Accepted o h = ground arith

small_log : (k : ℕ) → 2 ^ k < u32 → k ≤ 31
small_log k h = elim (dec_le k 31) [
  | yes p ↦ p
  | no p ↦
      absurd (omega (arith, pow-le-pow_right {n = 2} (omega arith) {i = 32} {j = k} (omega arith)))
]

IsSize-of_pow : (v : ℕ) → v ≢ 0 → v < u32 → not_pow2 v ≡ false → IsSize v
unfolding not_pow2
IsSize-of_pow v nz small h =
    let (k, e) = pow_of_bit_and-pred v (omega arith) (ground arith) in
    record { log = k; small = small_log k (omega (arith, e)); is_pow = e }

tally-frames : (fs f b n : ℕ) → tally fs f (frames b n fs) ≡ count f (frames b n fs)
unfolding count frames
tally-frames fs f b zero = refl
tally-frames fs f b (suc n) =
    ap₂ (λ x k. (if x == f then 1 else 0) + k) (omega (arith, mul-mod_left b fs))
      (tally-frames fs f (b + 1) n)

-- The kernel holds ring sizes in 32 bits.
pub record SmallRings (o : Options) : Type 0 where
  pub fill_small : o.fill_ring_num_descs < u32
  pub completion_small : o.completion_ring_num_descs < u32
  pub rx_small : o.rx_ring_num_descs < u32
  pub tx_small : o.tx_ring_num_descs < u32

record Defaulted (o : Options) : Type 0 where
  frame_size_pos : 0 < o.frame_size
  fill_pos : 0 < o.fill_ring_num_descs
  completion_pos : 0 < o.completion_ring_num_descs
  rx_pos : 0 < o.rx_ring_num_descs
  tx_pos : 0 < o.tx_ring_num_descs

with_defaults-Defaulted : (o : Option Options) → Defaulted (with_defaults o)
unfolding with_defaults
with_defaults-Defaulted none = omega arith
with_defaults-Defaulted (some o) = ground arith

module _ (o : Options) (flags : Option ℕ) (a : Accepted o) (d : Defaulted o)
    (z : SmallRings o) where
  mapped-IsValid : IsValid (mapped o flags)
  unfolding mapped
  mapped-IsValid = record {
    fill_size = IsSize-of_pow o.fill_ring_num_descs (omega arith) z.fill_small a.fill_pow;
    rx_size = IsSize-of_pow o.rx_ring_num_descs (omega arith) z.rx_small a.rx_pow;
    tx_size = IsSize-of_pow o.tx_ring_num_descs (omega arith) z.tx_small a.tx_pow;
    completion_size =
        IsSize-of_pow o.completion_ring_num_descs (omega arith) z.completion_small a.completion_pow;
    fill_ok = omega arith;
    rx_ok = omega arith;
    tx_ok = omega arith;
    completion_ok = omega arith;
  }

  mapped-rx :
      (f : ℕ)
      → rx_owned o.frame_size f (fresh (mapped o flags))
        ≡ count f (frames 0 (o.num_frames - o.tx_frames) o.frame_size)
  unfolding mapped new_frame_pool count
  mapped-rx f = omega (arith, tally-frames o.frame_size f 0 (o.num_frames - o.tx_frames))

  mapped-tx :
      (f : ℕ)
      → tx_owned o.frame_size f (fresh (mapped o flags))
        ≡ count f (frames (o.num_frames - o.tx_frames) o.tx_frames o.frame_size)
  unfolding mapped new_frame_pool count
  mapped-tx f = omega (arith, tally-frames o.frame_size f (o.num_frames - o.tx_frames) o.tx_frames)

frames-append : (fs b m n : ℕ) → frames b (m + n) fs ≡ frames b m fs ++ frames (b + m) n fs
unfolding frames
frames-append fs b zero n = ap₂ (λ s t. frames s t fs) (omega arith) (omega arith)
frames-append fs b (suc m) n =
    ap (λ t. frames b t fs) {x = suc m + n} {y = suc (m + n)} (omega arith)
    ∙ ap (◌∷◌ (b * fs)) (
        frames-append fs (b + 1) m n ∙ ap (λ t. frames (b + 1) m fs ++ frames t n fs) (omega arith))

count-split :
    (fs f m n : ℕ) {N : ℕ}
    → m + n ≡ N
    → count f (frames 0 m fs) + count f (frames m n fs) ≡ count f (frames 0 N fs)
count-split fs f m n e =
    ap (λ b. count f (frames 0 m fs) + count f (frames b n fs)) {y = 0 + m} (omega arith)
    ∙ sym (count-append f (frames 0 m fs) (frames (0 + m) n fs))
    ∙ ap (count f) (sym (frames-append fs 0 m n) ∙ ap (λ t. frames 0 t fs) e)

Reach-cons : {w u v : World} → Step w u → Reach u v → Reach w v
Reach-cons st here = next here st
Reach-cons st (next r st') = next (Reach-cons st r) st'

-- A world that the application and the kernel can reach from a socket that `NewSocket` returned.
module _ (options : Option Options) (flags : Option ℕ) {s : Socket} {w : World}
    (made : new_socket options flags none ≡ opened s) (small : SmallRings (with_defaults options))
    (reached : Reach (fresh s) w) where
  abbrev o : Options
  o = with_defaults options

  -- What `NewSocket` returns is the mapped socket with its fill ring populated.
  opening : check_options o ≡ none → (fill (mapped o flags) o.fill_ring_num_descs).0 ≡ s
  unfolding new_socket
  opening e = ground arith

  not_refused : {e : SocketError} → check_options o ≡ some e → ⊥
  unfolding new_socket
  not_refused h = ground arith

  start : Reach (fresh (mapped o flags)) w × Accepted o
  start = elim (Option-cases (check_options o)) [
    | inl e ↦ (
      Reach-cons (fills o.fill_ring_num_descs refl)
          (subst (λ t. Reach (fresh t) w) (sym (opening e)) reached),
      check_options-Accepted o e,
    )
    | inr (e, h) ↦ absurd (not_refused h)
  ]

  abbrev fs : ℕ
  fs = o.frame_size

  defaulted : Defaulted o
  defaulted = with_defaults-Defaulted options

  kept : Kept (fresh (mapped o flags)) w
  kept = Reach-Kept (mapped-IsValid o flags start.1 defaulted small) start.0

  total-eq : (f : ℕ) → rx_owned fs f w + tx_owned fs f w ≡ count f (frames 0 o.num_frames fs)
  unfolding mapped
  total-eq f =
      kept.total f
      ∙ ap₂ ◌+◌ (mapped-rx o flags start.1 defaulted small f)
          (mapped-tx o flags start.1 defaulted small f)
      ∙ count-split fs f (o.num_frames - o.tx_frames) o.tx_frames (omega (arith, start.1.tx_lt))

  -- Whatever the application and the kernel do after `NewSocket`, the four rings have a power of two of
  -- slots, their indices are 32-bit, and no ring holds more entries than it has slots.
  pub reached-IsValid : IsValid w.sock
  reached-IsValid = kept.valid

  -- Whatever the application and the kernel do after `NewSocket`, in any order and also in hairpin mode,
  -- every frame of the UMEM is in exactly one place: a pool, a ring, the kernel's or the application's
  -- hands.
  pub frames_conserved :
      (i : ℕ) → i < o.num_frames → rx_owned fs (i * fs) w + tx_owned fs (i * fs) w ≡ 1
  frames_conserved i h =
      total-eq (i * fs)
      ∙ count-frames_in fs defaulted.frame_size_pos i 0 o.num_frames (omega arith) (omega arith)

  -- Without hairpin mode the receive side always holds exactly the first `NumFrames - TxFrames` frames and
  -- the transmit side exactly the others, whatever the application and the kernel do after `NewSocket`.
  pub directions_disjoint :
      o.tx_reuse_rx_frames ≡ false
      → (i : ℕ) → i < o.num_frames
      → (rx_owned fs (i * fs) w ≡ (if ltb i (o.num_frames - o.tx_frames) then 1 else 0))
        × (tx_owned fs (i * fs) w ≡ (if ltb i (o.num_frames - o.tx_frames) then 0 else 1))
  unfolding mapped
  directions_disjoint h i lt =
      let a = start.1 in
      let d = defaulted in
      let rx = kept.split h (i * fs) ∙ mapped-rx o flags a d small (i * fs) in
      let all = frames_conserved i lt in
      elim (Bool-cases (ltb i (o.num_frames - o.tx_frames))) [
        | inl low ↦
            let lo : i < o.num_frames - o.tx_frames = ltb→lt i (o.num_frames - o.tx_frames) low in
            let one =
              count-frames_in fs d.frame_size_pos i 0 (o.num_frames - o.tx_frames) (omega arith)
                (omega arith) in
            rw low (omega (arith, rx, one), omega (arith, rx, one, all))
        | inr high ↦
            let hi : o.num_frames - o.tx_frames ≤ i = ground arith in
            let no_one =
              count-frames_out fs d.frame_size_pos i 0 (o.num_frames - o.tx_frames) (omega arith) in
            rw high (omega (arith, rx, no_one), omega (arith, rx, no_one, all))
      ]
