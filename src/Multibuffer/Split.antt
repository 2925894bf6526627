-- ===== src/Multibuffer/Split.antt =====
-- Sending a payload over several frames: whole packets, of the right length, within the budget.
use native.Mathlib.Nat.{div-add-mod, mod-lt}
use go_afxdp.Prelude.{
  ℕ, zero, suc, ◌+◌, ◌-◌, ◌*◌, ◌/◌, ◌%◌, ◌≤◌, ◌<◌, ◌≡◌, refl, ap, true, false, List, [], ◌∷◌, All,
  Bool-cases, inl, inr, ◌⊎◌, length, take, drop, min, ltb, ◌==◌, arith, length-drop, if◌then◌else◌,
}
use go_afxdp.Options.{xdp_pkt_contd}
use go_afxdp.Ring.{u32}
use go_afxdp.Socket.{Desc}
use go_afxdp.Multibuffer.{packet_len, contd, frames_of, fit, write_frags, write_bytes}
use go_afxdp.Multibuffer.Group.{IsWhole}

-- For a positive frame size, the frames counted for a payload hold it, and one fewer would not, but for an
-- empty payload, which takes one frame.
pub frames_of_lem :
    (fs : ℕ) (p : List ℕ)
    → 0 < fs
    → (length p ≤ frames_of fs p * fs)
      × (0 < frames_of fs p)
      × (((frames_of fs p - 1) * fs < length p) ⊎ ((length p ≡ 0) × (frames_of fs p ≡ 1)))
unfolding frames_of
frames_of_lem fs p h = elim (Bool-cases (ltb 0 q)) [
  | inl c ↦ rw c (frames_suc (q - 1) (ground arith))
  | inr c ↦ let none_left : q ≡ 0 = ground arith in rw c (frames_zero none_left)
]
  where
    q : ℕ
    q = (length p + fs - 1) / fs

    r : ℕ
    r = (length p + fs - 1) % fs

    divides : q * fs + r ≡ length p + fs - 1
    divides = grind (arith, div-add-mod (length p + fs - 1) fs)

    r-lt : r < fs
    r-lt = mod-lt (length p + fs - 1) h

    frames_zero :
        q ≡ 0
        → (length p ≤ 1 * fs)
          × (0 < 1)
          × (((1 - 1) * fs < length p) ⊎ ((length p ≡ 0) × ◌≡◌ {A = ℕ} 1 1))
    frames_zero e =
        let none_there : length p ≡ 0 = grind (arith, divides, r-lt) in
        (omega arith, omega arith, inr (none_there, refl))

    frames_suc :
        (k : ℕ)
        → q ≡ suc k
        → (length p ≤ q * fs) × (0 < q) × (((q - 1) * fs < length p) ⊎ ((length p ≡ 0) × (q ≡ 1)))
    frames_suc k e =
        let m : q * fs ≡ k * fs + fs = grind arith in
        let m' : (q - 1) * fs ≡ k * fs = ap (λ t. t * fs) (omega arith) in
        (omega (arith, divides, r-lt), omega arith, inl (omega (arith, divides, r-lt)))

-- `n` descriptors of whole frames.
abbrev pub Sized : ℕ → List Desc → Type 0
Sized fs ds = All (λ d. d.len ≡ fs) ds

suc_ne : (j : ℕ) → (suc j == 0) ≡ false
suc_ne j = ground arith

pub write_frags_lem :
    (umem : ℕ → ℕ) (fs j : ℕ) (p : List ℕ) (ds : List Desc)
    → 0 < fs
    → fs < u32
    → Sized fs ds
    → suc j ≤ length ds
    → length p ≤ suc j * fs
    → let (umem', out, rest) = write_frags umem (suc j) p ds in
      (packet_len out ≡ length p) × IsWhole out × (length out ≡ suc j) × (rest ≡ drop (suc j) ds)
unfolding write_frags packet_len
write_frags_lem umem fs j p [] pos small sized enough fits = absurd (omega arith)
write_frags_lem umem fs zero p (d ∷ ds) pos small sized enough fits =
    (omega (arith, sized.0), ([], _, refl, tt, unfold contd in refl), refl, refl)
write_frags_lem umem fs (suc j) p (d ∷ ds) pos small sized enough fits =
    let (len, (front, last, e, opened, done), count, rest) =
      write_frags_lem (write_bytes umem d.addr (take (min d.len (length p)) p)) fs j
        (drop (min d.len (length p)) p) ds pos small sized.1 (omega arith) room in
    (
      omega (arith, sized.0, len, length-drop (min d.len (length p)) p),
      (first ∷ front, last, ap (◌∷◌ first) e, (first-contd, opened), done),
      ap suc count,
      rest,
    )
  where
    split : suc (suc j) * fs ≡ suc j * fs + fs
    split = grind arith

    room : length (drop (min d.len (length p)) p) ≤ suc j * fs
    room = omega (arith, sized.0, split, length-drop (min d.len (length p)) p)

    first : Desc
    first = record d {
      len = min d.len (length p) % u32;
      options = if suc j == 0 then 0 else xdp_pkt_contd;
    }

    first-contd : contd first ≡ true
    first-contd = unfold contd in (rw (suc_ne j) refl)

-- The frames of some payloads.
abbrev pub frames_in : ℕ → List (List ℕ) → ℕ
frames_in fs [] = 0
frames_in fs (p ∷ ps) = frames_of fs p + frames_in fs ps

-- From a count within the budget, the loop adds the first `m` payloads and their frames, stays within the
-- budget, and stops short of all payloads only where the next one goes over it.
pub fit_lem :
    (fs budget n k : ℕ) (ps : List (List ℕ))
    → n ≤ budget
    → let (frames, pkts) = fit fs budget n k ps in
      (m : ℕ) × (pkts ≡ k + m)
      × (frames ≡ n + frames_in fs (take m ps))
      × (frames ≤ budget)
      × (m ≤ length ps)
      × ((m ≡ length ps) ⊎ (budget < n + frames_in fs (take (suc m) ps)))
unfolding fit
fit_lem fs budget n k [] h = (0, omega arith, omega arith, h, omega arith, inl refl)
fit_lem fs budget n k (p ∷ ps) h = elim (Bool-cases (ltb budget (n + frames_of fs p))) [
  | inl c ↦ rw c (0, omega arith, omega arith, h, omega arith, inr (ground arith))
  | inr c ↦
      let (m, e, f, b, l, g) = fit_lem fs budget (n + frames_of fs p) (k + 1) ps (ground arith) in
      rw c (
        suc m,
        omega (arith, e),
        omega (arith, f),
        b,
        omega arith,
        elim g [ inl q ↦ inl (ap suc q) | inr q ↦ inr (omega (arith, q)) ],
      )
]

-- With enough descriptors of whole frames, of a positive size in 32 bits, the fragments of one payload of
-- `sendBatchSG` make up one whole packet of its length, over as many frames as were counted for it; the
-- other descriptors are left.
pub write_frags-IsWhole :
    (umem : ℕ → ℕ) (fs : ℕ) (p : List ℕ) (ds : List Desc)
    → 0 < fs
    → fs < u32
    → Sized fs ds
    → frames_of fs p ≤ length ds
    → let (umem', out, rest) = write_frags umem (frames_of fs p) p ds in
      (packet_len out ≡ length p)
      × IsWhole out
      × (length out ≡ frames_of fs p)
      × (rest ≡ drop (frames_of fs p) ds)
write_frags-IsWhole umem fs p ds pos small sized enough =
    let (holds, some_frame, tight) = frames_of_lem fs p pos in
    let e : suc (frames_of fs p - 1) ≡ frames_of fs p = omega (arith, some_frame) in
    rw (← e)
      (write_frags_lem umem fs (frames_of fs p - 1) p ds pos small sized (omega arith) (rw e holds))
