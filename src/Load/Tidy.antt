-- ===== src/Load/Tidy.antt =====
-- What is open once a program has been made, or has not: nothing is leaked on any error path.
use go_afxdp.Prelude.{
  ℕ, ◌≡◌, refl, Bool, true, false, Option, none, some, List, [], ◌∷◌, Bool-cases, inl, inr, arith,
}
use go_afxdp.Redirect.{Maps}
use go_afxdp.Program.{new_maps, frags_flag}
use go_afxdp.Filter.Match.{Match}
use go_afxdp.Filter.Program.{Assembled, code, rejected, classifier_blocks, any_redirect}
use go_afxdp.Load.{
  Answers, Handles, all_closed, Body, redirect_all, pass_all, classify, Loading, loaded, failed,
  new_redirect_program, new_filter_program, load_pass, load_blocks, load_with_maps, make_xsks,
  make_qidconf,
}

abbrev pub has_maps : Body → Bool
has_maps pass_all = false
has_maps _ = true

-- The code that the matches ask for.
abbrev pub Asked : List Match → List Match → Body → Type 0
Asked exceptions matches redirect_all = ⊥
Asked exceptions matches pass_all = any_redirect matches ≡ false
Asked exceptions matches (classify is) =
    (any_redirect matches ≡ true) × (classifier_blocks exceptions matches ≡ code is)

abbrev pub maps_for : ℕ → Body → Option Maps
maps_for max_queues pass_all = none
maps_for max_queues _ = some (new_maps max_queues)

-- A failure leaves nothing open. A program that loads is open with its maps, and with nothing else; all
-- its queues are off, its flag says whether it takes packets in fragments, and its code is as asked.
abbrev pub Tidy : (Body → Type 0) → ℕ → Bool → Loading → Type 0
Tidy P max_queues frags (failed e h) = h ≡ all_closed
Tidy P max_queues frags (loaded p h) =
    (h ≡ record { qidconf = has_maps p.body; xsks = has_maps p.body; program = true })
    × (p.maps ≡ maps_for max_queues p.body)
    × (p.flags ≡ frags_flag frags)
    × P p.body

abbrev opened : Handles
opened = record { qidconf = true; xsks = true; program = false }

module _ (P : Body → Type 0) (max_queues : ℕ) (frags : Bool) where
  load_with_maps-Tidy :
      (b : Body) (l : Option ℕ)
      → has_maps b ≡ true
      → P b
      → Tidy P max_queues frags (load_with_maps b (frags_flag frags) (new_maps max_queues) l opened)
  load_with_maps-Tidy b (some e) h p = refl
  load_with_maps-Tidy redirect_all none h p = (refl, refl, refl, p)
  load_with_maps-Tidy (classify is) none h p = (refl, refl, refl, p)
  load_with_maps-Tidy pass_all none h p = absurd (ground arith)

  make_xsks-Tidy :
      (b : Body) (a : Answers) (x : Option ℕ)
      → has_maps b ≡ true
      → P b
      → Tidy P max_queues frags
          (make_xsks b (frags_flag frags) max_queues a x (record all_closed { qidconf = true }))
  make_xsks-Tidy b a none h p = load_with_maps-Tidy b a.load h p
  make_xsks-Tidy b a (some e) h p = refl

  make_qidconf-Tidy :
      (b : Body) (a : Answers) (x : Option ℕ)
      → has_maps b ≡ true
      → P b
      → Tidy P max_queues frags (make_qidconf b (frags_flag frags) max_queues a x all_closed)
  make_qidconf-Tidy b a none h p = make_xsks-Tidy b a a.xsks h p
  make_qidconf-Tidy b a (some e) h p = refl

-- NewProgram and NewMultiBufferProgram
pub new_redirect_program-Tidy :
    (max_queues : ℕ) (frags : Bool) (a : Answers)
    → Tidy (λ b. b ≡ redirect_all) max_queues frags (new_redirect_program max_queues frags a)
unfolding new_redirect_program
new_redirect_program-Tidy max_queues frags a =
    make_qidconf-Tidy (λ b. b ≡ redirect_all) max_queues frags redirect_all a a.qidconf refl refl

module _ (exceptions : List Match) (m : Match) (ms : List Match) (max_queues : ℕ)
    (frags : Bool) where
  load_pass-Tidy :
      (l : Option ℕ)
      → any_redirect (m ∷ ms) ≡ false
      → Tidy (Asked exceptions (m ∷ ms)) max_queues frags (load_pass (frags_flag frags) l)
  load_pass-Tidy none h = (refl, refl, refl, h)
  load_pass-Tidy (some e) h = refl

  load_blocks-Tidy :
      (a : Answers) (x : Assembled)
      → any_redirect (m ∷ ms) ≡ true
      → classifier_blocks exceptions (m ∷ ms) ≡ x
      → Tidy
          (Asked exceptions (m ∷ ms))
          max_queues
          frags
          (load_blocks max_queues (frags_flag frags) a x)
  load_blocks-Tidy a (rejected e) h k = refl
  load_blocks-Tidy a (code is) h k =
      make_qidconf-Tidy (Asked exceptions (m ∷ ms)) max_queues frags (classify is) a a.qidconf refl
        (h, k)

-- However the kernel answers: if newFilterProgram fails, no descriptor stays open; if it succeeds, the
-- program is open, with both maps, all queues off, exactly if some match can redirect, its flag is as
-- requested, and its code passes everything or consists of the blocks of the exceptions and matches.
pub new_filter_program-Tidy :
    (max_queues : ℕ) (exceptions matches : List Match) (frags : Bool) (a : Answers)
    → Tidy
        (Asked exceptions matches)
        max_queues
        frags
        (new_filter_program max_queues exceptions matches frags a)
unfolding new_filter_program
new_filter_program-Tidy max_queues exceptions [] frags a = refl
new_filter_program-Tidy max_queues exceptions (m ∷ ms) frags a =
    elim (Bool-cases (any_redirect (m ∷ ms))) [
      | inl h ↦ rw h (
          load_blocks-Tidy exceptions m ms max_queues frags a
            (classifier_blocks exceptions (m ∷ ms)) h refl)
      | inr h ↦ rw h (load_pass-Tidy exceptions m ms max_queues frags a.load h)
    ]
