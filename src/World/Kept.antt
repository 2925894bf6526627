-- ===== src/World/Kept.antt =====
-- What every move of the application and of the kernel keeps, and the tallies of lists that were split.
use go_afxdp.Prelude.{ℕ, ◌+◌, ◌≡◌, refl, ap, sym, ◌∙◌, false, List, [], ◌∷◌, ◌++◌, map}
use mathlib.Core.List.{map-append}
use go_afxdp.Socket.{Socket, Desc}
use go_afxdp.Socket.Frames.{tally, tally-append, addrs}
use go_afxdp.Socket.Inv.{IsValid}
use go_afxdp.Socket.Tx.{tx_desc}
use go_afxdp.World.{World, rx_owned, tx_owned}

-- What a step keeps, measured at the frame size of the first world.
pub record Kept (w u : World) : Type 0 where
  pub valid : IsValid u.sock
  pub options : u.sock.options ≡ w.sock.options
  pub total :
      (f : ℕ)
      → rx_owned w.sock.options.frame_size f u + tx_owned w.sock.options.frame_size f u
        ≡ rx_owned w.sock.options.frame_size f w + tx_owned w.sock.options.frame_size f w
  pub split :
      w.sock.options.tx_reuse_rx_frames ≡ false
      → (f : ℕ) → rx_owned w.sock.options.frame_size f u ≡ rx_owned w.sock.options.frame_size f w

-- Splitting a tally where a list was split.
pub parts :
    (fs f : ℕ) (xs ys : List ℕ) {zs : List ℕ}
    → xs ++ ys ≡ zs
    → tally fs f xs + tally fs f ys ≡ tally fs f zs
parts fs f xs ys e = sym (tally-append fs f xs ys) ∙ ap (tally fs f) e

pub desc_parts :
    (fs f : ℕ) (xs ys : List Desc) {zs : List Desc}
    → xs ++ ys ≡ zs
    → tally fs f (addrs xs) + tally fs f (addrs ys) ≡ tally fs f (addrs zs)
desc_parts fs f xs ys e =
    sym (tally-append fs f (addrs xs) (addrs ys))
    ∙ ap (tally fs f) (sym (map-append _ xs ys) ∙ ap addrs e)

pub addrs-tx_desc : (s : Socket) (xs : List ℕ) → addrs (map (tx_desc s) xs) ≡ xs
addrs-tx_desc s [] = refl
addrs-tx_desc s (x ∷ xs) = ap (◌∷◌ x) (addrs-tx_desc s xs)
