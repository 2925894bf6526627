-- ===== src/World/Steps.antt =====
-- Every move of the application and of the kernel hands frames on: none is lost, doubled, or, without
-- hairpin mode, passed from one direction to the other.
use go_afxdp.Prelude.{ℕ, ◌+◌, ◌≡◌, refl, ap, subst, ◌∙◌, Bool, true, Option}
use go_afxdp.Socket.Inv.{IsValid}
use go_afxdp.World.{
  World, Reach, here, next, rx_owned, tx_owned, Step, fills, receives, recycles, allocs, transmits,
  forwards, completes, closes, takes_fill, delivers, takes_tx, finishes, wakes,
}
use go_afxdp.World.Kept.{Kept}
use go_afxdp.World.Calls.{
  fills-Kept, receives-Kept, recycles-Kept, allocs-Kept, transmits-Kept, forwards-Kept,
  completes-Kept,
}
use go_afxdp.World.Moves.{takes_fill-Kept, delivers-Kept, takes_tx-Kept, finishes-Kept}

-- The closing flag and the flag words hold no frame.
plain-Kept :
    (w : World) (b : Bool) (x y : Option ℕ)
    → IsValid w.sock
    → Kept w (record w {
      sock = record w.sock {
        closing = b;
        fill_ring = record w.sock.fill_ring { flags = x };
        tx_ring = record w.sock.tx_ring { flags = y };
      };
    })
plain-Kept w b x y v = record {
  valid = assumption v;
  options = refl;
  total = λ f. refl;
  split = λ h f. refl;
}

pub Step-Kept : {w u : World} → IsValid w.sock → Step w u → Kept w u
Step-Kept {w} {u} v (fills n q) = fills-Kept w u v n q
Step-Kept {w} {u} v (receives n q) = receives-Kept w u v n q
Step-Kept {w} {u} v (recycles b d a held q) = recycles-Kept w u v b d a held q
Step-Kept {w} {u} v (allocs n q) = allocs-Kept w u v n q
Step-Kept {w} {u} v (transmits b d d' a ans held same q) =
    transmits-Kept w u v b d d' a ans held same q
Step-Kept {w} {u} v (forwards b d d' a ans hairpin held same q) =
    forwards-Kept w u v b d d' a ans hairpin held same q
Step-Kept {w} {u} v (completes n q) = completes-Kept w u v n q
Step-Kept {w} {u} v (closes q) =
    rw q (plain-Kept w true w.sock.fill_ring.flags w.sock.tx_ring.flags v)
Step-Kept {w} {u} v (takes_fill h q) = takes_fill-Kept w u v h q
Step-Kept {w} {u} v (delivers b a c d held same space q) =
    delivers-Kept w u v b a c d held same space q
Step-Kept {w} {u} v (takes_tx h q) = takes_tx-Kept w u v h q
Step-Kept {w} {u} v (finishes b a c d held same space q) =
    finishes-Kept w u v b a c d held same space q
Step-Kept {w} {u} v (wakes x y q) = rw q (plain-Kept w w.sock.closing x y v)

-- So any number of moves keeps.
pub Reach-Kept : {w u : World} → IsValid w.sock → Reach w u → Kept w u
Reach-Kept v here = record { valid = v; options = refl; total = λ f. refl; split = λ h f. refl }
Reach-Kept {w} v (next {u} {v = x} r st) =
    let k = Reach-Kept v r in
    let m = Step-Kept k.valid st in
    record {
      valid = m.valid;
      options = m.options ∙ k.options;
      total = λ f.
          subst
            (λ o.
              rx_owned o.frame_size f x + tx_owned o.frame_size f x
              ≡ rx_owned o.frame_size f u + tx_owned o.frame_size f u)
            k.options (m.total f)
          ∙ k.total f;
      split = λ h f.
          subst (λ o. rx_owned o.frame_size f x ≡ rx_owned o.frame_size f u) k.options
            (m.split (ap (λ o. o.tx_reuse_rx_frames) k.options ∙ h) f)
          ∙ k.split h f;
    }
