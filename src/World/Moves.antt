-- ===== src/World/Moves.antt =====
-- The kernel's moves on the four rings: each hands frames on, and loses or doubles none.
use go_afxdp.Prelude.{ℕ, ◌-◌, ◌≡◌, ◌<◌, refl, ap, sym, List, [], ◌∷◌, ◌++◌, arith}
use go_afxdp.Prelude.Count.{count}
use go_afxdp.Ring.{u32_sub, publish}
use go_afxdp.Ring.Window.{publish_lem, consume_lem}
use go_afxdp.Ring.Slots.{entries}
use go_afxdp.Socket.{Desc}
use go_afxdp.Socket.Frames.{base, addrs}
use go_afxdp.Socket.Inv.{IsValid}
use go_afxdp.World.{World, took, rx_owned}
use go_afxdp.World.Kept.{Kept, parts, desc_parts}

module _ (w u : World) (v : IsValid w.sock) where
  abbrev fs : ℕ
  fs = w.sock.options.frame_size

  pub takes_fill-Kept :
      0 < u32_sub w.sock.fill_ring.producer w.sock.fill_ring.consumer
      → u ≡ record w {
        sock = record w.sock {
          fill_ring = (took w.sock.options.fill_ring_num_descs w.sock.fill_ring).0;
        };
        kernel_rx = (took w.sock.options.fill_ring_num_descs w.sock.fill_ring).1 ++ w.kernel_rx;
      }
      → Kept w u
  takes_fill-Kept h q =
      let (ring, _, _, ok) = consume_lem v.fill_size w.sock.fill_ring 1 v.fill_ok h in
      let (r, xs) = took w.sock.options.fill_ring_num_descs w.sock.fill_ring in
      let rx = λ (f : ℕ).
        let e : rx_owned fs f
              (record w { sock = record w.sock { fill_ring = r }; kernel_rx = xs ++ w.kernel_rx })
            ≡ rx_owned fs f w =
          omega (
            arith,
            parts fs f xs (entries w.sock.options.fill_ring_num_descs r) ring,
            parts fs f xs w.kernel_rx refl,
          ) in
        e in
      rw q (record {
        valid = assumption ok;
        options = refl;
        total = λ f. omega (arith, rx f);
        split = λ h f. rx f;
      })

  pub delivers-Kept :
      (before : List ℕ) (a : ℕ) (after : List ℕ) (d : Desc)
      → w.kernel_rx ≡ before ++ (a ∷ after)
      → base fs d.addr ≡ base fs a
      → u32_sub w.sock.rx_ring.producer w.sock.rx_ring.consumer < w.sock.options.rx_ring_num_descs
      → u ≡ record w {
        sock = record w.sock {
          rx_ring = publish (w.sock.options.rx_ring_num_descs - 1) w.sock.rx_ring (d ∷ []);
        };
        kernel_rx = before ++ after;
      }
      → Kept w u
  delivers-Kept before a after d held same space q =
      let (ring, _, ok) = publish_lem v.rx_size w.sock.rx_ring (d ∷ []) v.rx_ok (omega arith) in
      let r = publish (w.sock.options.rx_ring_num_descs - 1) w.sock.rx_ring (d ∷ []) in
      let rx = λ (f : ℕ).
        let e : rx_owned fs f
              (record w { sock = record w.sock { rx_ring = r }; kernel_rx = before ++ after })
            ≡ rx_owned fs f w =
          omega (
            arith,
            desc_parts fs f (entries w.sock.options.rx_ring_num_descs w.sock.rx_ring) (d ∷ [])
                (sym ring),
            parts fs f before (a ∷ after) (sym held),
            parts fs f (a ∷ []) after refl,
            parts fs f before after refl,
            ap (λ t. count f (t ∷ [])) same,
          ) in
        e in
      rw q (record {
        valid = assumption ok;
        options = refl;
        total = λ f. omega (arith, rx f);
        split = λ h f. rx f;
      })

  pub takes_tx-Kept :
      0 < u32_sub w.sock.tx_ring.producer w.sock.tx_ring.consumer
      → u ≡ record w {
        sock = record w.sock { tx_ring = (took w.sock.options.tx_ring_num_descs w.sock.tx_ring).0 };
        kernel_tx = addrs (took w.sock.options.tx_ring_num_descs w.sock.tx_ring).1 ++ w.kernel_tx;
      }
      → Kept w u
  takes_tx-Kept h q =
      let (ring, _, _, ok) = consume_lem v.tx_size w.sock.tx_ring 1 v.tx_ok h in
      let (r, ds) = took w.sock.options.tx_ring_num_descs w.sock.tx_ring in
      rw q (record {
        valid = assumption ok;
        options = refl;
        total = λ f. omega (
          arith,
          desc_parts fs f ds (entries w.sock.options.tx_ring_num_descs r) ring,
          parts fs f (addrs ds) w.kernel_tx refl,
        );
        split = λ h f. refl;
      })

  pub finishes-Kept :
      (before : List ℕ) (a : ℕ) (after : List ℕ) (b : ℕ)
      → w.kernel_tx ≡ before ++ (a ∷ after)
      → base fs b ≡ base fs a
      → u32_sub w.sock.completion_ring.producer w.sock.completion_ring.consumer
        < w.sock.options.completion_ring_num_descs
      → u ≡ record w {
        sock = record w.sock {
          completion_ring =
              publish
                (w.sock.options.completion_ring_num_descs - 1)
                w.sock.completion_ring
                (b ∷ []);
        };
        kernel_tx = before ++ after;
      }
      → Kept w u
  finishes-Kept before a after b held same space q =
      let (ring, _, ok) =
        publish_lem v.completion_size w.sock.completion_ring (b ∷ []) v.completion_ok
          (omega arith) in
      rw q (record {
        valid = assumption ok;
        options = refl;
        total = λ f. omega (
          arith,
          parts fs f (entries w.sock.options.completion_ring_num_descs w.sock.completion_ring)
              (b ∷ []) (sym ring),
          parts fs f before (a ∷ after) (sym held),
          parts fs f (a ∷ []) after refl,
          parts fs f before after refl,
          ap (λ t. count f (t ∷ [])) same,
        );
        split = λ h f. refl;
      })
