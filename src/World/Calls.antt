-- ===== src/World/Calls.antt =====
-- The application's calls on a socket (socket.go): each hands frames on, and loses or doubles none.
use go_afxdp.Prelude.{
  ℕ, ◌+◌, ◌≡◌, refl, ap, sym, true, List, ◌++◌, map, take, drop, arith, take-append-drop,
}
use go_afxdp.Prelude.Count.{count}
use go_afxdp.Ring.{Ring}
use go_afxdp.Ring.Slots.{entries}
use go_afxdp.Socket.{Desc, fill, receive, recycle, alloc, transmit, complete, Answer}
use go_afxdp.Socket.Frames.{tally, addrs, recycle_lem}
use go_afxdp.Socket.Inv.{IsValid, fill_lem, receive_lem}
use go_afxdp.Socket.Tx.{alloc_lem, transmit_lem, complete_lem, tx_desc}
use go_afxdp.World.{World, rx_owned, SameFrames}
use go_afxdp.World.Kept.{Kept, parts, desc_parts, addrs-tx_desc}

module _ (w u : World) (v : IsValid w.sock) where
  abbrev fs : ℕ
  fs = w.sock.options.frame_size

  pub fills-Kept : (n : ℕ) → u ≡ record w { sock = (fill w.sock n).0 } → Kept w u
  fills-Kept n q =
      let (p, r, moved, e, pool, ring, ok, _) = fill_lem w.sock n v in
      let rx = λ (f : ℕ).
        let h : rx_owned fs f (record w { sock = record w.sock { rx_pool = p; fill_ring = r } })
            ≡ rx_owned fs f w =
          omega (
            arith,
            parts fs f p.free moved pool,
            parts fs f (entries w.sock.options.fill_ring_num_descs w.sock.fill_ring) moved
                (sym ring),
          ) in
        h in
      rw (q, e)
        (record {
          valid = assumption ok;
          options = refl;
          total = λ f. omega (arith, rx f);
          split = λ h f. rx f;
        })

  pub receives-Kept :
      (n : ℕ)
      → u ≡ record w { sock = (receive w.sock n).0; app_rx = (receive w.sock n).1 ++ w.app_rx }
      → Kept w u
  receives-Kept n q =
      let (r, ds, e, ring, ok, _) = receive_lem w.sock n v in
      let rx = λ (f : ℕ).
        let h : rx_owned fs f
              (record w { sock = record w.sock { rx_ring = r }; app_rx = ds ++ w.app_rx })
            ≡ rx_owned fs f w =
          omega (
            arith,
            desc_parts fs f ds w.app_rx refl,
            desc_parts fs f ds (entries w.sock.options.rx_ring_num_descs r) ring,
          ) in
        h in
      rw (q, e)
        (record {
          valid = assumption ok;
          options = refl;
          total = λ f. omega (arith, rx f);
          split = λ h f. rx f;
        })

  pub recycles-Kept :
      (before ds after : List Desc)
      → w.app_rx ≡ before ++ (ds ++ after)
      → u ≡ record w { sock = recycle w.sock ds; app_rx = before ++ after }
      → Kept w u
  recycles-Kept before ds after held q =
      let (p, e, t) = recycle_lem w.sock ds in
      let rx = λ (f : ℕ).
        let h : rx_owned fs f
              (record w { sock = record w.sock { rx_pool = p }; app_rx = before ++ after })
            ≡ rx_owned fs f w =
          omega (
            arith,
            t f,
            desc_parts fs f before (ds ++ after) (sym held),
            desc_parts fs f ds after refl,
            desc_parts fs f before after refl,
          ) in
        h in
      rw (q, e)
        (record {
          valid = assumption v;
          options = refl;
          total = λ f. omega (arith, rx f);
          split = λ h f. rx f;
        })

  pub allocs-Kept :
      (n : ℕ)
      → u ≡ record w { sock = (alloc w.sock n).0; app_tx = (alloc w.sock n).1 ++ w.app_tx }
      → Kept w u
  allocs-Kept n q =
      let (p, moved, e, pool, _, _) = alloc_lem w.sock n in
      rw (q, e)
        (record {
          valid = assumption v;
          options = refl;
          total = λ f. omega (
            arith,
            parts fs f p.free moved pool,
            desc_parts fs f (map (tx_desc w.sock) moved) w.app_tx refl,
            ap (tally fs f) (addrs-tx_desc w.sock moved),
          );
          split = λ h f. refl;
        })

  -- Descriptors that go to the tx ring leave the list that held them.
  handed :
      {held : List Desc} (before ds ds' after : List Desc) (n : ℕ) (r : Ring Desc)
      → held ≡ before ++ (ds ++ after)
      → SameFrames fs ds ds'
      → entries w.sock.options.tx_ring_num_descs r
        ≡ entries w.sock.options.tx_ring_num_descs w.sock.tx_ring ++ take n ds'
      → (f : ℕ)
      → tally fs f (addrs (before ++ (drop n ds' ++ after)))
          + tally fs f (addrs (entries w.sock.options.tx_ring_num_descs r))
        ≡ tally fs f (addrs held)
          + tally fs f (addrs (entries w.sock.options.tx_ring_num_descs w.sock.tx_ring))
  handed before ds ds' after n r held same ring f = omega (
    arith,
    desc_parts fs f before (ds ++ after) (sym held),
    desc_parts fs f ds after refl,
    desc_parts fs f before (drop n ds' ++ after) refl,
    desc_parts fs f (drop n ds') after refl,
    desc_parts fs f (take n ds') (drop n ds') (take-append-drop n ds'),
    desc_parts fs f (entries w.sock.options.tx_ring_num_descs w.sock.tx_ring) (take n ds')
        (sym ring),
    ap (count f) same,
  )

  pub transmits-Kept :
      (before ds ds' after : List Desc) (answers : List Answer)
      → w.app_tx ≡ before ++ (ds ++ after)
      → SameFrames fs ds ds'
      → u ≡ record w {
        sock = (transmit w.sock ds' answers).0;
        app_tx = before ++ (drop (transmit w.sock ds' answers).1 ds' ++ after);
      }
      → Kept w u
  transmits-Kept before ds ds' after answers held same q =
      let (r, c, n, e, _, ring, ok) = transmit_lem w.sock ds' answers v in
      rw (q, e)
        (record {
          valid = assumption ok;
          options = refl;
          total = λ f. omega (arith, handed before ds ds' after n r held same ring f);
          split = λ h f. refl;
        })

  pub forwards-Kept :
      (before ds ds' after : List Desc) (answers : List Answer)
      → w.sock.options.tx_reuse_rx_frames ≡ true
      → w.app_rx ≡ before ++ (ds ++ after)
      → SameFrames fs ds ds'
      → u ≡ record w {
        sock = (transmit w.sock ds' answers).0;
        app_rx = before ++ (drop (transmit w.sock ds' answers).1 ds' ++ after);
      }
      → Kept w u
  forwards-Kept before ds ds' after answers hairpin held same q =
      let (r, c, n, e, _, ring, ok) = transmit_lem w.sock ds' answers v in
      rw (q, e)
        (record {
          valid = assumption ok;
          options = refl;
          total = λ f. omega (arith, handed before ds ds' after n r held same ring f);
          split = λ h f. cc;
        })

  pub completes-Kept : (n : ℕ) → u ≡ record w { sock = (complete w.sock n).0 } → Kept w u
  completes-Kept n q =
      let (r, p, p', done, e, ring, ok, back) = complete_lem w.sock n v in
      rw (q, e)
        (record {
          valid = assumption ok;
          options = refl;
          total = λ f. omega (
            arith,
            back.0 f,
            parts fs f done (entries w.sock.options.completion_ring_num_descs r) ring,
          );
          split = λ h f. omega (arith, ap (λ t. tally fs f t.free) (back.1 h));
        })
