-- ===== src/World.antt =====
-- A socket between its application and the kernel: who holds which frame, and the moves of both
-- sides in any order. The kernel's moves are the documented AF_XDP protocol: it takes the oldest
-- entry of the fill and tx rings, and produces on the rx and completion rings a descriptor or an
-- address within a frame that it holds, when that ring has space.
pub mod Own
pub mod Kept
pub mod Calls
pub mod Moves
pub mod Steps
use go_afxdp.Prelude.{ℕ, ◌+◌, ◌-◌, ◌≡◌, ◌<◌, Bool, true, List, [], ◌∷◌, ◌++◌, map, drop, Option}
use go_afxdp.Ring.{Ring, u32_sub, publish, consume}
use go_afxdp.Ring.Slots.{entries}
use go_afxdp.Socket.{Socket, Desc, fill, receive, recycle, alloc, transmit, complete, Answer}
use go_afxdp.Socket.Frames.{base, tally, addrs}

pub record World : Type 0 where
  pub sock : Socket
  pub kernel_rx : List ℕ
  pub kernel_tx : List ℕ
  pub app_rx : List Desc
  pub app_tx : List Desc

-- How often the receive side, and the transmit side, hold the frame at `f`.
abbrev pub rx_owned : ℕ → ℕ → World → ℕ
rx_owned fs f w =
    tally fs f w.sock.rx_pool.free
    + tally fs f (entries w.sock.options.fill_ring_num_descs w.sock.fill_ring)
    + tally fs f w.kernel_rx
    + tally fs f (addrs (entries w.sock.options.rx_ring_num_descs w.sock.rx_ring))
    + tally fs f (addrs w.app_rx)

abbrev pub tx_owned : ℕ → ℕ → World → ℕ
tx_owned fs f w =
    tally fs f w.sock.tx_pool.free
    + tally fs f (addrs w.app_tx)
    + tally fs f (addrs (entries w.sock.options.tx_ring_num_descs w.sock.tx_ring))
    + tally fs f w.kernel_tx
    + tally fs f (entries w.sock.options.completion_ring_num_descs w.sock.completion_ring)

-- The addresses of `ds'` lie in the frames of `ds`, in order.
abbrev pub SameFrames : ℕ → List Desc → List Desc → Type 0
SameFrames fs ds ds' = map (base fs) (addrs ds') ≡ map (base fs) (addrs ds)

-- The kernel takes the oldest entry of a ring.
abbrev pub took : {A : Type 0} → ℕ → Ring A → Ring A × List A
took size r = consume (size - 1) r 1

pub data Step (w : World) (u : World) : Type 0 where
  -- the application's receive side
  fills : (n : ℕ) → u ≡ record w { sock = (fill w.sock n).0 } → Step w u
  receives :
      (n : ℕ)
      → u ≡ record w { sock = (receive w.sock n).0; app_rx = (receive w.sock n).1 ++ w.app_rx }
      → Step w u
  recycles :
      (before ds after : List Desc)
      → w.app_rx ≡ before ++ (ds ++ after)
      → u ≡ record w { sock = recycle w.sock ds; app_rx = before ++ after }
      → Step w u
  -- the application's transmit side
  allocs :
      (n : ℕ)
      → u ≡ record w { sock = (alloc w.sock n).0; app_tx = (alloc w.sock n).1 ++ w.app_tx }
      → Step w u
  transmits :
      (before ds ds' after : List Desc) (answers : List Answer)
      → w.app_tx ≡ before ++ (ds ++ after)
      → SameFrames w.sock.options.frame_size ds ds'
      → u ≡ record w {
        sock = (transmit w.sock ds' answers).0;
        app_tx = before ++ (drop (transmit w.sock ds' answers).1 ds' ++ after);
      }
      → Step w u
  -- forward in place, allowed in hairpin mode only
  forwards :
      (before ds ds' after : List Desc) (answers : List Answer)
      → w.sock.options.tx_reuse_rx_frames ≡ true
      → w.app_rx ≡ before ++ (ds ++ after)
      → SameFrames w.sock.options.frame_size ds ds'
      → u ≡ record w {
        sock = (transmit w.sock ds' answers).0;
        app_rx = before ++ (drop (transmit w.sock ds' answers).1 ds' ++ after);
      }
      → Step w u
  completes : (n : ℕ) → u ≡ record w { sock = (complete w.sock n).0 } → Step w u
  closes : u ≡ record w { sock = record w.sock { closing = true } } → Step w u
  -- the kernel
  takes_fill :
      0 < u32_sub w.sock.fill_ring.producer w.sock.fill_ring.consumer
      → u ≡ record w {
        sock = record w.sock {
          fill_ring = (took w.sock.options.fill_ring_num_descs w.sock.fill_ring).0;
        };
        kernel_rx = (took w.sock.options.fill_ring_num_descs w.sock.fill_ring).1 ++ w.kernel_rx;
      }
      → Step w u
  delivers :
      (before : List ℕ) (a : ℕ) (after : List ℕ) (d : Desc)
      → w.kernel_rx ≡ before ++ (a ∷ after)
      → base w.sock.options.frame_size d.addr ≡ base w.sock.options.frame_size a
      → u32_sub w.sock.rx_ring.producer w.sock.rx_ring.consumer < w.sock.options.rx_ring_num_descs
      → u ≡ record w {
        sock = record w.sock {
          rx_ring = publish (w.sock.options.rx_ring_num_descs - 1) w.sock.rx_ring (d ∷ []);
        };
        kernel_rx = before ++ after;
      }
      → Step w u
  takes_tx :
      0 < u32_sub w.sock.tx_ring.producer w.sock.tx_ring.consumer
      → u ≡ record w {
        sock = record w.sock { tx_ring = (took w.sock.options.tx_ring_num_descs w.sock.tx_ring).0 };
        kernel_tx = addrs (took w.sock.options.tx_ring_num_descs w.sock.tx_ring).1 ++ w.kernel_tx;
      }
      → Step w u
  finishes :
      (before : List ℕ) (a : ℕ) (after : List ℕ) (b : ℕ)
      → w.kernel_tx ≡ before ++ (a ∷ after)
      → base w.sock.options.frame_size b ≡ base w.sock.options.frame_size a
      → u32_sub w.sock.completion_ring.producer w.sock.completion_ring.consumer
        < w.sock.options.completion_ring_num_descs
      → u ≡ record w {
        sock = record w.sock {
          completion_ring =
              publish
                (w.sock.options.completion_ring_num_descs - 1)
                w.sock.completion_ring
                (b ∷ []);
        };
        kernel_tx = before ++ after;
      }
      → Step w u
  wakes :
      (fill_flags tx_flags : Option ℕ)
      → u ≡ record w {
        sock = record w.sock {
          fill_ring = record w.sock.fill_ring { flags = fill_flags };
          tx_ring = record w.sock.tx_ring { flags = tx_flags };
        };
      }
      → Step w u

pub data Reach (w : World) : World → Type 0 where
  here : Reach w w
  next : {u v : World} → Reach w u → Step u v → Reach w v
