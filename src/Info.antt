-- ===== src/Info.antt =====
-- info.go: `Info` and `FleetStats`, which gather what the sockets and the kernel report. The results of the
-- calls on the sockets are arguments. Names and the String methods are left out.
pub mod Sums
use go_afxdp.Prelude.{
  ℕ, ◌+◌, Bool, true, false, ◌&&◌, not, Option, none, some, List, [], ◌∷◌, ◌++◌, length, ltb, ◌==◌,
  if◌then◌else◌,
}
use go_afxdp.Socket.{KickError, add64}
use go_afxdp.Socket.Stats.{Stats, KernelStats, StatsResult, sampled, unsampled}
use go_afxdp.Tuning.{NapiTuning}
use go_afxdp.Fleet.{Fleet}

-- ---- Info ----

pub data XdpModeName : Type 0 where
  no_xdp native generic hardware multi unknown : XdpModeName

-- `netlink.LinkXdp`
pub record LinkXdp : Type 0 where
  pub is_attached : Bool
  pub attach_mode : ℕ

-- The modes of linux/if_link.h.
abbrev attached_mode : ℕ → XdpModeName
attached_mode m =
    if m == 1
    then native
    else if m == 2
    then generic
    else if m == 3
    then hardware
    else if m == 4
    then multi
    else if m == 0
    then no_xdp
    else unknown

unfoldable pub xdp_mode_string : Option LinkXdp → XdpModeName
xdp_mode_string none = no_xdp
xdp_mode_string (some x) = if x.is_attached then attached_mode x.attach_mode else no_xdp

pub record Info : Type 0 where
  pub ifindex : ℕ
  pub num_queues : ℕ
  pub frame_size : ℕ
  pub num_frames : ℕ
  pub zero_copy : Bool
  pub xdp_mode : XdpModeName
  pub tuning : Option NapiTuning

-- What `ZeroCopy` returns for a socket.
pub data ZeroCopy : Type 0 where
  granted : Bool → ZeroCopy
  refused : KickError → ZeroCopy

-- The loop over the sockets.
unfoldable pub zero_copy_of : Bool → List ZeroCopy → Bool × Option KickError
zero_copy_of zc [] = (zc, none)
zero_copy_of zc (refused e ∷ answers) = (zc, some e)
zero_copy_of zc (granted b ∷ answers) = zero_copy_of (if b then zc else false) answers

-- The mode is asked for when every socket has answered; a look-up that fails leaves it unknown.
abbrev mode_after : Option KickError → Option (Option LinkXdp) → XdpModeName
mode_after (some e) link = unknown
mode_after none none = unknown
mode_after none (some x) = xdp_mode_string x

-- `Info`, with the answers of the sockets, and of netlink to the look-up of the interface.
unfoldable pub info : Fleet → List ZeroCopy → Option (Option LinkXdp) → Info × Option KickError
info f answers link =
    let (zc, e) = zero_copy_of (ltb 0 (length f.sockets)) answers in
    (
      record {
        ifindex = f.ifindex;
        num_queues = length f.sockets;
        frame_size = f.opts.frame_size;
        num_frames = f.opts.num_frames;
        zero_copy = zc;
        xdp_mode = mode_after e link;
        tuning = f.tuning;
      },
      e,
    )

-- ---- FleetStats ----

pub record FleetStats : Type 0 where
  pub queues : ℕ
  pub rx_packets : ℕ
  pub tx_packets : ℕ
  pub rx_dropped : ℕ
  pub rx_invalid_descs : ℕ
  pub tx_invalid_descs : ℕ
  pub rx_ring_full : ℕ
  pub rx_fill_ring_empty : ℕ
  pub tx_ring_empty : ℕ
  pub per_queue : List Stats

abbrev pub no_stats : ℕ → FleetStats
no_stats queues = record {
  queues = queues;
  rx_packets = 0;
  tx_packets = 0;
  rx_dropped = 0;
  rx_invalid_descs = 0;
  tx_invalid_descs = 0;
  rx_ring_full = 0;
  rx_fill_ring_empty = 0;
  tx_ring_empty = 0;
  per_queue = [];
}

unfoldable pub add_stats : FleetStats → Stats → FleetStats
add_stats fs s = record {
  queues = fs.queues;
  rx_packets = add64 fs.rx_packets s.received;
  tx_packets = add64 fs.tx_packets s.transmitted;
  rx_dropped = add64 fs.rx_dropped s.kernel_stats.rx_dropped;
  rx_invalid_descs = add64 fs.rx_invalid_descs s.kernel_stats.rx_invalid_descs;
  tx_invalid_descs = add64 fs.tx_invalid_descs s.kernel_stats.tx_invalid_descs;
  rx_ring_full = add64 fs.rx_ring_full s.kernel_stats.rx_ring_full;
  rx_fill_ring_empty = add64 fs.rx_fill_ring_empty s.kernel_stats.rx_fill_ring_empty_descs;
  tx_ring_empty = add64 fs.tx_ring_empty s.kernel_stats.tx_ring_empty_descs;
  per_queue = fs.per_queue ++ (s ∷ []);
}

-- The loop over the sockets: the sums, and the queue whose Stats failed with its error.
unfoldable pub sum_stats : FleetStats → ℕ → List StatsResult → FleetStats × Option (ℕ × KickError)
sum_stats fs q [] = (fs, none)
sum_stats fs q (unsampled e ∷ results) = (fs, some (q, e))
sum_stats fs q (sampled s ∷ results) = sum_stats (add_stats fs s) (q + 1) results

unfoldable pub fleet_stats : Fleet → List StatsResult → FleetStats × Option (ℕ × KickError)
fleet_stats f results = sum_stats (no_stats (length f.sockets)) 0 results
