-- ===== src/Options.antt =====
-- options.go: `Options`, its defaults, the flag bits, and the checks of `NewSocket` (socket.go) that
-- come before any system call. Counts and sizes are Go ints that are not negative.
pub mod Config
use go_afxdp.Prelude.{
  ℕ, ◌-◌, ◌/◌, Bool, false, not, ◌&&◌, ◌||◌, Option, none, some, ltb, leb, ◌==◌, if◌then◌else◌,
  bit_and,
}

pub record Options : Type 0 where
  pub num_frames : ℕ
  pub frame_size : ℕ
  pub tx_frames : ℕ
  pub fill_ring_num_descs : ℕ
  pub completion_ring_num_descs : ℕ
  pub rx_ring_num_descs : ℕ
  pub tx_ring_num_descs : ℕ
  pub bind_flags : ℕ
  pub tx_reuse_rx_frames : Bool
  pub busy_poll_usecs : ℕ
  pub busy_poll_budget : ℕ
  pub xdp_flags : ℕ

-- The kernel's bind and descriptor flag bits (linux/if_xdp.h).
abbrev pub xdp_copy : ℕ
xdp_copy = 2

abbrev pub xdp_zerocopy : ℕ
xdp_zerocopy = 4

abbrev pub xdp_use_need_wakeup : ℕ
xdp_use_need_wakeup = 8

abbrev pub xdp_use_sg : ℕ
xdp_use_sg = 16

abbrev pub xdp_pkt_contd : ℕ
xdp_pkt_contd = 1

abbrev pub xdp_ring_need_wakeup : ℕ
xdp_ring_need_wakeup = 1

-- `flags & bit != 0`
abbrev pub has_flag : ℕ → ℕ → Bool
has_flag flags bit = not (bit_and flags bit == 0)

abbrev pub default_options : Options
default_options = record {
  num_frames = 8192;
  frame_size = 2048;
  tx_frames = 4096;
  fill_ring_num_descs = 4096;
  completion_ring_num_descs = 4096;
  rx_ring_num_descs = 4096;
  tx_ring_num_descs = 4096;
  bind_flags = 0;
  tx_reuse_rx_frames = false;
  busy_poll_usecs = 0;
  busy_poll_budget = 0;
  xdp_flags = 0;
}

abbrev or_default : ℕ → ℕ → ℕ
or_default n d = if n == 0 then d else n

-- A nil receiver is `none`. `TxFrames` falls back to half of the final `NumFrames`.
unfoldable pub with_defaults : Option Options → Options
with_defaults none = default_options
with_defaults (some o) =
    let num_frames = or_default o.num_frames default_options.num_frames in
    record o {
      num_frames = num_frames;
      frame_size = or_default o.frame_size default_options.frame_size;
      tx_frames = or_default o.tx_frames (num_frames / 2);
      fill_ring_num_descs = or_default o.fill_ring_num_descs default_options.fill_ring_num_descs;
      completion_ring_num_descs =
          or_default o.completion_ring_num_descs default_options.completion_ring_num_descs;
      rx_ring_num_descs = or_default o.rx_ring_num_descs default_options.rx_ring_num_descs;
      tx_ring_num_descs = or_default o.tx_ring_num_descs default_options.tx_ring_num_descs;
    }

pub data SocketError : Type 0 where
  bad_num_frames bad_tx_frames reuse_with_multi_buffer not_power_of_two fill_exceeds_pool :
      SocketError
  syscall : ℕ → SocketError

-- `v != 0 && v&(v-1) != 0`, with `v-1` below zero never read.
unfoldable pub not_pow2 : ℕ → Bool
not_pow2 v = not (v == 0) && not (bit_and v (v - 1) == 0)

-- The checks at the head of `NewSocket`, in their order; `none` lets the options pass. Go ranges over
-- a map of the four ring sizes, so which ring an error names is left open here.
unfoldable pub check_options : Options → Option SocketError
check_options o =
    if o.num_frames == 0
    then some bad_num_frames
    else if o.tx_frames == 0 || leb o.num_frames o.tx_frames
    then some bad_tx_frames
    else if o.tx_reuse_rx_frames && has_flag o.bind_flags xdp_use_sg
    then some reuse_with_multi_buffer
    else if not_pow2 o.fill_ring_num_descs
        || not_pow2 o.completion_ring_num_descs
        || not_pow2 o.rx_ring_num_descs
        || not_pow2 o.tx_ring_num_descs
    then some not_power_of_two
    else if ltb (o.num_frames - o.tx_frames) o.fill_ring_num_descs
    then some fill_exceeds_pool
    else none
