-- ===== src/Options/Config.antt =====
-- options.go: `config`, the XDP modes, and the functional options that `Open` takes.
use go_afxdp.Prelude.{ℕ, Bool, true, false, List, [], ◌∷◌, ◌++◌, bit_or}
use go_afxdp.Ebpf.{Endian}
use go_afxdp.Filter.Match.{Match, match_udp_port}
use go_afxdp.Options.{Options, xdp_use_need_wakeup, xdp_use_sg}

pub data XdpMode : Type 0 where
  mode_auto mode_native mode_native_zc mode_generic : XdpMode

-- `napi_flush` is in nanoseconds; 0 stands for no override.
pub record Config : Type 0 where
  pub opts : Options
  pub queues : ℕ
  pub matches : List Match
  pub except : List Match
  pub mode : XdpMode
  pub keep_management : Bool
  pub mgmt_tcp_ports : List ℕ
  pub multi_buffer : Bool
  pub no_auto_tune : Bool
  pub napi_defer_irqs : ℕ
  pub napi_flush : ℕ

abbrev pub zero_options : Options
zero_options = record {
  num_frames = 0;
  frame_size = 0;
  tx_frames = 0;
  fill_ring_num_descs = 0;
  completion_ring_num_descs = 0;
  rx_ring_num_descs = 0;
  tx_ring_num_descs = 0;
  bind_flags = 0;
  tx_reuse_rx_frames = false;
  busy_poll_usecs = 0;
  busy_poll_budget = 0;
  xdp_flags = 0;
}

-- `var c config`
abbrev pub zero_config : Config
zero_config = record {
  opts = zero_options;
  queues = 0;
  matches = [];
  except = [];
  mode = mode_auto;
  keep_management = false;
  mgmt_tcp_ports = [];
  multi_buffer = false;
  no_auto_tune = false;
  napi_defer_irqs = 0;
  napi_flush = 0;
}

-- `Option`
abbrev pub Setting : Type 0
Setting = Config → Config

-- `var c config; for _, o := range opts { o(&c) }`
unfoldable new_config_from : Config → List Setting → Config
new_config_from c [] = c
new_config_from c (o ∷ os) = new_config_from (o c) os

unfoldable pub new_config : List Setting → Config
unfolding new_config_from
new_config os = new_config_from zero_config os

abbrev set_bind_flag : ℕ → Setting
set_bind_flag flag c = record c {
  opts = record c.opts { bind_flags = bit_or c.opts.bind_flags flag };
}

abbrev pub with_queues : ℕ → Setting
with_queues n c = record c { queues = n }

abbrev pub with_filter : List Match → Setting
with_filter ms c = record c { matches = c.matches ++ ms }

abbrev pub with_udp_ports : Endian → List ℕ → Setting
with_udp_ports host ports c = record c { matches = c.matches ++ (match_udp_port host ports ∷ []) }

abbrev pub with_num_frames : ℕ → Setting
with_num_frames n c = record c { opts = record c.opts { num_frames = n } }

abbrev pub with_frame_size : ℕ → Setting
with_frame_size n c = record c { opts = record c.opts { frame_size = n } }

abbrev pub with_tx_frames : ℕ → Setting
with_tx_frames n c = record c { opts = record c.opts { tx_frames = n } }

abbrev pub with_receive_heavy : Setting
with_receive_heavy c = record c { opts = record c.opts { tx_frames = 64 } }

abbrev pub with_ring_size : ℕ → Setting
with_ring_size n c = record c {
  opts = record c.opts {
    fill_ring_num_descs = n;
    completion_ring_num_descs = n;
    rx_ring_num_descs = n;
    tx_ring_num_descs = n;
  };
}

abbrev pub with_zero_copy : Setting
with_zero_copy c = record c { mode = mode_native_zc }

abbrev pub with_driver_mode : Setting
with_driver_mode c = record c { mode = mode_native }

abbrev pub with_generic_mode : Setting
with_generic_mode c = record c { mode = mode_generic }

abbrev pub with_need_wakeup : Setting
with_need_wakeup c = set_bind_flag xdp_use_need_wakeup c

abbrev pub with_tx_reuse_rx_frames : Setting
with_tx_reuse_rx_frames c = record c { opts = record c.opts { tx_reuse_rx_frames = true } }

abbrev pub with_busy_poll : ℕ → ℕ → Setting
with_busy_poll usecs budget c = record c {
  opts = record c.opts { busy_poll_usecs = usecs; busy_poll_budget = budget };
}

abbrev pub with_multi_buffer : Setting
with_multi_buffer c = set_bind_flag xdp_use_sg (record c { multi_buffer = true })

abbrev pub with_except : List Match → Setting
with_except ms c = record c { except = c.except ++ ms }

abbrev pub with_keep_management : List ℕ → Setting
with_keep_management extra_tcp_ports c = record c {
  keep_management = true;
  mgmt_tcp_ports = 22 ∷ extra_tcp_ports;
}

abbrev pub without_auto_tune : Setting
without_auto_tune c = record c { no_auto_tune = true }

abbrev pub with_napi_tuning : ℕ → ℕ → Setting
with_napi_tuning defer_irqs flush c = record c { napi_defer_irqs = defer_irqs; napi_flush = flush }

abbrev pub with_options : Options → Setting
with_options o c = record c { opts = o }
