-- ===== src/Examples.antt =====
-- The theorems at concrete inputs: a socket with four frames, small rings, and short frames.
use go_afxdp.Prelude.{
  ℕ, ◌≡◌, refl, sym, append-nil, false, none, some, List, [], ◌∷◌, ◌++◌, arith, length, drop, ◌+◌,
  ◌-◌, ◌^◌, min,
}
use go_afxdp.Options.{Options, with_defaults, check_options, not_pow2}
use go_afxdp.Pool
use go_afxdp.Pool.{FramePool, frames, new_frame_pool}
use go_afxdp.Ring.{Ring, write_descs, publish, free_slots, u32_sub, consume}
use go_afxdp.Ring.Window
use go_afxdp.Ring.Window.{free_slots_lem, entries-publish, entries-consume, IsSize}
use go_afxdp.Ring.Slots.{entries}
use go_afxdp.Socket.{Socket, Desc, mapped, new_socket, opened, fill, alloc, transmit}
use go_afxdp.Socket.{kick_loop}
use go_afxdp.Socket.Kick.{again, kick_loop_lem}
use go_afxdp.Socket.Inv.{IsValid, fill_lem, Fills}
use go_afxdp.Socket.Tx.{transmit_lem, Transmits}
use go_afxdp.World.{World, Reach, here, next, allocs, transmits, rx_owned, tx_owned}
use go_afxdp.World.Own.{fresh, SmallRings, reached-IsValid, frames_conserved, directions_disjoint}
use go_afxdp.Multibuffer.{packet_len, contd, receive_packets, frames_of, write_frags}
use go_afxdp.Multibuffer.Group.{IsWhole, Gathers, receive_packets_lem}
use go_afxdp.Multibuffer.Split.{write_frags-IsWhole}

abbrev pub options : Options
options = record {
  num_frames = 4;
  frame_size = 2048;
  tx_frames = 2;
  fill_ring_num_descs = 2;
  completion_ring_num_descs = 2;
  rx_ring_num_descs = 2;
  tx_ring_num_descs = 2;
  bind_flags = 0;
  tx_reuse_rx_frames = false;
  busy_poll_usecs = 0;
  busy_poll_budget = 0;
  xdp_flags = 0;
}

abbrev pub socket : Socket
socket = (fill (mapped options none) 2).0

made : new_socket (some options) none none ≡ opened socket
unfolding new_socket with_defaults check_options not_pow2
made = refl

small : SmallRings (with_defaults (some options))
unfolding with_defaults
small = record {
  fill_small = omega arith;
  completion_small = omega arith;
  rx_small = omega arith;
  tx_small = omega arith;
}

abbrev allocated : World
allocated = record (fresh socket) { sock = (alloc socket 1).0; app_tx = (alloc socket 1).1 ++ [] }

abbrev sent : World
sent = record allocated {
  sock = (transmit allocated.sock allocated.app_tx []).0;
  app_tx = drop (transmit allocated.sock allocated.app_tx []).1 allocated.app_tx ++ [];
}

reached : Reach (fresh socket) sent
reached = next (next here (allocs 1 refl)) (
    transmits [] allocated.app_tx allocated.app_tx [] [] (sym (append-nil allocated.app_tx)) refl
      refl)

frames_conserved_example : rx_owned 2048 6144 sent + tx_owned 2048 6144 sent ≡ 1
unfolding with_defaults
frames_conserved_example = frames_conserved (some options) none made small reached 3 (omega arith)

directions_disjoint_example : (rx_owned 2048 6144 sent ≡ 0) × (tx_owned 2048 6144 sent ≡ 1)
unfolding with_defaults
directions_disjoint_example =
    directions_disjoint (some options) none made small reached refl 3 (omega arith)

reached-IsValid_example : IsValid sent.sock
unfolding with_defaults
reached-IsValid_example = reached-IsValid (some options) none made small reached

kick_loop_lem_example : kick_loop 8 (again 20) ≡ (min 21 8, none)
kick_loop_lem_example = kick_loop_lem 8 20 (omega arith)

two : IsSize 2
two = record { log = 1; small = omega arith; is_pow = refl }

pub valid : IsValid socket
unfolding fill mapped Pool.pop new_frame_pool frames publish write_descs free_slots
valid = record {
  fill_size = two;
  rx_size = two;
  tx_size = two;
  completion_size = two;
  fill_ok = omega arith;
  rx_ok = omega arith;
  tx_ok = omega arith;
  completion_ok = omega arith;
}

abbrev payload_desc : Desc
payload_desc = record { addr = 4096; len = 60; options = 0 }

abbrev fragment : Desc
fragment = record { addr = 0; len = 2048; options = 1 }

fill_lem_example : Fills socket 1
fill_lem_example = fill_lem socket 1 valid

transmit_lem_example : Transmits socket (payload_desc ∷ payload_desc ∷ payload_desc ∷ []) []
transmit_lem_example =
    transmit_lem socket (payload_desc ∷ payload_desc ∷ payload_desc ∷ []) [] valid

-- A ring of four slots whose indices are about to wrap at 32 bits.
abbrev wrapping : Ring ℕ
wrapping = record { producer = 0; consumer = 4294967295; flags = none; descs = λ i. i }

wrapping_ok : Window.IsValid (2 ^ 2) wrapping
wrapping_ok = omega arith

entries-publish_example :
    let r' = publish (2 ^ 2 - 1) wrapping (7 ∷ 9 ∷ []) in
    (entries (2 ^ 2) r' ≡ entries (2 ^ 2) wrapping ++ (7 ∷ 9 ∷ []))
    × (u32_sub r'.producer r'.consumer ≡ u32_sub wrapping.producer wrapping.consumer + 2)
    × Window.IsValid (2 ^ 2) r'
entries-publish_example =
    entries-publish 2 (omega arith) wrapping (7 ∷ 9 ∷ []) wrapping_ok (omega arith)

entries-consume_example :
    let (r', xs) = consume (2 ^ 2 - 1) wrapping 1 in
    (xs ++ entries (2 ^ 2) r' ≡ entries (2 ^ 2) wrapping)
    × (length xs ≡ 1)
    × (u32_sub r'.producer r'.consumer + 1 ≡ u32_sub wrapping.producer wrapping.consumer)
    × Window.IsValid (2 ^ 2) r'
entries-consume_example = entries-consume 2 (omega arith) wrapping 1 wrapping_ok (omega arith)

-- A socket that holds back the head of a packet.
abbrev waiting_tail : Socket
waiting_tail = record socket { pkt_partial = fragment ∷ [] }

waiting_ok : IsValid waiting_tail
unfolding fill mapped Pool.pop new_frame_pool frames free_slots
waiting_ok = record {
  fill_size = two;
  rx_size = two;
  tx_size = two;
  completion_size = two;
  fill_ok = valid.fill_ok;
  rx_ok = valid.rx_ok;
  tx_ok = valid.tx_ok;
  completion_ok = valid.completion_ok;
}

receive_packets_lem_example : Gathers waiting_tail (receive_packets waiting_tail 2)
receive_packets_lem_example =
    receive_packets_lem waiting_tail 2 waiting_ok (unfold contd in (refl, tt))

abbrev pub memory : ℕ → ℕ
memory i = i

abbrev pub bytes : List ℕ
bytes = 1 ∷ 2 ∷ 3 ∷ 4 ∷ 5 ∷ []

abbrev pub frame_desc : ℕ → Desc
frame_desc a = record { addr = a; len = 2; options = 0 }

abbrev pub free_frames : List Desc
free_frames = frame_desc 0 ∷ frame_desc 2 ∷ frame_desc 4 ∷ frame_desc 6 ∷ []

write_frags-IsWhole_example :
    let (umem', out, rest) = write_frags memory (frames_of 2 bytes) bytes free_frames in
    (packet_len out ≡ 5)
    × IsWhole out
    × (length out ≡ frames_of 2 bytes)
    × (rest ≡ drop (frames_of 2 bytes) free_frames)
write_frags-IsWhole_example =
    write_frags-IsWhole memory 2 bytes free_frames (omega arith) (omega arith)
      (refl, (refl, (refl, (refl, tt)))) (unfold frames_of in (omega arith))
