-- ===== src/SocketExamples.antt =====
-- The theorems on polling, statistics and sending at concrete inputs.
use go_afxdp.Prelude.{
  ℕ, ◌+◌, ◌%◌, ◌≡◌, refl, false, Option, none, some, List, [], ◌∷◌, arith, ℤ, pos, inl,
  if◌then◌else◌, ◌==◌,
}
use go_afxdp.Ring.{Ring}
use go_afxdp.Socket.{Socket, u64, mapped}
use go_afxdp.Socket.Poll.{
  Agrees, poll_timeout, poll_timeout_lem, Waits, interrupted, ready, poll, poll_with,
  poll_with-poll, interrupt, error,
}
use go_afxdp.Socket.Stats.{
  RingCounter, Meters, KernelStats, given, stats, sampled, no_events, updates, updates-total,
  Measures, At, stats-Measures, Follows,
}
use go_afxdp.Options.{with_defaults}
use go_afxdp.Socket.Setup.{SysCall, map_tx, Setup, ready, refused, neither_ring, setup}
use go_afxdp.Socket.Settled.{Settled}
use go_afxdp.Multibuffer.{
  frames_of, write_frags, copy_out, send_func, send_batch, send_batch_sg, fit, write_packets,
}
use go_afxdp.Multibuffer.Bytes.{copy_out-write_frags}
use go_afxdp.Multibuffer.Conserve.{send_func-Hands}
use go_afxdp.Multibuffer.Hands.{Hands}
use go_afxdp.Multibuffer.Batch.{send_batch-Hands}
use go_afxdp.Socket.Inv.{IsValid}
use go_afxdp.Examples.{options, socket, valid, memory, bytes, free_frames}

poll_timeout_lem_example : Agrees (pos 1500) (poll_timeout (pos 1500))
poll_timeout_lem_example = poll_timeout_lem (pos 1500)

-- Two descriptors are ready after one signal.
abbrev kernel : Waits
kernel = record { answers = λ extra ms. interrupted ∷ ready 2 false ∷ []; meanwhile = λ s. s }

poll_with-poll_example :
    ((poll_with socket [] (pos 5) (interrupt 3 kernel)).0 ≡ (poll socket (pos 5) kernel).0)
    × (error (poll_with socket [] (pos 5) (interrupt 3 kernel)).1
        ≡ error (poll socket (pos 5) kernel).1)
poll_with-poll_example = poll_with-poll socket (pos 5) kernel 3

-- The index wraps once.
updates-total_example : (updates no_events 0 (4294967290 ∷ 10 ∷ [])).total ≡ 4294967300 % u64
updates-total_example = updates-total (4294967290 ∷ 10 ∷ []) (omega arith, (omega arith, tt))

abbrev meter : RingCounter
meter = record { last = 4294967295; total = 4294967295 }

follows : Follows meter 4294967295
follows = record { last = omega arith; total = omega arith }

abbrev meters : Meters
meters = record { filled = meter; received = meter; transmitted = meter; completed = meter }

abbrev kernel_stats : KernelStats
kernel_stats = record {
  rx_dropped = 0;
  rx_invalid_descs = 0;
  tx_invalid_descs = 0;
  rx_ring_full = 0;
  rx_fill_ring_empty_descs = 0;
  tx_ring_empty_descs = 0;
}

abbrev moved_on : {A : Type 0} → Ring A → Ring A
moved_on r = record r { consumer = 2 }

abbrev fresh : Socket
fresh = mapped options none

abbrev later : Socket
later = record fresh {
  fill_ring = moved_on fresh.fill_ring;
  rx_ring = moved_on fresh.rx_ring;
  tx_ring = moved_on fresh.tx_ring;
  completion_ring = moved_on fresh.completion_ring;
}

measured : Measures meters 4294967295 4294967295 4294967295 4294967295
measured = record { fills = follows; receives = follows; transmits = follows; completes = follows }

At-three : At later (4294967295 + 3) (4294967295 + 3) (4294967295 + 3) (4294967295 + 3)
unfolding mapped
At-three = record {
  rx = refl;
  tx = refl;
  completion = refl;
  fills = omega arith;
  receives = omega arith;
  transmits = omega arith;
  completes = omega arith;
}

stats-Measures_example :
    Measures
      (stats later meters (given kernel_stats)).0
      (4294967295 + 3)
      (4294967295 + 3)
      (4294967295 + 3)
      (4294967295 + 3)
    × ((stats later meters (given kernel_stats)).1
        ≡ sampled (record {
          filled = (4294967295 + 3) % u64;
          received = (4294967295 + 3) % u64;
          transmitted = (4294967295 + 3) % u64;
          completed = (4294967295 + 3) % u64;
          counters = later.stats;
          kernel_stats = kernel_stats;
        }))
unfolding mapped
stats-Measures_example =
    stats-Measures later meters 4294967295 4294967295 4294967295 4294967295 3 3 3 3 measured
      At-three (omega arith) (omega arith) (omega arith) (omega arith) kernel_stats refl

copy_out-write_frags_example :
    let (umem', out, rest) = write_frags memory (frames_of 2 bytes) bytes free_frames in
    copy_out umem' out 8 ≡ bytes
copy_out-write_frags_example =
    copy_out-write_frags memory 2 8 bytes free_frames (omega arith) (omega arith)
      (refl, (refl, (refl, (refl, tt))))
      (
        (inl (omega arith), (inl (omega arith), (inl (omega arith), tt))),
        ((inl (omega arith), (inl (omega arith), tt)), ((inl (omega arith), tt), (tt, tt))),
      )
      (unfold frames_of in (omega arith)) (omega arith)

-- `build` fills the first frame, and returns a length out of range for the second.
abbrev build : ℕ → List ℕ → ℤ × List ℕ
build i frame = (if i == 0 then pos 60 else pos 4096, frame)

send_func-Hands_example : Hands socket [] (send_func socket 2 build []).0 []
send_func-Hands_example = send_func-Hands socket valid 2 build []

-- A multi-buffer socket with small frames, of which only one is free.
abbrev scarce : Socket
scarce = record socket {
  options = record socket.options { frame_size = 4; bind_flags = 16 };
  tx_pool = record { free = 8 ∷ [] };
}

scarce_ok : IsValid scarce
scarce_ok = record {
  fill_size = valid.fill_size;
  rx_size = valid.rx_size;
  tx_size = valid.tx_size;
  completion_size = valid.completion_size;
  fill_ok = valid.fill_ok;
  rx_ok = valid.rx_ok;
  tx_ok = valid.tx_ok;
  completion_ok = valid.completion_ok;
}

-- The second payload waits for a frame.
one_sent : (send_batch scarce ((1 ∷ []) ∷ (2 ∷ []) ∷ []) []).1 ≡ 1
unfolding send_batch send_batch_sg fit write_packets write_frags frames_of go_afxdp.Socket.fill
    mapped go_afxdp.Pool.pop go_afxdp.Pool.new_frame_pool go_afxdp.Pool.frames
    go_afxdp.Ring.free_slots go_afxdp.Socket.complete go_afxdp.Socket.return_frames
    go_afxdp.Ring.consume go_afxdp.Ring.read_descs go_afxdp.Ring.waiting go_afxdp.Socket.alloc
    go_afxdp.Socket.transmit go_afxdp.Multibuffer.contd
one_sent = refl

send_batch-Hands_example : Hands scarce [] (send_batch scarce ((1 ∷ []) ∷ (2 ∷ []) ∷ []) []).0 []
send_batch-Hands_example = send_batch-Hands scarce ((1 ∷ []) ∷ (2 ∷ []) ∷ []) [] scarce_ok

-- The kernel has no room for the tx ring.
abbrev no_room : SysCall → Option ℕ
no_room map_tx = some 12
no_room _ = none

stopped_at : Setup → Option SysCall
stopped_at (refused c e s) = some c
stopped_at (ready s) = none
stopped_at (neither_ring s) = none

tx_refused : stopped_at (setup no_room (with_defaults none)) ≡ some map_tx
unfolding setup with_defaults go_afxdp.Socket.Setup.rings go_afxdp.Socket.Setup.sizing_rx
    go_afxdp.Socket.Setup.sizing_tx go_afxdp.Socket.Setup.mapping_fill
    go_afxdp.Socket.Setup.mapping_rx go_afxdp.Socket.Setup.mapping_tx stopped_at
tx_refused = refl
