-- ===== src/Info/Sums.antt =====
-- What the sums of FleetStats are sums of.
use go_afxdp.Prelude.{
  ℕ, ◌+◌, ◌%◌, ◌≡◌, refl, sym, ◌∙◌, Option, none, some, List, [], ◌∷◌, ◌++◌, map, length, arith,
  append_assoc, append-nil,
}
use go_afxdp.Socket.{KickError, u64}
use go_afxdp.Socket.Stats.{Stats, StatsResult, sampled, unsampled, sum}
use go_afxdp.Fleet.{Fleet}
use go_afxdp.Info.{FleetStats, no_stats, add_stats, sum_stats, fleet_stats}

-- The samples before the first failure, and that failure, for results that start at queue `q`.
abbrev pub good : List StatsResult → List Stats
good [] = []
good (unsampled e ∷ rs) = []
good (sampled s ∷ rs) = s ∷ good rs

abbrev pub failure : ℕ → List StatsResult → Option (ℕ × KickError)
failure q [] = none
failure q (unsampled e ∷ rs) = some (q, e)
failure q (sampled s ∷ rs) = failure (q + 1) rs

-- The sum of a counter over some queues, as a uint64.
abbrev pub total : (Stats → ℕ) → List Stats → ℕ
total f ss = sum (map f ss) % u64

pub record IsSum (fs : FleetStats) : Type 0 where
  pub rx_packets : fs.rx_packets ≡ total (λ s. s.received) fs.per_queue
  pub tx_packets : fs.tx_packets ≡ total (λ s. s.transmitted) fs.per_queue
  pub rx_dropped : fs.rx_dropped ≡ total (λ s. s.kernel_stats.rx_dropped) fs.per_queue
  pub rx_invalid_descs :
      fs.rx_invalid_descs ≡ total (λ s. s.kernel_stats.rx_invalid_descs) fs.per_queue
  pub tx_invalid_descs :
      fs.tx_invalid_descs ≡ total (λ s. s.kernel_stats.tx_invalid_descs) fs.per_queue
  pub rx_ring_full : fs.rx_ring_full ≡ total (λ s. s.kernel_stats.rx_ring_full) fs.per_queue
  pub rx_fill_ring_empty :
      fs.rx_fill_ring_empty ≡ total (λ s. s.kernel_stats.rx_fill_ring_empty_descs) fs.per_queue
  pub tx_ring_empty :
      fs.tx_ring_empty ≡ total (λ s. s.kernel_stats.tx_ring_empty_descs) fs.per_queue

sum-append : (xs ys : List ℕ) → sum (xs ++ ys) ≡ sum xs + sum ys
sum-append [] ys = omega arith
sum-append (x ∷ xs) ys = omega (arith, sum-append xs ys)

sum-last :
    (f : Stats → ℕ) (ss : List Stats) (s : Stats)
    → sum (map f (ss ++ (s ∷ []))) ≡ sum (map f ss) + f s
sum-last f [] s = omega arith
sum-last f (x ∷ ss) s = omega (arith, sum-last f ss s)

one_more :
    (f : Stats → ℕ) (ss : List Stats) (s : Stats) (n : ℕ)
    → n ≡ total f ss
    → (n + f s) % u64 ≡ total f (ss ++ (s ∷ []))
one_more f ss s n h = omega (arith, h, sum-last f ss s)

add_stats-IsSum : (fs : FleetStats) (s : Stats) → IsSum fs → IsSum (add_stats fs s)
unfolding add_stats
add_stats-IsSum fs s h = record {
  rx_packets = one_more (λ x. x.received) fs.per_queue s _ h.rx_packets;
  tx_packets = one_more (λ x. x.transmitted) fs.per_queue s _ h.tx_packets;
  rx_dropped = one_more (λ x. x.kernel_stats.rx_dropped) fs.per_queue s _ h.rx_dropped;
  rx_invalid_descs =
      one_more (λ x. x.kernel_stats.rx_invalid_descs) fs.per_queue s _ h.rx_invalid_descs;
  tx_invalid_descs =
      one_more (λ x. x.kernel_stats.tx_invalid_descs) fs.per_queue s _ h.tx_invalid_descs;
  rx_ring_full = one_more (λ x. x.kernel_stats.rx_ring_full) fs.per_queue s _ h.rx_ring_full;
  rx_fill_ring_empty =
      one_more (λ x. x.kernel_stats.rx_fill_ring_empty_descs) fs.per_queue s _ h.rx_fill_ring_empty;
  tx_ring_empty =
      one_more (λ x. x.kernel_stats.tx_ring_empty_descs) fs.per_queue s _ h.tx_ring_empty;
}

sum_stats-IsSum :
    (fs : FleetStats) (q : ℕ) (rs : List StatsResult)
    → IsSum fs
    → let (fs', e) = sum_stats fs q rs in
      IsSum fs' × (fs'.per_queue ≡ fs.per_queue ++ good rs) × (e ≡ failure q rs)
unfolding sum_stats add_stats
sum_stats-IsSum fs q [] h = (h, sym (append-nil fs.per_queue), refl)
sum_stats-IsSum fs q (unsampled e ∷ rs) h = (h, sym (append-nil fs.per_queue), refl)
sum_stats-IsSum fs q (sampled s ∷ rs) h =
    let (a, b, c) = sum_stats-IsSum (add_stats fs s) (q + 1) rs (add_stats-IsSum fs s h) in
    (a, b ∙ append_assoc fs.per_queue (s ∷ []) (good rs), c)

-- Whatever the sockets report, the fleet's Stats holds the samples of the queues before the first that fails,
-- in order, and each of its eight counters is the sum of that counter over those samples, modulo 2^64; it
-- fails exactly where a socket does, with that socket's queue and error.
pub fleet_stats-IsSum :
    (f : Fleet) (rs : List StatsResult)
    → let (fs, e) = fleet_stats f rs in IsSum fs × (fs.per_queue ≡ good rs) × (e ≡ failure 0 rs)
unfolding fleet_stats
fleet_stats-IsSum f rs = sum_stats-IsSum (no_stats (length f.sockets)) 0 rs (record {
  rx_packets = omega arith;
  tx_packets = omega arith;
  rx_dropped = omega arith;
  rx_invalid_descs = omega arith;
  tx_invalid_descs = omega arith;
  rx_ring_full = omega arith;
  rx_fill_ring_empty = omega arith;
  tx_ring_empty = omega arith;
})
