-- ===== src/Socket/Stats.antt =====
-- socket.go: `ringCounter`, which extends a wrapping 32-bit ring index to a 64-bit count, and `Stats`.
use go_afxdp.Prelude.{
  ℕ, ◌+◌, ◌%◌, ◌<◌, ◌≡◌, refl, sym, ap, ◌∙◌, subst, List, [], ◌∷◌, All, false, if_false, ◌==◌,
  if◌then◌else◌, arith,
}
use go_afxdp.Ring.{u32, u32_sub}
use go_afxdp.Socket.{Socket, Counters, KickError, closed, errno, u64, add64}

pub record RingCounter : Type 0 where
  pub last : ℕ
  pub total : ℕ

unfoldable pub update : RingCounter → ℕ → RingCounter
update c cur = record { last = cur; total = add64 c.total (u32_sub cur c.last) }

-- The counters of the four rings, which `statsMu` guards.
pub record Meters : Type 0 where
  pub filled : RingCounter
  pub received : RingCounter
  pub transmitted : RingCounter
  pub completed : RingCounter

-- `unix.XDPStatistics`, which the kernel fills in.
pub record KernelStats : Type 0 where
  pub rx_dropped : ℕ
  pub rx_invalid_descs : ℕ
  pub tx_invalid_descs : ℕ
  pub rx_ring_full : ℕ
  pub rx_fill_ring_empty_descs : ℕ
  pub tx_ring_empty_descs : ℕ

pub record Stats : Type 0 where
  pub filled : ℕ
  pub received : ℕ
  pub transmitted : ℕ
  pub completed : ℕ
  pub counters : Counters
  pub kernel_stats : KernelStats

pub data Answered : Type 0 where
  given : KernelStats → Answered
  denied : ℕ → Answered

pub data StatsResult : Type 0 where
  sampled : Stats → StatsResult
  unsampled : KickError → StatsResult

-- Rx, tx and completion rings of size 0 are not mapped, and their counters stay.
abbrev update_if : ℕ → RingCounter → ℕ → RingCounter
update_if size c cur = if size == 0 then c else update c cur

abbrev total_if : ℕ → RingCounter → ℕ
total_if size c = if size == 0 then 0 else c.total

unfoldable pub sample : Socket → Meters → Meters
sample s m = record {
  filled = update m.filled s.fill_ring.consumer;
  received = update_if s.options.rx_ring_num_descs m.received s.rx_ring.consumer;
  transmitted = update_if s.options.tx_ring_num_descs m.transmitted s.tx_ring.consumer;
  completed = update_if s.options.completion_ring_num_descs m.completed s.completion_ring.consumer;
}

abbrev stats_of : Socket → Meters → KernelStats → Stats
stats_of s m k = record {
  filled = m.filled.total;
  received = total_if s.options.rx_ring_num_descs m.received;
  transmitted = total_if s.options.tx_ring_num_descs m.transmitted;
  completed = total_if s.options.completion_ring_num_descs m.completed;
  counters = s.stats;
  kernel_stats = k;
}

abbrev answer : Socket → Meters → Answered → StatsResult
answer s m (given k) = sampled (stats_of s m k)
answer s m (denied code) = unsampled (errno code)

-- `Stats` against the kernel's answer to XDP_STATISTICS.
unfoldable pub stats : Socket → Meters → Answered → Meters × StatsResult
stats s m kernel =
    if s.closing then (m, unsampled closed) else let m' = sample s m in (m', answer s m' kernel)

-- ---- the 64-bit count ----

-- A counter that has followed a count of `n` events.
pub record Follows (c : RingCounter) (n : ℕ) : Type 0 where
  pub last : c.last ≡ n % u32
  pub total : c.total ≡ n % u64

pub update-Follows :
    (c : RingCounter) (n k : ℕ) → k < u32 → Follows c n → Follows (update c ((n + k) % u32)) (n + k)
unfolding update
update-Follows c n k h f = record { last = refl; total = omega (arith, f.last, f.total) }

-- Samples at which the true count has grown by `k`, for each `k` of a list.
unfoldable pub updates : RingCounter → ℕ → List ℕ → RingCounter
updates c n [] = c
updates c n (k ∷ ks) = updates (update c ((n + k) % u32)) (n + k) ks

abbrev pub sum : List ℕ → ℕ
sum [] = 0
sum (k ∷ ks) = k + sum ks

abbrev pub no_events : RingCounter
no_events = record { last = 0; total = 0 }

updates-Follows :
    (ks : List ℕ) (c : RingCounter) (n : ℕ)
    → All (λ k. k < u32) ks
    → Follows c n
    → Follows (updates c n ks) (n + sum ks)
unfolding updates
updates-Follows [] c n h f = subst (Follows c) (omega arith) f
updates-Follows (k ∷ ks) c n (h, hs) f =
    subst (Follows _) (omega arith)
      (updates-Follows ks (update c ((n + k) % u32)) (n + k) hs (update-Follows c n k h f))

-- A new counter that is given the 32-bit index of a ring again and again, each time less than 2^32 events
-- after the last, counts all the events, modulo 2^64: the wraps of the index are not lost.
pub updates-total :
    (ks : List ℕ) → All (λ k. k < u32) ks → (updates no_events 0 ks).total ≡ sum ks % u64
updates-total ks h =
    (updates-Follows ks no_events 0 h (record { last = omega arith; total = omega arith })).total
    ∙ ap (λ n. n % u64) (omega arith)

-- The meters of a socket after the kernel and the methods have moved so many entries of each ring.
pub record Measures (m : Meters) (f r t c : ℕ) : Type 0 where
  pub fills : Follows m.filled f
  pub receives : Follows m.received r
  pub transmits : Follows m.transmitted t
  pub completes : Follows m.completed c

-- The ring indices of a socket after so many entries, all of its rings mapped.
pub record At (s : Socket) (f r t c : ℕ) : Type 0 where
  pub rx : (s.options.rx_ring_num_descs == 0) ≡ false
  pub tx : (s.options.tx_ring_num_descs == 0) ≡ false
  pub completion : (s.options.completion_ring_num_descs == 0) ≡ false
  pub fills : s.fill_ring.consumer ≡ f % u32
  pub receives : s.rx_ring.consumer ≡ r % u32
  pub transmits : s.tx_ring.consumer ≡ t % u32
  pub completes : s.completion_ring.consumer ≡ c % u32

update_at :
    (c : RingCounter) (n k cur : ℕ)
    → k < u32
    → cur ≡ (n + k) % u32
    → Follows c n
    → Follows (update c cur) (n + k)
update_at c n k cur h e f =
    subst (λ x. Follows (update c x) (n + k)) (sym e) (update-Follows c n k h f)

update_if_at :
    (size : ℕ) (c : RingCounter) (n k cur : ℕ)
    → (size == 0) ≡ false
    → k < u32
    → cur ≡ (n + k) % u32
    → Follows c n
    → Follows (update_if size c cur) (n + k)
update_if_at size c n k cur z h e f =
    subst (λ x. Follows x (n + k)) (sym (if_false _ _ z)) (update_at c n k cur h e f)

total_if_at :
    {n : ℕ} (size : ℕ) (c : RingCounter)
    → (size == 0) ≡ false
    → Follows c n
    → total_if size c ≡ n % u64
total_if_at size c z f = if_false _ _ z ∙ f.total

module _ (s : Socket) (m : Meters) (f r t c f' r' t' c' : ℕ) (before : Measures m f r t c)
    (now : At s (f + f') (r + r') (t + t') (c + c')) (hf : f' < u32) (hr : r' < u32) (ht : t' < u32)
    (hc : c' < u32) where
  sample-Measures : Measures (sample s m) (f + f') (r + r') (t + t') (c + c')
  unfolding sample
  sample-Measures = record {
    fills = update_at m.filled f f' _ hf now.fills before.fills;
    receives = update_if_at _ m.received r r' _ now.rx hr now.receives before.receives;
    transmits = update_if_at _ m.transmitted t t' _ now.tx ht now.transmits before.transmits;
    completes = update_if_at _ m.completed c c' _ now.completion hc now.completes before.completes;
  }

  abbrev pub shown : Counters → KernelStats → Stats
  shown counters k = record {
    filled = (f + f') % u64;
    received = (r + r') % u64;
    transmitted = (t + t') % u64;
    completed = (c + c') % u64;
    counters = counters;
    kernel_stats = k;
  }

  stats_of-sample : (k : KernelStats) → stats_of s (sample s m) k ≡ shown s.stats k
  stats_of-sample k =
      let w : Measures (sample s m) (f + f') (r + r') (t + t') (c + c') = sample-Measures in
      λ i. record {
        filled = w.fills.total i;
        received = total_if_at _ _ now.rx w.receives i;
        transmitted = total_if_at _ _ now.tx w.transmits i;
        completed = total_if_at _ _ now.completion w.completes i;
        counters = s.stats;
        kernel_stats = k;
      }

  -- An open socket whose last sample was right, with all its rings mapped and moved by less than 2^32
  -- entries each since, samples right again, and Stats reports the four counts modulo 2^64, with the
  -- socket's counters and the kernel's statistics.
  pub stats-Measures :
      (k : KernelStats)
      → s.closing ≡ false
      → Measures (stats s m (given k)).0 (f + f') (r + r') (t + t') (c + c')
        × ((stats s m (given k)).1 ≡ sampled (shown s.stats k))
  unfolding stats
  stats-Measures k o =
      let e : stats s m (given k) ≡ (sample s m, sampled (stats_of s (sample s m) k)) =
        if_false _ _ o in
      (
        subst (λ x. Measures x.0 (f + f') (r + r') (t + t') (c + c')) (sym e) sample-Measures,
        ap (λ x. x.1) e ∙ ap sampled (stats_of-sample k),
      )
