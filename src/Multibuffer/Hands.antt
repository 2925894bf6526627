-- ===== src/Multibuffer/Hands.antt =====
-- Frames handed between a socket and its caller: what each method does with them.
use go_afxdp.Prelude.{
  ℕ, ◌+◌, ◌≤◌, ◌≡◌, refl, sym, ap, ◌∙◌, subst, List, [], ◌∷◌, ◌++◌, length, take, arith,
  take-of_length_le, ℤ,
}
use go_afxdp.Prelude.Count.{count}
use go_afxdp.Pool
use go_afxdp.Ring.Slots.{entries}
use go_afxdp.Socket.{
  Socket, Desc, Counters, Answer, frame_base, alloc, transmit, complete, num_free_tx_slots,
  kick_if_needed,
}
use go_afxdp.Socket.Frames.{tally-push, tally, tally-cons, addrs}
use go_afxdp.Socket.Inv.{IsValid}
use go_afxdp.Socket.Tx.{alloc_lem, kick_if_needed-eq, transmit_lem, complete_lem}
use go_afxdp.Multibuffer.{give_back}
use go_afxdp.World.Kept.{parts, desc_parts, addrs-tx_desc}

-- How often the frame at `f` is in the pools and on the two transmit rings.
abbrev pub held : ℕ → ℕ → Socket → ℕ
held fs f s =
    tally fs f s.rx_pool.free
    + tally fs f s.tx_pool.free
    + tally fs f (addrs (entries s.options.tx_ring_num_descs s.tx_ring))
    + tally fs f (entries s.options.completion_ring_num_descs s.completion_ring)

-- From `s`, with the frames of `ds` in the caller's hands, to `s'` with those of `ds'`.
pub record Hands (s : Socket) (ds : List Desc) (s' : Socket) (ds' : List Desc) : Type 0 where
  pub valid : IsValid s'
  pub options : s'.options ≡ s.options
  pub frames :
      (f : ℕ)
      → held s.options.frame_size f s' + tally s.options.frame_size f (addrs ds')
        ≡ held s.options.frame_size f s + tally s.options.frame_size f (addrs ds)

pub Hands-trans :
    {s s' s'' : Socket} {ds ds' ds'' : List Desc}
    → Hands s ds s' ds'
    → Hands s' ds' s'' ds''
    → Hands s ds s'' ds''
Hands-trans {s} {s'} {s''} {ds} {ds'} {ds''} h k = record {
  valid = k.valid;
  options = k.options ∙ h.options;
  frames = λ f.
      subst (λ (o : ℕ). held o f s'' + tally o f (addrs ds'') ≡ held o f s' + tally o f (addrs ds'))
        (ap (λ o. o.frame_size) h.options) (k.frames f)
      ∙ h.frames f;
}

-- Counters, memory and the count of frames in flight are no part of the books.
pub same :
    (s : Socket) (ds : List Desc) (umem : ℕ → ℕ) (stats : Counters) (n : ℤ)
    → IsValid s
    → Hands s ds (record s { umem = umem; stats = stats; num_transmitted = n }) ds
same s ds umem stats n v = record {
  valid = record {
    fill_size = v.fill_size;
    rx_size = v.rx_size;
    tx_size = v.tx_size;
    completion_size = v.completion_size;
    fill_ok = v.fill_ok;
    rx_ok = v.rx_ok;
    tx_ok = v.tx_ok;
    completion_ok = v.completion_ok;
  };
  options = refl;
  frames = λ f. refl;
}

pub complete-Hands :
    (s : Socket) (n : ℕ) (ds : List Desc) → IsValid s → Hands s ds (complete s n).0 ds
complete-Hands s n ds v =
    let (r, p, q, done, e, ring, ok, back) = complete_lem s n v in
    subst (λ (x : Socket × ℕ). Hands s ds x.0 ds) (sym e)
      (record {
        valid = record {
          fill_size = v.fill_size;
          rx_size = v.rx_size;
          tx_size = v.tx_size;
          completion_size = v.completion_size;
          fill_ok = v.fill_ok;
          rx_ok = v.rx_ok;
          tx_ok = v.tx_ok;
          completion_ok = ok;
        };
        options = refl;
        frames = λ f. omega (arith, back.0 f, parts s.options.frame_size f done _ ring);
      })

pub alloc-Hands : (s : Socket) (n : ℕ) → IsValid s → Hands s [] (alloc s n).0 (alloc s n).1
unfolding count
alloc-Hands s n v =
    let (p, moved, e, pool, _, _) = alloc_lem s n in
    subst (λ (x : Socket × List Desc). Hands s [] x.0 x.1) (sym e)
      (record {
        valid = record {
          fill_size = v.fill_size;
          rx_size = v.rx_size;
          tx_size = v.tx_size;
          completion_size = v.completion_size;
          fill_ok = v.fill_ok;
          rx_ok = v.rx_ok;
          tx_ok = v.tx_ok;
          completion_ok = v.completion_ok;
        };
        options = refl;
        frames = λ f. omega (
          arith,
          parts s.options.frame_size f p.free moved pool,
          ap (tally s.options.frame_size f) (addrs-tx_desc s moved),
        );
      })

pub give_back-Hands : (s : Socket) (ds : List Desc) → IsValid s → Hands s ds (give_back s ds) []
unfolding count Pool.push frame_base
give_back-Hands s [] v = same s [] s.umem s.stats s.num_transmitted v
give_back-Hands s (d ∷ ds) v = Hands-trans (push_one s d ds v) (
    give_back-Hands (record s { tx_pool = Pool.push s.tx_pool (frame_base s d.addr) }) ds
      (push_one s d ds v).valid)
  where
    push_one :
        (s : Socket) (d : Desc) (ds : List Desc)
        → IsValid s
        → Hands s (d ∷ ds) (record s { tx_pool = Pool.push s.tx_pool (frame_base s d.addr) }) ds
    push_one s d ds v = record {
      valid = record {
        fill_size = v.fill_size;
        rx_size = v.rx_size;
        tx_size = v.tx_size;
        completion_size = v.completion_size;
        fill_ok = v.fill_ok;
        rx_ok = v.rx_ok;
        tx_ok = v.tx_ok;
        completion_ok = v.completion_ok;
      };
      options = refl;
      frames = λ f. omega (
        arith,
        tally-push s.options.frame_size f d.addr s.tx_pool,
        tally-cons s.options.frame_size f d.addr (addrs ds),
      );
    }

pub transmit-Hands :
    (s : Socket) (ds : List Desc) (answers : List Answer)
    → IsValid s
    → length ds ≤ num_free_tx_slots s
    → Hands s ds (transmit s ds answers).0 []
unfolding count
transmit-Hands s ds answers v room =
    let (r, c, q, e, sent, ring, ok) = transmit_lem s ds answers v in
    let all : take q ds ≡ ds = take-of_length_le q ds (omega (arith, sent)) in
    subst (λ (x : Socket × ℕ). Hands s ds x.0 []) (sym e)
      (record {
        valid = record {
          fill_size = v.fill_size;
          rx_size = v.rx_size;
          tx_size = v.tx_size;
          completion_size = v.completion_size;
          fill_ok = v.fill_ok;
          rx_ok = v.rx_ok;
          tx_ok = ok;
          completion_ok = v.completion_ok;
        };
        options = refl;
        frames = λ f. omega (
          arith,
          desc_parts s.options.frame_size f (entries s.options.tx_ring_num_descs s.tx_ring) ds
              (ap (λ xs. entries s.options.tx_ring_num_descs s.tx_ring ++ xs) (sym all) ∙ sym ring),
        );
      })

pub kick_if_needed-Hands :
    (s : Socket) (ds : List Desc) (answers : List Answer)
    → IsValid s
    → Hands s ds (kick_if_needed s answers) ds
kick_if_needed-Hands s ds answers v =
    let (c, e) = kick_if_needed-eq s answers in
    subst (λ (x : Socket). Hands s ds x ds) (sym e) (same s ds s.umem c s.num_transmitted v)
