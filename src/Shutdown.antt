-- ===== src/Shutdown.antt =====
-- socket.go: `incref`, `decref` and `Close` of a `Socket` that several goroutines use at once. Each
-- atomic load, store, add and swap is a step of its own, in any order of the goroutines; memory is
-- sequentially consistent, as Go's atomics are. A method is the time between its `incref` and its
-- `decref`; one may call another, so a goroutine counts once for each method that it is in.
pub mod Books
pub mod Safety
pub mod Budget
pub mod Drain
use go_afxdp.Prelude.{
  ℕ, suc, ◌+◌, ◌-◌, ◌<◌, ◌≡◌, Bool, true, false, List, [], ◌∷◌, ◌++◌, ltb, if◌then◌else◌,
}

-- Where a goroutine stands: outside of `incref` and `decref`; past the first load of `closing`, which
-- was false; past the add; past the second load, which was true, and before the add of -1. In a method
-- that polls: before the call of poll(2), and in it.
pub data Place : Type 0 where
  at_rest checked counted undoing to_poll polling : Place

-- `depth` is the number of methods that the goroutine is in.
pub record Thread : Type 0 where
  pub depth : ℕ
  pub place : Place

-- The goroutine whose swap made `closing` true: none yet; it has not written to the eventfd yet; it
-- waits for `ops`; it tears down; it is done. Any other call of Close returns at once.
pub data Closer : Type 0 where
  none_yet waking waiting tearing finished : Closer

-- `live`: the descriptors are open, and the rings and the UMEM are mapped.
pub record State : Type 0 where
  pub closing : Bool
  pub ops : ℕ
  pub woken : Bool
  pub live : Bool
  pub closer : Closer
  pub threads : List Thread

abbrev pub fresh_thread : Thread
fresh_thread = record { depth = 0; place = at_rest }

abbrev pub initial : List Thread → State
initial ts = record {
  closing = false;
  ops = 0;
  woken = false;
  live = true;
  closer = none_yet;
  threads = ts;
}

-- What one goroutine does at its next atomic operation: its new place and the new `ops`. The second
-- argument chooses, for a goroutine that enters, whether the method polls.
pub data Move : Type 0 where
  stay : Move
  move : ℕ → Thread → Move

-- `incref`, operation by operation.
unfoldable pub first_load : Bool → ℕ → Thread → Move
first_load closing ops t = if closing then stay else move ops (record t { place = checked })

unfoldable pub add_one : ℕ → Thread → Move
add_one ops t = move (ops + 1) (record t { place = counted })

unfoldable pub second_load : Bool → Bool → ℕ → Thread → Move
second_load polls closing ops t =
    if closing
    then move ops (record t { place = undoing })
    else move ops (record { depth = t.depth + 1; place = if polls then to_poll else at_rest })

unfoldable pub undo : ℕ → Thread → Move
undo ops t = move (ops - 1) (record t { place = at_rest })

-- `decref`
unfoldable pub decref : ℕ → Thread → Move
decref ops t = move (ops - 1) (record t { depth = t.depth - 1 })

-- What a goroutine can do by itself: its next operation, the return from a method that it is in, and the
-- return from poll(2) once the eventfd is readable, which no reader ever empties.
pub data Proceeds (s : State) (t : Thread) : Move → Type 0 where
  adds : t.place ≡ checked → Proceeds s t (add_one s.ops t)
  loads : (polls : Bool) → t.place ≡ counted → Proceeds s t (second_load polls s.closing s.ops t)
  undoes : t.place ≡ undoing → Proceeds s t (undo s.ops t)
  returns : t.place ≡ at_rest → 0 < t.depth → Proceeds s t (decref s.ops t)
  starts_poll : t.place ≡ to_poll → Proceeds s t (move s.ops (record t { place = polling }))
  wakes_up :
      t.place ≡ polling → s.woken ≡ true → Proceeds s t (move s.ops (record t { place = at_rest }))

-- Its choices, and those of others: to call a method, also from within one, and for poll(2) to
-- return on a packet, a timeout or an error.
pub data Acts (s : State) (t : Thread) : Move → Type 0 where
  proceeds : {m : Move} → Proceeds s t m → Acts s t m
  calls : t.place ≡ at_rest → Acts s t (first_load s.closing s.ops t)
  polled : t.place ≡ polling → Acts s t (move s.ops (record t { place = at_rest }))

-- `Close`, operation by operation.
unfoldable pub swap_closing : State → State
swap_closing s = record s { closing = true; closer = if s.closing then s.closer else waking }

unfoldable pub write_wake : State → State
write_wake s = record s { woken = true; closer = waiting }

unfoldable pub load_ops : State → State
load_ops s = if ltb 0 s.ops then s else record s { closer = tearing }

unfoldable pub tear_down : State → State
tear_down s = record s { live = false; closer = finished }

pub data Step (s : State) (u : State) : Type 0 where
  acts :
      (before : List Thread) (t : Thread) (after : List Thread) (ops : ℕ) (t' : Thread)
      → s.threads ≡ before ++ (t ∷ after)
      → Acts s t (move ops t')
      → u ≡ record s { ops = ops; threads = before ++ (t' ∷ after) }
      → Step s u
  -- A call of a method on a closed socket performs one load, and leaves all as it was.
  turned_away :
      (before : List Thread) (t : Thread) (after : List Thread)
      → s.threads ≡ before ++ (t ∷ after)
      → Acts s t stay
      → u ≡ s
      → Step s u
  spawns : u ≡ record s { threads = fresh_thread ∷ s.threads } → Step s u
  closes : u ≡ swap_closing s → Step s u
  wakes : s.closer ≡ waking → u ≡ write_wake s → Step s u
  waits : s.closer ≡ waiting → u ≡ load_ops s → Step s u
  tears : s.closer ≡ tearing → u ≡ tear_down s → Step s u

-- A step that needs nothing from outside: a goroutine goes on by itself, or Close does.
pub data Unaided (s : State) (u : State) : Type 0 where
  goes :
      (before : List Thread) (t : Thread) (after : List Thread) (ops : ℕ) (t' : Thread)
      → s.threads ≡ before ++ (t ∷ after)
      → Proceeds s t (move ops t')
      → u ≡ record s { ops = ops; threads = before ++ (t' ∷ after) }
      → Unaided s u
  close_wakes : s.closer ≡ waking → u ≡ write_wake s → Unaided s u
  close_waits : s.closer ≡ waiting → u ≡ load_ops s → Unaided s u
  close_tears : s.closer ≡ tearing → u ≡ tear_down s → Unaided s u

pub data Drains (s : State) : State → Type 0 where
  drained : Drains s s
  on : {t u : State} → Drains s t → Unaided t u → Drains s u

pub data Reach (s : State) : State → Type 0 where
  here : Reach s s
  next : {t u : State} → Reach s t → Step t u → Reach s u
