-- ===== src/Socket/Poll.antt =====
-- socket.go: `Poll`, `PollWith` and `WakeupRx`, the methods that wait in the kernel or wake its driver.
use go_afxdp.Prelude.{
  ℕ, zero, suc, ◌+◌, ◌*◌, ◌/◌, ◌<◌, ◌≤◌, ◌≡◌, refl, ap, ◌∙◌, Bool, true, false, not, ◌&&◌, Option,
  none, some, List, [], ◌∷◌, ltb, ◌==◌, if◌then◌else◌, ℤ, pos, negsuc, arith, Bool-cases, inl, inr,
}
use go_afxdp.Socket.{
  Socket, Answer, ok, eintr, eagain, ebusy, other, KickError, closed, errno, add64, needs_wakeup_rx,
  num_received,
}

-- `timeout`, a duration in nanoseconds, in the milliseconds that poll(2) takes.
unfoldable pub poll_timeout : ℤ → ℤ
poll_timeout (negsuc _) = negsuc 0
poll_timeout (pos timeout) =
    let ms = timeout / 1000000 in if (ms == 0) && ltb 0 timeout then pos 1 else pos ms

-- What poll(2) returns: the number of descriptors that are ready, and whether the eventfd is one; or an
-- errno.
pub data PollAnswer : Type 0 where
  ready : ℕ → Bool → PollAnswer
  interrupted : PollAnswer
  failed : ℕ → PollAnswer

-- `for err = EINTR; err == EINTR; { n, err = unix.Poll(pfds, ms) }`. From some call on the time is out.
unfoldable pub poll_loop : List PollAnswer → PollAnswer
poll_loop [] = ready 0 false
poll_loop (interrupted ∷ answers) = poll_loop answers
poll_loop (ready n woken ∷ answers) = ready n woken
poll_loop (failed code ∷ answers) = failed code

-- The kernel during one call: what it answers, for the extra descriptors and the time given, and what it
-- and other goroutines make of the socket meanwhile.
pub record Waits : Type 0 where
  pub answers : List ℕ → ℤ → List PollAnswer
  pub meanwhile : Socket → Socket

pub data Result {ℓ} (A : Type ℓ) : Type ℓ where
  returned : A → Result A
  refused : KickError → Result A

abbrev is_zero : ℤ → Bool
is_zero (pos n) = n == 0
is_zero (negsuc _) = false

-- `xsk.numFilled == 0 && !xsk.NeedsWakeupRx()`
unfoldable pub pointless : Socket → Bool
pointless s = is_zero s.num_filled && not (needs_wakeup_rx s)

unfoldable pub count_poll : Socket → Socket
count_poll s = record s { stats = record s.stats { polls = add64 s.stats.polls 1 } }

abbrev pub after_poll : Socket → PollAnswer → Result ℕ
after_poll s (failed code) = refused (errno code)
after_poll s (ready n true) = refused closed
after_poll s (ready n false) = returned (num_received s)
after_poll s interrupted = refused closed

unfoldable pub poll : Socket → ℤ → Waits → Socket × Result ℕ
poll s timeout kernel =
    if s.closing
    then (s, refused closed)
    else if pointless s
    then (s, returned 0)
    else let s' = kernel.meanwhile (count_poll s) in
      (s', after_poll s' (poll_loop (kernel.answers [] (poll_timeout timeout))))

abbrev pub after_poll_with : PollAnswer → Result Bool
after_poll_with (failed code) = refused (errno code)
after_poll_with (ready n true) = refused closed
after_poll_with (ready n false) = returned (ltb 0 n)
after_poll_with interrupted = refused closed

unfoldable pub poll_with : Socket → List ℕ → ℤ → Waits → Socket × Result Bool
poll_with s extra timeout kernel =
    if s.closing then (s, refused closed) else if pointless s then (s, returned true) else (
      kernel.meanwhile (count_poll s),
      after_poll_with (poll_loop (kernel.answers extra (poll_timeout timeout))),
    )

-- The loop of `WakeupRx` against the answers to recvfrom, from some call on success.
unfoldable pub wakeup_loop : List Answer → Option ℕ
wakeup_loop [] = none
wakeup_loop (ok ∷ answers) = none
wakeup_loop (eagain ∷ answers) = none
wakeup_loop (eintr ∷ answers) = wakeup_loop answers
wakeup_loop (ebusy ∷ answers) = some 16
wakeup_loop (other code ∷ answers) = some code

abbrev kick_result : Option ℕ → Option KickError
kick_result none = none
kick_result (some code) = some (errno code)

unfoldable pub wakeup_rx : Socket → List Answer → Socket × Option KickError
wakeup_rx s answers = if s.closing then (s, some closed) else (
  record s { stats = record s.stats { rx_kicks = add64 s.stats.rx_kicks 1 } },
  kick_result (wakeup_loop answers),
)

-- ---- the time given to poll(2) ----

-- poll(2) waits as its caller asked: forever exactly for a negative timeout, not at all exactly for zero,
-- and for a positive one at least a millisecond, never longer than asked once a whole millisecond is.
abbrev pub Agrees : ℤ → ℤ → Type 0
Agrees (negsuc _) ms = ms ≡ negsuc 0
Agrees (pos timeout) (negsuc _) = ⊥
Agrees (pos timeout) (pos ms) =
    (0 < timeout → 1 ≤ ms)
    × (timeout ≡ 0 → ms ≡ 0)
    × (1000000 ≤ timeout → (ms * 1000000 ≤ timeout) × (timeout < (ms + 1) * 1000000))

-- For every timeout, the milliseconds given to poll(2) are -1 for a negative one, 0 for zero, at least 1
-- for a positive one, and the whole milliseconds of one that has any.
pub poll_timeout_lem : (timeout : ℤ) → Agrees timeout (poll_timeout timeout)
unfolding poll_timeout
poll_timeout_lem (negsuc n) = refl
poll_timeout_lem (pos timeout) = elim (Bool-cases ((timeout / 1000000 == 0) && ltb 0 timeout)) [
  | inl h ↦ rw h (ground arith, ground arith, ground arith)
  | inr h ↦ rw h (ground arith, ground arith, ground arith)
]

-- ---- interruptions ----

abbrev pub interruptions : ℕ → List PollAnswer → List PollAnswer
interruptions zero answers = answers
interruptions (suc n) answers = interrupted ∷ interruptions n answers

abbrev pub interrupt : ℕ → Waits → Waits
interrupt n kernel = record kernel {
  answers = λ extra ms. interruptions n (kernel.answers extra ms);
}

poll_loop-interruptions :
    (n : ℕ) (answers : List PollAnswer) → poll_loop (interruptions n answers) ≡ poll_loop answers
unfolding poll_loop
poll_loop-interruptions zero answers = refl
poll_loop-interruptions (suc n) answers = poll_loop-interruptions n answers

-- ---- the two polls ----

abbrev pub error {ℓ} : {A : Type ℓ} → Result A → Option KickError
error (returned _) = none
error (refused e) = some e

after_agree : (s : Socket) (a : PollAnswer) → error (after_poll_with a) ≡ error (after_poll s a)
after_agree s (failed code) = refl
after_agree s (ready n true) = refl
after_agree s (ready n false) = refl
after_agree s interrupted = refl

branch_agree {ℓ} :
    {A B : Type 0} (P : A → B → Type ℓ) (c p : Bool) {a a' a'' : A} {b b' b'' : B}
    → P a b
    → P a' b'
    → P a'' b''
    → P (if c then a else if p then a' else a'') (if c then b else if p then b' else b'')
branch_agree P true p h h' h'' = h
branch_agree P false true h h' h'' = h'
branch_agree P false false h h' h'' = h''

abbrev SameEnd : Socket × Result Bool → Socket × Result ℕ → Type 0
SameEnd a b = (a.0 ≡ b.0) × (error a.1 ≡ error b.1)

-- With no extra descriptors, and whatever signals interrupt one of them, PollWith and Poll leave the same
-- socket, and fail on the same conditions with the same error.
pub poll_with-poll :
    (s : Socket) (timeout : ℤ) (kernel : Waits) (n : ℕ)
    → ((poll_with s [] timeout (interrupt n kernel)).0 ≡ (poll s timeout kernel).0)
      × (error (poll_with s [] timeout (interrupt n kernel)).1 ≡ error (poll s timeout kernel).1)
unfolding poll_with poll
poll_with-poll s timeout kernel n =
    branch_agree SameEnd s.closing (pointless s) (refl, refl) (refl, refl)
      (
        refl,
        ap (λ a. error (after_poll_with a))
              (poll_loop-interruptions n (kernel.answers [] (poll_timeout timeout)))
            ∙ after_agree (kernel.meanwhile (count_poll s))
                (poll_loop (kernel.answers [] (poll_timeout timeout))),
      )
