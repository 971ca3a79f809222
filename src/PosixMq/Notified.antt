-- ===== src/PosixMq/Notified.antt =====
-- When the process that sleeps in `sigsuspend` is woken for a message, and when it is not.
use linuxapi.Base.{ℕ, zero, suc, ◌+◌, ◌<◌, ◌≡◌, ◌≢◌, ◌⊎◌, inl, inr, refl, true, false, arith}
use linuxapi.PosixMq.{
  Queue, Receiver, send, Receives, Fails, System, Step, sends, receives, dies, begin, armed, Reach,
  start, later,
}

-- Messages are in the queue or printed.
abbrev pub Balanced : (before : ℕ) → Queue → Type 0
Balanced before q = before + q.sent ≡ q.messages + q.printed

Step-Balanced :
    (before : ℕ) {s t : System} → Step s t → Balanced before s.queue → Balanced before t.queue
Step-Balanced before sends h = omega (arith, h)
Step-Balanced before (receives Receives.opens) h = h
Step-Balanced before (receives Receives.asks) h = h
Step-Balanced before (receives Receives.blocks) h = h
Step-Balanced before (receives Receives.installs) h = h
Step-Balanced before (receives Receives.registers) h = h
Step-Balanced before (receives (Receives.wakes e)) h = h
Step-Balanced before (receives Receives.registers_again) h = h
Step-Balanced before (receives (Receives.prints e)) h = omega (arith, e, h)
Step-Balanced before (receives (Receives.empty e)) h = h
Step-Balanced before (dies f) h = h

-- Who will be told of the next message: in `sigsuspend`, a waiting message means that the signal is
-- pending, and without one the process is registered or the signal is pending.
abbrev pub Told : Queue → Receiver → Type 0
Told q Receiver.suspend = (q.pending ≡ true) ⊎ ((q.registered ≡ true) × (q.messages ≡ 0))
Told q Receiver.receive = (q.pending ≡ true) ⊎ (q.registered ≡ true)
Told q Receiver.register_again = Unit {0}
Told q Receiver.died = Unit {0}
Told q r = ⊥

send-Told : (q : Queue) (r : Receiver) → Told q r → Told (send q) r
send-Told q Receiver.suspend (inl p) = inl (rw p refl)
send-Told q Receiver.suspend (inr h) = inl (ground (arith, h.0, h.1))
send-Told q Receiver.receive (inl p) = inl (rw p refl)
send-Told q Receiver.receive (inr h) = ground arith
send-Told q Receiver.register_again h = tt
send-Told q Receiver.died h = tt
send-Told q Receiver.open_queue h = absurd h
send-Told q Receiver.attributes h = absurd h
send-Told q Receiver.block h = absurd h
send-Told q Receiver.install h = absurd h
send-Told q Receiver.register h = absurd h

receives-Told : {q q' : Queue} {r r' : Receiver} → Receives q r q' r' → Told q r → Told q' r'
receives-Told Receives.opens h = absurd h
receives-Told Receives.asks h = absurd h
receives-Told Receives.blocks h = absurd h
receives-Told Receives.installs h = absurd h
receives-Told Receives.registers h = absurd h
receives-Told (Receives.wakes e) h = tt
receives-Told Receives.registers_again h = inr refl
receives-Told (Receives.prints e) h = h
receives-Told (Receives.empty e) (inl p) = inl p
receives-Told (Receives.empty e) (inr on) = inr (on, e)

-- All that holds after the process has registered with an empty queue.
abbrev pub Inv : System → Type 0
Inv s = Told s.queue s.receiver × Balanced 0 s.queue

Reach-Inv : {s : System} → Reach armed s → Inv s
Reach-Inv start = (inr (refl, refl), refl)
Reach-Inv (later {s = s} r sends) =
    let inv = Reach-Inv r in
    (send-Told s.queue s.receiver inv.0, Step-Balanced 0 {s = s} sends inv.1)
Reach-Inv (later {s = s} r (receives m)) =
    let inv = Reach-Inv r in (receives-Told m inv.0, Step-Balanced 0 {s = s} (receives m) inv.1)
Reach-Inv (later {s = s} r (dies f)) = (tt, (Reach-Inv r).1)

-- A step of the receiver that does not end it.
abbrev pub Continues : System → Type 0
Continues s = (q : Queue) × (r : Receiver) × Receives s.queue s.receiver q r

reads :
    (q : Queue) (n : ℕ)
    → q.messages ≡ n
    → Continues (record { queue = q; receiver = Receiver.receive })
reads q zero e = (_, _, Receives.empty e)
reads q (suc n) e = (_, _, Receives.prints e)

goes_on_at :
    (q : Queue) (r : Receiver)
    → Told q r
    → Balanced 0 q
    → r ≢ Receiver.died
    → (q.printed ≡ q.sent) ⊎ Continues (record { queue = q; receiver = r })
goes_on_at q Receiver.suspend (inl p) b alive = inr (_, _, Receives.wakes p)
goes_on_at q Receiver.suspend (inr h) b alive = inl (omega (arith, h.1, b))
goes_on_at q Receiver.register_again h b alive = inr (_, _, Receives.registers_again)
goes_on_at q Receiver.receive h b alive = inr (reads q q.messages refl)
goes_on_at q Receiver.died h b alive = absurd (alive refl)
goes_on_at q Receiver.open_queue h b alive = absurd h
goes_on_at q Receiver.attributes h b alive = absurd h
goes_on_at q Receiver.block h b alive = absurd h
goes_on_at q Receiver.install h b alive = absurd h
goes_on_at q Receiver.register h b alive = absurd h

-- If the queue was empty when the process first registered, no message waits for ever: in every
-- reachable state in which the process has not been ended by an error, all messages sent since are
-- printed, or it can go on without an error. So no notification is lost, also if messages come while
-- it reads, or between its last `mq_receive` and `sigsuspend`.
pub messages_read :
    {s : System}
    → Reach armed s
    → s.receiver ≢ Receiver.died
    → (s.queue.printed ≡ s.queue.sent) ⊎ Continues s
messages_read {s} r alive = goes_on_at s.queue s.receiver (Reach-Inv r).0 (Reach-Inv r).1 alive

-- With messages in the queue and no registration before them, nothing wakes the process.
abbrev pub Deaf : Queue → Receiver → Type 0
Deaf q Receiver.receive = ⊥
Deaf q Receiver.register_again = ⊥
Deaf q Receiver.suspend = (q.pending ≡ false) × (0 < q.messages) × (q.printed ≡ 0)
Deaf q r = (q.pending ≡ false) × (0 < q.messages) × (q.printed ≡ 0) × (q.registered ≡ false)

send-Deaf : (q : Queue) (r : Receiver) → Deaf q r → Deaf (send q) r
send-Deaf q Receiver.suspend h = ground arith
send-Deaf q Receiver.receive h = absurd h
send-Deaf q Receiver.register_again h = absurd h
send-Deaf q Receiver.died h = ground arith
send-Deaf q Receiver.open_queue h = ground arith
send-Deaf q Receiver.attributes h = ground arith
send-Deaf q Receiver.block h = ground arith
send-Deaf q Receiver.install h = ground arith
send-Deaf q Receiver.register h = ground arith

receives-Deaf : {q q' : Queue} {r r' : Receiver} → Receives q r q' r' → Deaf q r → Deaf q' r'
receives-Deaf Receives.opens h = h
receives-Deaf Receives.asks h = h
receives-Deaf Receives.blocks h = h
receives-Deaf Receives.installs h = h
receives-Deaf Receives.registers h = (h.0, h.1, h.2)
receives-Deaf (Receives.wakes e) h = absurd (ground arith)
receives-Deaf Receives.registers_again h = absurd h
receives-Deaf (Receives.prints e) h = absurd h
receives-Deaf (Receives.empty e) h = absurd h

Fails-Deaf : (q : Queue) {r : Receiver} → Fails r → Deaf q r → Deaf q Receiver.died
Fails-Deaf q Fails.open_fails h = h
Fails-Deaf q Fails.attributes_fails h = h
Fails-Deaf q Fails.block_fails h = h
Fails-Deaf q Fails.install_fails h = h
Fails-Deaf q Fails.register_fails h = h
Fails-Deaf q Fails.register_again_fails h = absurd h
Fails-Deaf q Fails.receive_fails h = absurd h

Reach-Deaf :
    {before : ℕ} {s : System} → 0 < before → Reach (begin before) s → Deaf s.queue s.receiver
Reach-Deaf early start = (refl, early, refl, refl)
Reach-Deaf early (later {s = s} r sends) = send-Deaf s.queue s.receiver (Reach-Deaf early r)
Reach-Deaf early (later r (receives m)) = receives-Deaf m (Reach-Deaf early r)
Reach-Deaf early (later {s = s} r (dies f)) = Fails-Deaf s.queue f (Reach-Deaf early r)

Deaf-silent : (q : Queue) (r : Receiver) → Deaf q r → (q.printed ≡ 0) × (q.pending ≡ false)
Deaf-silent q Receiver.suspend h = (h.2, h.0)
Deaf-silent q Receiver.receive h = absurd h
Deaf-silent q Receiver.register_again h = absurd h
Deaf-silent q Receiver.died h = (h.2, h.0)
Deaf-silent q Receiver.open_queue h = (h.2, h.0)
Deaf-silent q Receiver.attributes h = (h.2, h.0)
Deaf-silent q Receiver.block h = (h.2, h.0)
Deaf-silent q Receiver.install h = (h.2, h.0)
Deaf-silent q Receiver.register h = (h.2, h.0)

-- If a message is in the queue when the process starts, it never prints any: in every reachable
-- state no message is printed and no signal is pending, however many more are sent.
pub deaf_to_early_messages :
    {before : ℕ} {s : System}
    → 0 < before
    → Reach (begin before) s
    → (s.queue.printed ≡ 0) × (s.queue.pending ≡ false)
deaf_to_early_messages {s = s} early r = Deaf-silent s.queue s.receiver (Reach-Deaf early r)
