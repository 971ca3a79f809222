-- ===== src/PosixMq/Threads.antt =====
-- ipc_posix_mq_read_by_thread of LinuxAPI2/ipc_posix_mq.c: each notification starts a thread, which
-- registers again and reads until the queue is empty. Several of them may run at once, beside any
-- senders; the main thread is in `pause`.
use linuxapi.Base.{
  ℕ, zero, suc, ◌+◌, ◌<◌, ◌≤◌, ◌==◌, ◌≡◌, ◌⊎◌, inl, inr, refl, Bool, true, false, ◌&&◌, arith,
}

-- The queue, and how many threads stand before their `mq_notify` and before `mq_receive`; and whether
-- the process has been ended by `errExit`.
pub record Process : Type 0 where
  pub messages : ℕ
  pub sent : ℕ
  pub printed : ℕ
  pub registered : Bool
  pub starting : ℕ
  pub reading : ℕ
  pub exited : Bool

-- A message that comes to an empty queue ends the registration and starts a thread.
abbrev pub arrive : (tells : Bool) → Process → Process
arrive true p = record p {
  messages = suc p.messages;
  sent = suc p.sent;
  registered = false;
  starting = suc p.starting;
}
arrive false p = record p { messages = suc p.messages; sent = suc p.sent }

abbrev pub tells : Process → Bool
tells p = p.registered && (p.messages == 0)

-- A step of a thread of a process that has not been ended. `mq_notify` succeeds only where nobody is
-- registered.
pub data Reads (p : Process) : Process → Type 0 where
  registers :
      {k : ℕ}
      → p.exited ≡ false
      → p.starting ≡ suc k
      → p.registered ≡ false
      → Reads p (record p { starting = k; reading = suc p.reading; registered = true })
  prints :
      {k n : ℕ}
      → p.exited ≡ false
      → p.reading ≡ suc k
      → p.messages ≡ suc n
      → Reads p (record p { messages = n; printed = suc p.printed })
  -- `EAGAIN`: the thread returns.
  returns :
      {k : ℕ}
      → p.exited ≡ false
      → p.reading ≡ suc k
      → p.messages ≡ 0
      → Reads p (record p { reading = k })

pub data Moves (p : Process) : Process → Type 0 where
  sends : Moves p (arrive (tells p) p)
  reads : {q : Process} → Reads p q → Moves p q
  -- `mq_getattr` or `mq_notify` of a new thread, or `mq_receive`, fails.
  start_fails : {k : ℕ} → p.starting ≡ suc k → Moves p (record p { exited = true })
  receive_fails : {k : ℕ} → p.reading ≡ suc k → Moves p (record p { exited = true })

-- The first `mq_notify` has succeeded, with an empty queue.
abbrev pub listening : Process
listening = record {
  messages = 0;
  sent = 0;
  printed = 0;
  registered = true;
  starting = 0;
  reading = 0;
  exited = false;
}

pub data Runs : Process → Type 0 where
  start : Runs listening
  later : {p q : Process} → Runs p → p.exited ≡ false → Moves p q → Runs q

-- Either one thread is about to register, or the process is registered, and a thread reads if there
-- are messages.
abbrev pub Served : Process → Type 0
Served p =
    ((p.starting ≡ 1) × (p.registered ≡ false))
    ⊎ ((p.starting ≡ 0) × (p.registered ≡ true) × ((p.messages ≡ 0) ⊎ (0 < p.reading)))

pub record Inv (p : Process) : Type 0 where
  pub served : Served p
  pub balanced : p.sent ≡ p.messages + p.printed

sends-Served : (p : Process) (t : Bool) → tells p ≡ t → Served p → Served (arrive t p)
sends-Served p true e (inl h) = absurd (ground (arith, h.1))
sends-Served p true e (inr h) = inl (omega (arith, h.0), refl)
sends-Served p false e (inl h) = inl h
sends-Served p false e (inr h) = inr (
  h.0,
  h.1,
  inr (elim h.2 [ inl none_ ↦ absurd (ground (arith, e, h.1, none_)) | inr busy ↦ busy ]),
)

Reads-Served : {p q : Process} → Reads p q → Served p → Served q
Reads-Served (Reads.registers on e off) (inl h) =
    inr (omega (arith, e, h.0), refl, inr (omega arith))
Reads-Served (Reads.registers on e off) (inr h) = absurd (omega (arith, e, h.0))
Reads-Served (Reads.prints on e some_) (inl h) = inl h
Reads-Served (Reads.prints on e some_) (inr h) = inr (h.0, h.1, inr (omega (arith, e)))
Reads-Served (Reads.returns on e none_) (inl h) = inl h
Reads-Served (Reads.returns on e none_) (inr h) = inr (h.0, h.1, inl none_)

Reads-balanced :
    {p q : Process} → Reads p q → p.sent ≡ p.messages + p.printed → q.sent ≡ q.messages + q.printed
Reads-balanced (Reads.registers on e off) h = h
Reads-balanced (Reads.prints on e some_) h = omega (arith, h, some_)
Reads-balanced (Reads.returns on e none_) h = h

arrive-balanced :
    (p : Process) (t : Bool)
    → p.sent ≡ p.messages + p.printed
    → (arrive t p).sent ≡ (arrive t p).messages + (arrive t p).printed
arrive-balanced p true h = omega (arith, h)
arrive-balanced p false h = omega (arith, h)

Moves-Inv : {p q : Process} → Moves p q → Inv p → Inv q
Moves-Inv {p} sends inv = record {
  served = sends-Served p (tells p) refl inv.served;
  balanced = arrive-balanced p (tells p) inv.balanced;
}
Moves-Inv (reads m) inv = record {
  served = Reads-Served m inv.served;
  balanced = Reads-balanced m inv.balanced;
}
Moves-Inv (start_fails e) inv = record { served = inv.served; balanced = inv.balanced }
Moves-Inv (receive_fails e) inv = record { served = inv.served; balanced = inv.balanced }

Runs-Inv : {p : Process} → Runs p → Inv p
Runs-Inv start = record { served = inr (refl, refl, inl refl); balanced = refl }
Runs-Inv (later r on m) = Moves-Inv m (Runs-Inv r)

-- A step of a thread, without an error.
abbrev pub Continues : Process → Type 0
Continues p = (q : Process) × Reads p q

busy_goes_on :
    (p : Process) (n k : ℕ)
    → p.exited ≡ false
    → p.messages ≡ n
    → p.reading ≡ k
    → 0 < k
    → Continues p
busy_goes_on p n zero on m r lt = absurd (omega (arith, lt))
busy_goes_on p zero (suc k) on m r lt = (_, Reads.returns on r m)
busy_goes_on p (suc n) (suc k) on m r lt = (_, Reads.prints on r m)

-- If the queue was empty when `ipc_posix_mq_read_by_thread` registered, then in every reachable state
-- of a process that has not been ended by an error, all messages sent since are printed, or one of its
-- threads can go on without an error, though several may run at once; and at most one of them is about
-- to register, so that no `mq_notify` finds the process registered already.
pub threads_read_messages :
    {p : Process}
    → Runs p
    → p.exited ≡ false
    → ((p.printed ≡ p.sent) ⊎ Continues p) × (p.starting ≤ 1)
threads_read_messages {p} r on = elim (Runs-Inv r).served [
  | inl h ↦ (inr (_, Reads.registers on h.0 h.1), omega (arith, h.0))
  | inr h ↦ (
    elim h.2 [
      | inl none_ ↦ inl (omega (arith, none_, (Runs-Inv r).balanced))
      | inr busy ↦ inr (busy_goes_on p p.messages p.reading on refl refl busy)
    ],
    omega (arith, h.0),
  )
]
