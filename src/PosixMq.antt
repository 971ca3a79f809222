-- ===== src/PosixMq.antt =====
-- ipc_posix_mq_read_by_signal of LinuxAPI2/ipc_posix_mq.c: a process is told by a signal that a
-- message has come to an empty queue, registers again, and reads until the queue is empty. Any
-- process may send at any time. The queue and `mq_notify` do as mq_notify(3) documents: the signal
-- is sent when a message comes to an empty queue and the process is registered, and this ends the
-- registration.
pub mod Notified
pub mod Threads
pub mod Listeners
mod Tests
use linuxapi.Base.{ℕ, zero, suc, ◌+◌, ◌==◌, Bool, true, false, ◌≡◌, if◌then◌else◌, ◌&&◌, ◌||◌}

-- How many messages are in the queue, have been sent since the start, and have been printed; whether
-- the process is registered; and whether the signal is pending.
pub record Queue : Type 0 where
  pub messages : ℕ
  pub sent : ℕ
  pub printed : ℕ
  pub registered : Bool
  pub pending : Bool

-- Where the process stands: before `mq_open`, `mq_getattr`, `sigprocmask`, `sigaction`, the first
-- `mq_notify`; in `sigsuspend`; before the second `mq_notify`; before `mq_receive`; or ended by
-- `errExit`.
pub data Receiver : Type 0 where
  open_queue attributes block install register suspend register_again receive died : Receiver

abbrev pub send : Queue → Queue
send q = record {
  messages = suc q.messages;
  sent = suc q.sent;
  printed = q.printed;
  registered = q.registered && (if q.messages == 0 then false else true);
  pending = q.pending || (q.registered && (q.messages == 0));
}

pub data Receives (q : Queue) : Receiver → Queue → Receiver → Type 0 where
  opens : Receives q Receiver.open_queue q Receiver.attributes
  asks : Receives q Receiver.attributes q Receiver.block
  blocks : Receives q Receiver.block q Receiver.install
  installs : Receives q Receiver.install q Receiver.register
  registers : Receives q Receiver.register (record q { registered = true }) Receiver.suspend
  -- The handler runs, and `sigsuspend` returns.
  wakes :
      q.pending ≡ true
      → Receives q Receiver.suspend (record q { pending = false }) Receiver.register_again
  registers_again :
      Receives q Receiver.register_again (record q { registered = true }) Receiver.receive
  prints :
      {n : ℕ}
      → q.messages ≡ suc n
      → Receives q Receiver.receive
          (record q { messages = n; printed = suc q.printed })
          Receiver.receive
  -- `EAGAIN`
  empty : q.messages ≡ 0 → Receives q Receiver.receive q Receiver.suspend

-- The calls whose failure ends the process.
pub data Fails : Receiver → Type 0 where
  open_fails : Fails Receiver.open_queue
  attributes_fails : Fails Receiver.attributes
  block_fails : Fails Receiver.block
  install_fails : Fails Receiver.install
  register_fails : Fails Receiver.register
  register_again_fails : Fails Receiver.register_again
  receive_fails : Fails Receiver.receive

pub record System : Type 0 where
  pub queue : Queue
  pub receiver : Receiver

pub data Step (s : System) : System → Type 0 where
  sends : Step s (record s { queue = send s.queue })
  receives :
      {q : Queue} {r : Receiver}
      → Receives s.queue s.receiver q r
      → Step s (record { queue = q; receiver = r })
  dies : Fails s.receiver → Step s (record s { receiver = Receiver.died })

-- The process starts, with `before` messages in the queue.
abbrev pub begin : (before : ℕ) → System
begin before = record {
  queue = record { messages = before; sent = 0; printed = 0; registered = false; pending = false };
  receiver = Receiver.open_queue;
}

-- It has registered while the queue was empty.
abbrev pub armed : System
armed = record {
  queue = record { messages = 0; sent = 0; printed = 0; registered = true; pending = false };
  receiver = Receiver.suspend;
}

pub data Reach (from : System) : System → Type 0 where
  start : Reach from from
  later : {s t : System} → Reach from s → Step s t → Reach from t
