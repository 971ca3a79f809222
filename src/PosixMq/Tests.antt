-- ===== src/PosixMq/Tests.antt =====
-- Runs: a message comes after the registration; one was there before the process started.
use linuxapi.Base.{true, false}
use linuxapi.PosixMq.{Receiver, Receives, System, receives, begin, armed, Reach, start, later}
use linuxapi.PosixMq.Threads
use linuxapi.PosixMq.Threads.{Process}
use linuxapi.PosixMq.Notified

-- The state `armed` is one of a run that starts with an empty queue.
armed-Reach : Reach (begin 0) armed
armed-Reach =
    later
      (later
        (later (later (later start (receives Receives.opens)) (receives Receives.asks))
          (receives Receives.blocks))
        (receives Receives.installs))
      (receives Receives.registers)

-- Two messages have come, and the signal is pending.
abbrev told : System
told = record {
  queue = record { messages = 2; sent = 2; printed = 0; registered = false; pending = true };
  receiver = Receiver.suspend;
}

-- One thread reads while another, for a later message, is about to register.
abbrev two_threads : Process
two_threads = record {
  messages = 1;
  sent = 2;
  printed = 1;
  registered = false;
  starting = 1;
  reading = 1;
  exited = false;
}
