-- ===== src/Daemon/Log/Periods.antt =====
-- How often the daemon writes to its log.
use linuxapi.Base.{
  ℕ, zero, suc, ◌+◌, ◌≤◌, ◌<◌, ℤ, pos, minus_one, ◌==ℤ◌, ◌≡◌, false, List, [], ◌∷◌, length,
  if◌then◌else◌, arith,
}
use linuxapi.Posix.{Reply, result, ev, Trace, starved, Outcome, ret, stop}
use linuxapi.Posix.Loop.{Next, Round}
use linuxapi.Daemon.{Call, open_file, write, sleep}
use linuxapi.Daemon.Log.{Variables, digits}

-- The periods that have been slept through, and the messages written.
abbrev pub periods : Trace Call → ℕ
periods [] = 0
periods (ev (sleep n) r ∷ log) = if result r ==ℤ pos 0 then suc (periods log) else periods log
periods (ev _ r ∷ log) = periods log

-- The descriptor of the log, which the last `open` has given
abbrev pub log_fd : Trace Call → ℤ
log_fd [] = minus_one
log_fd (ev (open_file name) r ∷ log) = result r
log_fd (ev _ r ∷ log) = log_fd log

-- What has been handed to `write` for the log, whatever the answer, the newest first
abbrev pub messages : Trace Call → List (List ℕ)
messages [] = []
messages (ev (write fd d) r ∷ log) = if fd ==ℤ log_fd log then d ∷ messages log else messages log
messages (ev _ r ∷ log) = messages log

-- The first `n` bytes of a text, and 0 behind its end
abbrev pub first_bytes : ℕ → List ℕ → List ℕ
first_bytes zero s = []
first_bytes (suc n) [] = 0 ∷ first_bytes n []
first_bytes (suc n) (c ∷ s) = c ∷ first_bytes n s

-- The messages "count = 1" to "count = n", the newest first, each with the ten bytes that are written
abbrev pub numbered : ℕ → List (List ℕ)
numbered zero = []
numbered (suc n) =
    first_bytes 10 (99 ∷ 111 ∷ 117 ∷ 110 ∷ 116 ∷ 32 ∷ 61 ∷ 32 ∷ digits (suc n)) ∷ numbered n

-- All messages but perhaps that of the last period
abbrev pub Close : Trace Call → Type 0
Close log = (c : ℕ) × (messages log ≡ numbered c) × (c ≤ periods log) × (periods log ≤ suc c)

abbrev pub PeriodsPost : Outcome Call (Unit {0}) → Type 0
PeriodsPost (ret u rs log) = ⊥
PeriodsPost (stop starved log) = ⊥
PeriodsPost (stop e log) = Close log

-- `c` messages have been written, and `due` more of them are to be.
abbrev Owing : ℕ → ℕ → Trace Call → Type 0
Owing due c log = (messages log ≡ numbered c) × (periods log ≡ due + c) × (due ≤ 1)

abbrev Opened : ℕ → ℕ → ℕ → Outcome Call ℤ → Type 0
Opened due c n (ret fd rs log) =
    ((fd ==ℤ minus_one) ≡ false) × (fd ≡ log_fd log) × Owing due c log × (length rs < n)
Opened due c n (stop starved log) = ⊥
Opened due c n (stop e log) = Close log

close : (due c : ℕ) (log : Trace Call) → Owing due c log → Close log
close due c log h = (c, h.0, omega (arith, h.1), omega (arith, h.1, h.2))

abbrev Kept : ℤ → ℕ → ℕ → ℕ → Outcome Call ℤ → Type 0
Kept fd due c n (ret z rs log) = (fd ≡ log_fd log) × Owing due c log × (length rs < n)
Kept fd due c n (stop starved log) = ⊥
Kept fd due c n (stop e log) = Close log

abbrev Inv : Variables → List Reply → Trace Call → Type 0
Inv v rs log = ((v.fd ==ℤ minus_one) ≡ false) × (v.fd ≡ log_fd log) × Owing 0 v.counted log

abbrev Ended : ℕ → Outcome Call (Next Variables (Unit {0})) → Type 0
Ended n = Round Inv PeriodsPost n
