-- ===== src/SystemV/Sem/Turn.antt =====
-- The turns that a process takes and gives back.
use linuxapi.Base.{ℕ, suc, ◌≤◌, pos, negsuc, ◌≡◌, [], ◌∷◌, if◌then◌else◌}
use linuxapi.Posix.{Reply, failed, ev, Trace, fatal, Outcome, ret, stop}
use linuxapi.SystemV.{Call, semop}

abbrev pub added : Reply → ℕ → ℕ
added r n = if failed r then n else suc n

-- The turns that the process has taken and given back with success.
abbrev pub taken : Trace Call → ℕ
taken [] = 0
taken (ev (semop s (negsuc n)) r ∷ log) = added r (taken log)
taken (ev _ r ∷ log) = taken log

abbrev pub given : Trace Call → ℕ
given [] = 0
given (ev (semop s (pos (suc n))) r ∷ log) = added r (given log)
given (ev _ r ∷ log) = given log

-- A process that returns has given its turn back; one that ends otherwise may keep it.
abbrev pub TurnPost : Outcome Call (Unit {0}) → Type 0
TurnPost (ret u rs log) = (taken log ≡ 1) × (given log ≡ 1)
TurnPost (stop (fatal m) log) = (taken log ≡ 0) × (given log ≡ 0)
TurnPost (stop e log) = (taken log ≤ 1) × (given log ≡ 0)

abbrev Idle : Trace Call → Type 0
Idle log = (taken log ≡ 0) × (given log ≡ 0)

-- Waiting for the initialisation takes no turn.
abbrev Waited : Outcome Call ℕ → Type 0
Waited (ret t rs log) = Idle log
Waited (stop (fatal m) log) = ⊥
Waited (stop e log) = Idle log
