-- ===== src/Wait/Status.antt =====
-- What the status of a child says, and what the programs print of it.
use linuxapi.Base.{
  ℕ, suc, ◌*◌, ◌+◌, ◌%◌, ◌==◌, ◌<◌, ◌≡◌, refl, ap, ℤ, pos, Bool, true, false, if◌then◌else◌, List,
  [], ◌∷◌, ◌++◌, arith,
}
use linuxapi.Posix.{
  Errno, Reply, fail, val, ev, Trace, trace_of, Sys, ret, ◌>>◌, call, call_or, guard,
}
use linuxapi.Wait.{
  Line, normal_termination, killed_by, stopped_by, continued, wifexited, wifsignaled, wifstopped,
  wifcontinued, status_is, will_wait, test_is, Call, fork, print, print_if, waitpid, Options,
  w_ifexited, w_exitstatus, w_termsig, w_ifsignaled, w_ifstopped, w_ifcontinued, by_fork,
  say_status, tell_status, fork_exec_wait, process_waitpid, system_sample, fork_waiting,
}

-- What can become of a child, as wait(2) documents it, and the number that stands for it: the low
-- byte of the exit code in the second byte; the signal, with a bit for a core dump; or a stop.
pub data Change : Type 0 where
  ends : (code : ℕ) → Change
  killed : (signal : ℕ) (core : Bool) → Change
  stops : (signal : ℕ) → Change
  resumes : Change

abbrev pub status_of : Change → ℕ
status_of (ends code) = code % 256 * 256
status_of (killed signal core) = signal + (if core then 128 else 0)
status_of (stops signal) = signal * 256 + 127
status_of resumes = 65535

-- Signals have numbers from 1 to 64.
abbrev pub IsValid : Change → Type 0
IsValid (ends code) = Unit {0}
IsValid (killed signal core) = (0 < signal) × (signal < 65)
IsValid (stops signal) = (0 < signal) × (signal < 65)
IsValid resumes = Unit {0}

-- The lines printed, in order.
abbrev pub lines : Trace Call → List Line
lines [] = []
lines (ev (print l) r ∷ log) = lines log ++ (l ∷ [])
lines (ev _ r ∷ log) = lines log

-- The line of fork_exec_wait, and that of process_waitpid.
abbrev pub said : Change → Line
said (ends code) = normal_termination (code % 256)
said (killed signal core) = killed_by signal
said (stops signal) = stopped_by signal
said resumes = continued

abbrev pub told : Change → Line
told (ends code) = wifexited
told (killed signal core) = wifsignaled signal
told (stops signal) = wifstopped
told resumes = wifcontinued

-- What system_sample prints.
abbrev pub exit_line : Change → List Line
exit_line (ends code) = status_is (code % 256) ∷ []
exit_line c = []

abbrev Tests : Change → Bool → Bool → Bool → Bool → Type 0
Tests c a b d e =
    (w_ifexited (status_of c) ≡ a)
    × (w_ifsignaled (status_of c) ≡ b)
    × (w_ifstopped (status_of c) ≡ d)
    × (w_ifcontinued (status_of c) ≡ e)

-- Exactly one of the four macros holds.
ends-Tests : (code : ℕ) → Tests (ends code) true false false false
unfolding w_ifexited w_ifsignaled w_ifstopped w_ifcontinued
ends-Tests code = (ground arith, ground arith, ground arith, ground arith)

killed-Tests :
    (signal : ℕ) (core : Bool)
    → IsValid (killed signal core)
    → Tests (killed signal core) false true false false
unfolding w_ifexited w_ifsignaled w_ifstopped w_ifcontinued
killed-Tests signal true h = (ground arith, ground arith, ground arith, ground arith)
killed-Tests signal false h = (ground arith, ground arith, ground arith, ground arith)

stops-Tests : (signal : ℕ) → IsValid (stops signal) → Tests (stops signal) false false true false
unfolding w_ifexited w_ifsignaled w_ifstopped w_ifcontinued
stops-Tests signal h = (ground arith, ground arith, ground arith, ground arith)

resumes-Tests : Tests resumes false false false true
unfolding w_ifexited w_ifsignaled w_ifstopped w_ifcontinued
resumes-Tests = (refl, refl, refl, refl)

exit_code : (code : ℕ) → w_exitstatus (status_of (ends code)) ≡ code % 256
unfolding w_exitstatus
exit_code code = omega arith

term_signal :
    (signal : ℕ) (core : Bool)
    → IsValid (killed signal core)
    → w_termsig (status_of (killed signal core)) ≡ signal
unfolding w_termsig
term_signal signal true h = omega arith
term_signal signal false h = omega arith

stop_signal :
    (signal : ℕ) → IsValid (stops signal) → w_exitstatus (status_of (stops signal)) ≡ signal
unfolding w_exitstatus
stop_signal signal h = omega arith

say_status-said :
    (c : Change) (rs : List Reply) (log : Trace Call)
    → IsValid c
    → say_status (status_of c) rs log ≡ ret tt rs (ev (print (said c)) (val 0) ∷ log)
unfolding say_status
say_status-said (ends code) rs log h =
    let t = ends-Tests code in rw (t.0, t.1, t.2, t.3, exit_code code) refl
say_status-said (killed signal core) rs log h =
    let t = killed-Tests signal core h in rw (t.0, t.1, t.2, t.3, term_signal signal core h) refl
say_status-said (stops signal) rs log h =
    let t = stops-Tests signal h in rw (t.0, t.1, t.2, t.3, stop_signal signal h) refl
say_status-said resumes rs log h = let t = resumes-Tests in rw (t.0, t.1, t.2, t.3) refl

tell_status-told :
    (c : Change) (rs : List Reply) (log : Trace Call)
    → IsValid c
    → tell_status (status_of c) rs log
      ≡ ret tt rs (ev (print (told c)) (val 0) ∷ ev (print (status_is (status_of c))) (val 0) ∷ log)
unfolding tell_status
tell_status-told (ends code) rs log h = let t = ends-Tests code in rw (t.0, t.1, t.2, t.3) refl
tell_status-told (killed signal core) rs log h =
    let t = killed-Tests signal core h in rw (t.0, t.1, t.2, t.3, term_signal signal core h) refl
tell_status-told (stops signal) rs log h =
    let t = stops-Tests signal h in rw (t.0, t.1, t.2, t.3) refl
tell_status-told resumes rs log h = let t = resumes-Tests in rw (t.0, t.1, t.2, t.3) refl

system_sample-exit_line :
    (c : Change)
    → IsValid c
    → lines (trace_of (system_sample (val (status_of c) ∷ []) [])) ≡ exit_line c
unfolding system_sample call call_or guard
system_sample-exit_line (ends code) h = rw ((ends-Tests code).0, exit_code code) refl
system_sample-exit_line (killed signal core) h = rw ((killed-Tests signal core h).0) refl
system_sample-exit_line (stops signal) h = rw ((stops-Tests signal h).0) refl
system_sample-exit_line resumes h = rw (resumes-Tests.0) refl

nonzero : (n : ℕ) → (suc n == 0) ≡ false
nonzero n = ground arith

-- The answers to the five calls of `fork` in a parent, and to its `waitpid`.
abbrev pub five_children : (a b c d e : ℕ) → Reply → List Reply
five_children a b c d e r =
    val (suc a) ∷ val (suc b) ∷ val (suc c) ∷ val (suc d) ∷ val (suc e) ∷ r ∷ []

-- The children waited for with `waitpid`, and the statuses printed as numbers, the newest first.
abbrev pub waited : Trace Call → List (ℤ × Options)
waited [] = []
waited (ev (waitpid pid options) r ∷ log) = (pid, options) ∷ waited log
waited (ev _ r ∷ log) = waited log

abbrev pub statuses : Trace Call → List ℕ
statuses [] = []
statuses (ev (print (status_is n)) r ∷ log) = n ∷ statuses log
statuses (ev _ r ∷ log) = statuses log

-- Whatever the status is, `tell_status` prints it once as a number.
tell_status-statuses :
    (n : ℕ) (rs : List Reply) (log : Trace Call)
    → statuses (trace_of (tell_status n rs log)) ≡ n ∷ statuses log
unfolding tell_status
tell_status-statuses n rs log =
    first_if (w_ifexited n) (w_ifsignaled n) (w_ifstopped n) (w_ifcontinued n)
      (ev (print (status_is n)) (val 0) ∷ log)
  where
    silent : Sys Call (Unit {0}) → Trace Call → Type 0
    silent m l = statuses (trace_of (m rs l)) ≡ statuses l

    last_if : (e : Bool) (l : Trace Call) → silent (print_if e wifcontinued) l
    last_if true l = refl
    last_if false l = refl

    third_if :
        (d e : Bool) (l : Trace Call) → silent (print_if d wifstopped >> print_if e wifcontinued) l
    third_if true e l = last_if e (ev (print wifstopped) (val 0) ∷ l)
    third_if false e l = last_if e l

    second_if :
        (b d e : Bool) (l : Trace Call)
        → silent
            (print_if b (wifsignaled (w_termsig n))
              >> (print_if d wifstopped >> print_if e wifcontinued))
            l
    second_if true d e l = third_if d e (ev (print (wifsignaled (w_termsig n))) (val 0) ∷ l)
    second_if false d e l = third_if d e l

    first_if :
        (a b d e : Bool) (l : Trace Call)
        → silent
            (print_if a wifexited
              >> (print_if b (wifsignaled (w_termsig n))
                  >> (print_if d wifstopped >> print_if e wifcontinued)))
            l
    first_if true b d e l = second_if b d e (ev (print wifexited) (val 0) ∷ l)
    first_if false b d e l = second_if b d e l

-- The calls of process_waitpid, with its five children, before it tells the status.
abbrev awaited : (a b c d e : ℕ) → Reply → Trace Call
awaited a b c d e r =
    ev (waitpid (pos (suc a)) Options.wuntraced) r
    ∷ ev (print (test_is (pos (suc a)))) (val 0)
    ∷ ev fork (val (suc e))
    ∷ ev fork (val (suc d))
    ∷ ev fork (val (suc c))
    ∷ ev fork (val (suc b))
    ∷ ev fork (val (suc a))
    ∷ ev (print will_wait) (val 0)
    ∷ []

-- A parent whose calls of `fork` succeed, and whose child has changed as `change` says. If `waitpid`
-- answers with a process id, `fork_exec_wait` has waited for its child with WNOHANG and prints one line:
-- what has happened, with the low byte of the exit code or the signal. `process_waitpid` waits for the
-- first of its five children, with WUNTRACED, and for nothing else; if `waitpid` answers with a process
-- id, it prints the id of that child, the status as a number, and one line that tells the kinds of change
-- apart; if `waitpid` fails, the number that it prints is what the variable held before.
-- `system_sample` prints the low byte of the exit code where the child has ended by itself, and nothing
-- otherwise.
pub changes_reported :
    (change : Change) (child pid a b c d e : ℕ) (stale : ℤ) (unset : ℕ) (error : Errno)
    → IsValid change
    → (lines
          (trace_of (fork_exec_wait (status_of change) (val (suc child) ∷ val (suc pid) ∷ []) []))
        ≡ said change ∷ [])
      × (waited
            (trace_of (fork_exec_wait (status_of change) (val (suc child) ∷ val (suc pid) ∷ []) []))
          ≡ (pos (suc child), Options.wnohang) ∷ [])
      × (lines (
            trace_of (
              process_waitpid stale unset
                (status_of change)
                (five_children a b c d e (val (suc pid)))
                []))
          ≡ will_wait ∷ test_is (pos (suc a)) ∷ status_is (status_of change) ∷ told change ∷ [])
      × (waited (
            trace_of (
              process_waitpid stale unset
                (status_of change)
                (five_children a b c d e (val (suc pid)))
                []))
          ≡ (pos (suc a), Options.wuntraced) ∷ [])
      × (statuses (
            trace_of (
              process_waitpid stale unset
                (status_of change)
                (five_children a b c d e (fail error))
                []))
          ≡ unset ∷ [])
      × (lines (trace_of (system_sample (val (status_of change) ∷ []) [])) ≡ exit_line change)
unfolding fork_exec_wait process_waitpid fork_waiting by_fork call call_or guard
changes_reported change child pid a b c d e stale unset error h = (
  rw (nonzero pid, say_status-said change _ _ h) refl,
  rw (nonzero pid, say_status-said change _ _ h) refl,
  ap (λ o. lines (trace_of {A = Unit {0}} o))
      (tell_status-told change [] (awaited a b c d e (val (suc pid))) h),
  ap (λ o. waited (trace_of {A = Unit {0}} o))
      (tell_status-told change [] (awaited a b c d e (val (suc pid))) h),
  tell_status-statuses unset [] (awaited a b c d e (fail error)),
  system_sample-exit_line change h,
)
