-- ===== src/Daemon/Detached.antt =====
-- What a process has gone through that is a daemon.
use linuxapi.Base.{
  ℕ, zero, suc, ℤ, pos, minus_one, ◌==ℤ◌, ◌≡◌, ◌⊎◌, refl, ap, String, inl, inr, false, Bool-cases,
  List, [], ◌∷◌, if◌then◌else◌,
}
use linuxapi.Posix.{
  Reply, fail, val, chunk, chunk_from, result, count, failed, ev, Trace, Stop, blocked, exited,
  Outcome, ret, stop, Sys, pure,
}
use linuxapi.Posix.Rules.{bind_rule, call_rule}
use linuxapi.Daemon.{
  Call, fork, setsid, umask, chdir, close_from, close_files, reopen_std_fds, unless_flag,
  grandchild, go_on_as_child, new_session, become_daemon, has_flag, bd_no_umask0, bd_no_chdir,
  bd_no_close_files, bd_no_reopen_std_fds, bd_max_close,
}

-- What a process has become, the newest first: the child of a `fork`, the leader of a session.
pub data Stage : Type 0 where
  child leader : Stage

abbrev pub stages : Trace Call → List Stage
stages [] = []
stages (ev fork (val zero) ∷ log) = child ∷ stages log
stages (ev setsid r ∷ log) = if failed r then stages log else leader ∷ stages log
stages (ev _ r ∷ log) = stages log

-- The child of a leader of a session of its own, which was a child itself.
abbrev pub Detached : Trace Call → Type 0
Detached log = stages log ≡ child ∷ leader ∷ child ∷ []

abbrev pub DaemonPost : Outcome Call ℤ → Type 0
DaemonPost (ret r rs log) = (r ≡ minus_one) ⊎ ((r ≡ pos 0) × Detached log)
DaemonPost (stop (exited n) log) =
    (n ≡ 0) × ((stages log ≡ []) ⊎ (stages log ≡ leader ∷ child ∷ []))
DaemonPost (stop (blocked c) log) = Unit
DaemonPost (stop e log) = ⊥

abbrev Settled : Outcome Call (Unit {0}) → Type 0
Settled (ret a rs log) = Detached log
Settled (stop (blocked c) log) = Unit
Settled (stop e log) = ⊥

settled : (e : Stop Call) (log : Trace Call) → Settled (stop e log) → DaemonPost (stop e log)
settled (blocked c) log h = tt
settled (exited n) log h = absurd h
settled e log h = h

close_from-Settled :
    (fd n : ℕ) (rs : List Reply) (log : Trace Call)
    → Detached log
    → Settled (close_from fd n rs log)
unfolding close_from
close_from-Settled fd zero rs log h = h
close_from-Settled fd (suc n) rs log h =
    call_rule Settled _ _ rs log tt (λ r rest lt. close_from-Settled (suc fd) n rest _ h)

reopen_lem :
    (rs : List Reply) (log : Trace Call) → Detached log → DaemonPost (reopen_std_fds rs log)
unfolding reopen_std_fds
reopen_lem rs log h = call_rule DaemonPost _ _ rs log tt (λ c rs1 lt1.
    call_rule DaemonPost _ _ rs1 _ tt (λ fd rs2 lt2. elim (Bool-cases (result fd ==ℤ pos 0)) [
      | inr bad ↦ rw bad (inl refl)
      | inl null ↦ rw null (
          call_rule DaemonPost _ _ rs2 _ tt (λ out rs3 lt3.
            elim (Bool-cases (result out ==ℤ pos 1)) [
              | inr bad ↦ rw bad (inl refl)
              | inl one ↦ rw one (
                  call_rule DaemonPost _ _ rs3 _ tt (λ err rs4 lt4.
                    elim (Bool-cases (result err ==ℤ pos 2)) [
                      | inr bad ↦ rw bad (inl refl)
                      | inl two ↦ rw two (inr (refl, h))
                    ]))
            ]))
    ]))

unless_flag-Settled :
    (flags bit : ℕ) (c : Call) (rs : List Reply) (log : Trace Call)
    → ((r : Reply) → Detached (ev c r ∷ log))
    → Detached log
    → Settled (unless_flag flags bit c rs log)
unfolding unless_flag
unless_flag-Settled flags bit c rs log after h = elim (Bool-cases (has_flag flags bit)) [
  | inl set ↦ rw set h
  | inr unset ↦ rw unset (call_rule Settled _ _ rs log tt (λ r rest lt. after r))
]

close_files-Settled :
    (flags : ℕ) (rs : List Reply) (log : Trace Call)
    → Detached log
    → Settled ((if has_flag flags bd_no_close_files then pure tt else close_files) rs log)
unfolding close_files
close_files-Settled flags rs log h = elim (Bool-cases (has_flag flags bd_no_close_files)) [
  | inl set ↦ rw set h
  | inr unset ↦ rw unset (
      call_rule Settled _ _ rs log tt
        (λ r rest lt. close_from-Settled 0 (if failed r then bd_max_close else count r) rest _ h))
]

grandchild_lem :
    (flags : ℕ) (rs : List Reply) (log : Trace Call)
    → Detached log
    → DaemonPost (grandchild flags rs log)
unfolding grandchild
grandchild_lem flags rs log h =
    bind_rule Settled DaemonPost _ _
      (unless_flag-Settled flags bd_no_umask0 (umask 0) rs _ (λ r. h) h)
      (λ u rs1 l1 h1.
        bind_rule Settled DaemonPost _ _
          (unless_flag-Settled flags bd_no_chdir (chdir "/") rs1 l1 (λ r. h1) h1)
          (λ v rs2 l2 h2.
            bind_rule Settled DaemonPost _ _ (close_files-Settled flags rs2 l2 h2)
              (λ w rs3 l3 h3. elim (Bool-cases (has_flag flags bd_no_reopen_std_fds)) [
                | inl set ↦ rw set (inr (refl, h3))
                | inr unset ↦ rw unset (reopen_lem rs3 l3 h3)
              ])
              settled)
          settled)
      settled

go_on_lem :
    (pid : Reply) (who : String) (next : Sys Call ℤ) (rs : List Reply) (log : Trace Call)
    → ((stages log ≡ []) ⊎ (stages log ≡ leader ∷ child ∷ []))
    → DaemonPost (next rs (ev fork (val 0) ∷ log))
    → DaemonPost (go_on_as_child pid who next rs (ev fork pid ∷ log))
unfolding go_on_as_child
go_on_lem (fail e) who next rs log h ih = inl refl
go_on_lem (val zero) who next rs log h ih = ih
go_on_lem (val (suc n)) who next rs log h ih = (refl, h)
go_on_lem (chunk d) who next rs log h ih = (refl, h)
go_on_lem (chunk_from p d) who next rs log h ih = (refl, h)

new_session_lem :
    (flags : ℕ) (rs : List Reply) (log : Trace Call)
    → stages log ≡ child ∷ []
    → DaemonPost (new_session flags rs log)
unfolding new_session
new_session_lem flags rs log h = call_rule DaemonPost _ _ rs _ tt (λ s rs1 lt1.
    elim (Bool-cases (failed s)) [
      | inl bad ↦ rw bad (inl refl)
      | inr good ↦ rw good (
          call_rule DaemonPost _ _ rs1 _ tt (λ pid rs2 lt2.
            go_on_lem pid "child" (grandchild flags) rs2 _ (inr (led s good))
              (grandchild_lem flags rs2 _ (ap (λ l. child ∷ l) (led s good)))))
    ])
  where
    led :
        (s : Reply)
        → failed s ≡ false
        → (if failed s then stages log else leader ∷ stages log) ≡ leader ∷ child ∷ []
    led s good = rw good (ap (λ l. leader ∷ l) h)

-- `become_daemon`, whatever its flags and the answers of the kernel: if it returns 0, the process
-- is the child of the leader of a new session, so it leads no session and cannot get a terminal
-- back. If it returns anything else, it returns -1. A process that exits in it exits with status 0,
-- and is the original process or the leader of the session.
pub daemon_detached : (flags : ℕ) (rs : List Reply) → DaemonPost (become_daemon flags rs [])
unfolding become_daemon
daemon_detached flags rs = call_rule DaemonPost _ _ rs [] tt (λ pid rs1 lt1.
    go_on_lem pid "[parent]" (new_session flags) rs1 [] (inl refl)
      (new_session_lem flags rs1 _ refl))
