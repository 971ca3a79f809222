-- ===== src/Wait/Children.antt =====
-- The five children of process_wait, and what the parent says of them.
use linuxapi.Base.{
  ℕ, zero, suc, ◌+◌, ◌≤◌, ◌≡◌, ◌⊎◌, refl, inl, inr, ap, ℤ, true, Bool-cases, List, [], ◌∷◌,
  if◌then◌else◌, arith, length,
}
use linuxapi.Posix.{
  Reply, fail, Errno, eintr, eexist, enoent, eagain, other, Sys, call, ◌>>=◌, val, chunk,
  chunk_from, echild, result, ev, Trace, Stop, blocked, err_exit, exited, Outcome, ret, stop,
}
use linuxapi.Posix.Loop.{Round, repeat_rule}
use linuxapi.Posix.Rules.{bind_rule, call_rule}
use linuxapi.Wait.{
  Call, fork, wait, getpid, sleep, print, child_pid, child_exited, all_exited, by_fork, children,
  child_of, fork_children, none_left, wait_round, process_wait,
}

-- The calls of `fork`; what `wait` has given but for the last word, that no child is left; and the
-- process ids printed as those of ended children, newest first.
abbrev pub forks : Trace Call → ℕ
forks [] = 0
forks (ev fork r ∷ log) = suc (forks log)
forks (ev _ r ∷ log) = forks log

abbrev pub waited : Trace Call → List ℤ
waited [] = []
waited (ev wait r ∷ log) = if none_left r then waited log else result r ∷ waited log
waited (ev _ r ∷ log) = waited log

abbrev pub announced : Trace Call → List ℤ
announced [] = []
announced (ev (print (child_exited p)) r ∷ log) = p ∷ announced log
announced (ev _ r ∷ log) = announced log

-- The parent has heard from `wait` that no child is left, and has said so.
abbrev pub ParentEnd : Trace Call → Type 0
ParentEnd (ev (print all_exited) a ∷ ev wait (fail echild) ∷ log) =
    (forks log ≡ children) × (announced log ≡ waited log)
ParentEnd log = ⊥

-- A child has printed its process id and slept as many seconds as its place among the five.
abbrev pub ChildEnd : Trace Call → Type 0
ChildEnd (ev (sleep i) a ∷ ev (print (child_pid p)) b ∷ ev getpid q ∷ ev fork (val zero) ∷ log) =
    (i ≡ suc (forks log)) × (i ≤ children) × (p ≡ result q)
ChildEnd log = ⊥

abbrev pub ForkFailed : Trace Call → Type 0
ForkFailed (ev fork (fail e) ∷ log) = Unit {0}
ForkFailed log = ⊥

abbrev pub WaitPost : Outcome Call (Unit {0}) → Type 0
WaitPost (ret u rs log) = ⊥
WaitPost (stop (exited n) log) = (n ≡ 0) × (ParentEnd log ⊎ ChildEnd log)
WaitPost (stop (err_exit name) log) = ForkFailed log
WaitPost (stop (blocked c) log) = announced log ≡ waited log
WaitPost (stop e log) = ⊥

abbrev Forked : Outcome Call (Unit {0}) → Type 0
Forked (ret u rs log) = (forks log ≡ children) × (announced log ≡ waited log)
Forked (stop e log) = WaitPost (stop e log)

child_of_lem :
    (i : ℕ) (rs : List Reply) (log : Trace Call)
    → i ≡ suc (forks log)
    → i ≤ children
    → announced log ≡ waited log
    → Forked (child_of i rs (ev fork (val zero) ∷ log))
unfolding child_of
child_of_lem i rs log at le same =
    call_rule Forked _ _ rs _ same
      (λ q rs1 lt1. call_rule Forked _ _ rs1 _ same (λ a rs2 lt2. (refl, inr (at, le, refl))))

-- A call of `fork` and the switch behind it.
fork_rule :
    {A : Type 0} (Q : Outcome Call A → Type 0) (failing child parent : Sys Call A) (rs : List Reply)
    (log : Trace Call)
    → Q (stop (blocked fork) log)
    → ((e : Errno) (rs' : List Reply) → Q (failing rs' (ev fork (fail e) ∷ log)))
    → ((rs' : List Reply) → Q (child rs' (ev fork (val zero) ∷ log)))
    → ((r : Reply) (rs' : List Reply) → Q (parent rs' (ev fork r ∷ log)))
    → Q ((call fork >>= λ r. by_fork r failing child parent) rs log)
unfolding call by_fork
fork_rule Q failing child parent [] log pending bad zero_ more = pending
fork_rule Q failing child parent (fail e ∷ rs) log pending bad zero_ more = bad e rs
fork_rule Q failing child parent (val zero ∷ rs) log pending bad zero_ more = zero_ rs
fork_rule Q failing child parent (val (suc n) ∷ rs) log pending bad zero_ more =
    more (val (suc n)) rs
fork_rule Q failing child parent (chunk d ∷ rs) log pending bad zero_ more = more (chunk d) rs
fork_rule Q failing child parent (chunk_from p d ∷ rs) log pending bad zero_ more =
    more (chunk_from p d) rs

fork_children_lem :
    (left i : ℕ) (rs : List Reply) (log : Trace Call)
    → left + i ≡ suc children
    → i ≡ suc (forks log)
    → announced log ≡ waited log
    → Forked (fork_children left i rs log)
unfolding fork_children
fork_children_lem zero i rs log sum at same = (omega (arith, sum, at), same)
fork_children_lem (suc left) i rs log sum at same =
    fork_rule Forked _ _ _ rs log same (λ e rs'. tt)
      (λ rs'. child_of_lem i rs' log at (omega (arith, sum)) same)
      (λ r rs'.
        fork_children_lem left (suc i) rs' (ev fork r ∷ log) (omega (arith, sum)) (ap suc at) same)

abbrev Inv : Unit {0} → List Reply → Trace Call → Type 0
Inv u rs log = (forks log ≡ children) × (announced log ≡ waited log)

none_left_lem : (r : Reply) → none_left r ≡ true → r ≡ fail echild
unfolding none_left
none_left_lem (fail echild) h = refl
none_left_lem (fail eintr) h = cc
none_left_lem (fail eexist) h = cc
none_left_lem (fail enoent) h = cc
none_left_lem (fail eagain) h = cc
none_left_lem (fail (other n)) h = cc
none_left_lem (val n) h = cc
none_left_lem (chunk d) h = cc
none_left_lem (chunk_from p d) h = cc

wait_round_lem :
    (u : Unit {0}) (rs : List Reply) (log : Trace Call)
    → Inv u rs log
    → Round Inv WaitPost (length rs) (wait_round u rs log)
unfolding wait_round
wait_round_lem u rs log h = call_rule (Round Inv WaitPost (length rs)) _ _ rs log h.1 (λ r rest lt.
    elim (Bool-cases (none_left r)) [
      | inl over ↦ rw (over, none_left_lem r over) (refl, inl h)
      | inr more ↦ rw more ((h.0, rw more (ap (λ l. result r ∷ l) h.1)), lt)
    ])

forked : (e : Stop Call) (log : Trace Call) → Forked (stop e log) → WaitPost (stop e log)
forked e log h = h

-- `process_wait`, whatever the kernel answers. The parent exits only after `wait` has said that no
-- child is left; it has then forked five times, and it has printed what every `wait` before gave, in
-- order. A child exits with status 0 after it has printed its own process id and slept as many
-- seconds as its place among the five. `errExit` ends it only where `fork` fails; while it waits in a
-- call, all that `wait` has given is printed.
pub children_awaited : (rs : List Reply) → WaitPost (process_wait rs [])
unfolding process_wait
children_awaited rs =
    bind_rule Forked WaitPost _ _ (fork_children_lem children 1 rs [] refl refl refl)
      (λ u rs' log h. repeat_rule Inv WaitPost wait_round wait_round_lem tt rs' log h) forked
