-- ===== src/MutexPair/Tests.antt =====
-- A whole run: the three threads one after the other.
use linuxapi.Base.{ℕ, zero, suc, ◌+◌, ◌≡◌, ◌≢◌, refl, true, false, ltb, arith}
use mathlib.Core.Path.{subst}
use linuxapi.MutexPair.{
  Tdata, Routine, rounds, Adds, Caller, System, CallerMoves, thread1, thread2, thread3, main_thread,
  Reach, start, later,
}
use linuxapi.MutexPair.Sums.{sum_below}
use linuxapi.MutexPair.Printed.{sums_printed}

-- Several steps of one thread.
data Steps (d : Tdata) (r : Routine) : Tdata → Routine → Type 0 where
  here : Steps d r d r
  then : {d1 d2 : Tdata} {r1 r2 : Routine} → Steps d r d1 r1 → Adds d1 r1 d2 r2 → Steps d r d2 r2

abbrev held : ℕ → Tdata
held v = record { value = v; locked = true }

abbrev free : ℕ → Tdata
free v = record { value = v; locked = false }

one_round :
    (d : Tdata) (r : Routine) (v i : ℕ)
    → ltb i rounds ≡ true
    → Steps d r (held v) (Routine.test i)
    → Steps d r (held (v + i)) (Routine.test (suc i))
one_round d r v i more run = then (then (then run (Adds.goes_on more)) Adds.loads) Adds.stores

all_rounds :
    (d : Tdata) (r : Routine) (v k i : ℕ)
    → k + i ≡ rounds
    → Steps d r (held (v + sum_below i)) (Routine.test i)
    → Steps d r (held (v + sum_below rounds)) (Routine.test rounds)
all_rounds d r v zero i e run =
    let same : i ≡ rounds = omega (arith, e) in
    subst (λ j. Steps d r (held (v + sum_below j)) (Routine.test j)) same run
all_rounds d r v (suc k) i e run = all_rounds d r v k (suc i) (omega (arith, e)) (
    subst (λ x. Steps d r (held x) (Routine.test (suc i))) (omega arith)
      (one_round d r (v + sum_below i) i (ground (arith, e)) run))

whole_thread : (v : ℕ) → Steps (free v) Routine.lock (free (v + sum_below rounds)) Routine.returned
whole_thread v =
    then
      (then
        (all_rounds (free v) Routine.lock v rounds 0 (omega arith) (
          subst (λ x. Steps (free v) Routine.lock (held x) (Routine.test 0)) (omega arith)
            (then here (Adds.locks refl))))
        (Adds.ends refl))
      Adds.unlocks

run_thread1 :
    (s : System) {d : Tdata} {r : Routine}
    → s.caller ≢ Caller.died
    → Steps s.cell1.shared s.cell1.t d r
    → Reach s
    → Reach (record s { cell1 = record s.cell1 { shared = d; t = r } })
run_thread1 s on here reached = reached
run_thread1 s on (then run m) reached = later (run_thread1 s on run reached) (thread1 on m)

run_thread2 :
    (s : System) {d : Tdata} {r : Routine}
    → s.caller ≢ Caller.died
    → Steps s.cell2.shared s.cell2.t d r
    → Reach s
    → Reach (record s { cell2 = record s.cell2 { shared = d; t = r } })
run_thread2 s on here reached = reached
run_thread2 s on (then run m) reached = later (run_thread2 s on run reached) (thread2 on m)

run_thread3 :
    (s : System) {d : Tdata} {r : Routine}
    → s.caller ≢ Caller.died
    → Steps s.cell2.shared s.cell2.u d r
    → Reach s
    → Reach (record s { cell2 = record s.cell2 { shared = d; u = r } })
run_thread3 s on here reached = reached
run_thread3 s on (then run m) reached = later (run_thread3 s on run reached) (thread3 on m)

abbrev created : System
created = record {
  cell1 = record { shared = free 0; t = Routine.lock; u = Routine.absent };
  cell2 = record { shared = free 0; t = Routine.lock; u = Routine.lock };
  caller = Caller.join1;
}

created-Reach : Reach created
created-Reach =
    later
      (later (later start (main_thread refl CallerMoves.creates1))
        (main_thread refl CallerMoves.creates2))
      (main_thread refl CallerMoves.creates3)

abbrev total : ℕ
total = 0 + sum_below rounds

abbrev all_returned : System
all_returned = record {
  cell1 = record { shared = free total; t = Routine.returned; u = Routine.absent };
  cell2 = record {
    shared = free (total + sum_below rounds);
    t = Routine.returned;
    u = Routine.returned;
  };
  caller = Caller.join1;
}

all_returned-Reach : Reach all_returned
all_returned-Reach =
    run_thread3 _ (λ e. cc) (whole_thread total)
      (run_thread2 _ (λ e. cc) (whole_thread 0)
        (run_thread1 created (λ e. cc) (whole_thread 0) created-Reach))

abbrev over : System
over = record all_returned { caller = Caller.finished total (total + sum_below rounds) }

over-Reach : Reach over
over-Reach =
    later
      (later
        (later
          (later (later all_returned-Reach (main_thread refl (CallerMoves.joins1 refl)))
            (main_thread refl (CallerMoves.joins2 refl)))
          (main_thread refl (CallerMoves.joins3 refl)))
        (main_thread refl CallerMoves.prints1))
      (main_thread refl CallerMoves.prints2)

sums_printed_example : (total ≡ 49995000) × (total + sum_below rounds ≡ 99990000)
sums_printed_example = sums_printed total (total + sum_below rounds) over-Reach refl
