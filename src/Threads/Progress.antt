-- ===== src/Threads/Progress.antt =====
-- The number of steps of a run.
use linuxapi.Base.{ℕ, suc, ◌+◌, ◌-◌, ◌*◌, ◌≤◌, ◌<◌, ◌≡◌, refl, ap, Bool, true, false, arith}
use linuxapi.Threads.{
  Shared, Thread, Runs, Main, System, MainMoves, Step, thread1, thread2, main_thread, begin, Reach,
  start, later,
}
use linuxapi.Threads.Views.{InRange}
use linuxapi.Threads.Invariant.{Known, Inv, Reach-Inv}

-- The steps that are left to a thread at most.
abbrev pub steps_left : (from : ℕ) → Thread → ℕ
steps_left from Thread.absent = 502
steps_left from Thread.returned = 0
steps_left from (Thread.test i) = 5 * (from + 100 - i) + 1
steps_left from (Thread.lock i) = 5 * (from + 100 - suc i) + 5
steps_left from (Thread.load i) = 5 * (from + 100 - suc i) + 4
steps_left from (Thread.store i x) = 5 * (from + 100 - suc i) + 3
steps_left from (Thread.unlock i) = 5 * (from + 100 - suc i) + 2

abbrev main_left : Main → ℕ
main_left Main.create1 = 6
main_left Main.create2 = 5
main_left Main.join1 = 4
main_left Main.join2 = 3
main_left Main.destroy = 2
main_left Main.print = 1
main_left (Main.finished v) = 0

abbrev alive : Bool → ℕ
alive true = 0
alive false = 1

abbrev pub bound_of : System → ℕ
bound_of s = steps_left 0 s.t1 + steps_left 100 s.t2 + main_left s.main + alive s.mem.exited

Runs-fewer :
    {checking : Bool} {from : ℕ} {m m' : Shared} {t t' : Thread}
    → m.exited ≡ false
    → InRange from t
    → Runs checking from m t m' t'
    → steps_left from t' + alive m'.exited < steps_left from t + alive m.exited
Runs-fewer on h (Runs.goes_on e) = ground arith
Runs-fewer on h (Runs.ends e) = ground arith
Runs-fewer on h (Runs.acquire e) = ground arith
Runs-fewer on h Runs.loads = ground arith
Runs-fewer on h Runs.stores = ground arith
Runs-fewer on h Runs.unlocks = ground arith
Runs-fewer on h (Runs.lock_fails e) = ground arith
Runs-fewer on h (Runs.unlock_fails e) = ground arith

MainMoves-fewer :
    {checking : Bool} {s t : System} {mn : Main}
    → s.main ≡ mn
    → s.mem.exited ≡ false
    → Known s mn
    → MainMoves checking s mn t
    → bound_of t < bound_of s
MainMoves-fewer e on k MainMoves.creates1 = omega (arith, ap main_left e, ap (steps_left 0) k.0)
MainMoves-fewer e on k MainMoves.creates2 = omega (arith, ap main_left e, ap (steps_left 100) k.1)
MainMoves-fewer e on k (MainMoves.joins1 done) = omega (arith, ap main_left e)
MainMoves-fewer {checking = true} e on k (MainMoves.joins2 done) = omega (arith, ap main_left e)
MainMoves-fewer {checking = false} e on k (MainMoves.joins2 done) = omega (arith, ap main_left e)
MainMoves-fewer e on k MainMoves.destroys = omega (arith, ap main_left e)
MainMoves-fewer e on k MainMoves.prints = omega (arith, ap main_left e)
MainMoves-fewer e on k MainMoves.create1_fails = omega (arith, ap alive on)
MainMoves-fewer e on k MainMoves.create2_fails = omega (arith, ap alive on)

Step-fewer : {checking : Bool} {s t : System} → Inv s → Step checking s t → bound_of t < bound_of s
Step-fewer inv (thread1 on r) = omega (arith, Runs-fewer on inv.range1 r)
Step-fewer inv (thread2 on r) = omega (arith, Runs-fewer on inv.range2 r)
Step-fewer inv (main_thread on mv) = MainMoves-fewer refl on inv.known mv

-- A run of the whole program has at most 1011 steps, in whatever order the threads run.
pub run_length : {checking : Bool} {n : ℕ} {s : System} → Reach checking n s → n + bound_of s ≤ 1011
unfolding begin
run_length start = omega arith
run_length (later r st) = omega (arith, run_length r, Step-fewer (Reach-Inv r) st)
