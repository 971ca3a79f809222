-- ===== src/Threads/Tests.antt =====
-- Runs of the two threads, and the theorems at their states.
use linuxapi.Base.{zero, suc, arith, ◌+◌, ℕ, ◌≤◌, ltb, ◌≡◌, ◌⊎◌, refl, Bool, true, false}
use mathlib.Core.Path.{subst}
use linuxapi.Threads.{
  Thread, Runs, Main, System, MainMoves, thread1, thread2, main_thread, begin, Reach, start, later,
}
use linuxapi.Threads.Views.{sum_below}
use linuxapi.Threads.Result.{printed_sum}
use linuxapi.Threads.Progress.{bound_of}
use linuxapi.Threads.Deadlock.{Continues, always_ends}

abbrev at : ℕ → Bool → Thread → Thread → Main → System
at gsum locked t1 t2 main = record {
  mem = record { gsum = gsum; locked = locked; exited = false };
  t1 = t1;
  t2 = t2;
  main = main;
}

-- Both threads exist; the second one has loaded `gsum` and the first one waits for the mutex.
abbrev both : System
both = at 0 true (Thread.lock 0) (Thread.store 100 0) Main.join1

both-Reach : Reach true 6 both
unfolding begin
both-Reach =
    later
      (later
        (later
          (later
            (later (later start (main_thread refl MainMoves.creates1))
              (main_thread refl MainMoves.creates2))
            (thread1 refl (Runs.goes_on refl)))
          (thread2 refl (Runs.goes_on refl)))
        (thread2 refl (Runs.acquire refl)))
      (thread2 refl Runs.loads)

always_ends_example :
    (((v : ℕ) × (both.main ≡ Main.finished v)) ⊎ Continues true both) × (6 + bound_of both ≤ 1011)
always_ends_example = always_ends both-Reach refl

-- A whole run, the first thread before the second one: a round of a thread has five steps.
abbrev Ran : System → Type 0
Ran s = (n : ℕ) × Reach true n s

round1 :
    (i g : ℕ) (t2 : Thread) (main : Main)
    → ltb i 100 ≡ true
    → Ran (at g false (Thread.test i) t2 main)
    → Ran (at (g + i) false (Thread.test (suc i)) t2 main)
round1 i g t2 main h (n, r) = (
  _,
  later
      (later
        (later (later (later r (thread1 refl (Runs.goes_on h))) (thread1 refl (Runs.acquire refl)))
          (thread1 refl Runs.loads))
        (thread1 refl Runs.stores))
      (thread1 refl Runs.unlocks),
)

round2 :
    (i g : ℕ) (t1 : Thread) (main : Main)
    → ltb i 200 ≡ true
    → Ran (at g false t1 (Thread.test i) main)
    → Ran (at (g + i) false t1 (Thread.test (suc i)) main)
round2 i g t1 main h (n, r) = (
  _,
  later
      (later
        (later (later (later r (thread2 refl (Runs.goes_on h))) (thread2 refl (Runs.acquire refl)))
          (thread2 refl Runs.loads))
        (thread2 refl Runs.stores))
      (thread2 refl Runs.unlocks),
)

first_thread :
    (k : ℕ) → k ≤ 100 → Ran (at (sum_below k) false (Thread.test k) (Thread.test 100) Main.join1)
unfolding begin
first_thread zero le = (
  _,
  later (later start (main_thread refl MainMoves.creates1)) (main_thread refl MainMoves.creates2),
)
first_thread (suc k) le =
    subst (λ g. Ran (at g false (Thread.test (suc k)) (Thread.test 100) Main.join1)) (omega arith)
      (round1 k (sum_below k) (Thread.test 100) Main.join1 (ground arith)
        (first_thread k (omega arith)))

second_thread :
    (k : ℕ)
    → k ≤ 100
    → Ran (at (sum_below (100 + k)) false Thread.returned (Thread.test (100 + k)) Main.join2)
second_thread zero le =
    let r = (first_thread 100 (omega arith)).1 in
    (_, later (later r (thread1 refl (Runs.ends refl))) (main_thread refl (MainMoves.joins1 refl)))
second_thread (suc k) le =
    subst (λ i. Ran (at (sum_below i) false Thread.returned (Thread.test i) Main.join2))
      (omega arith)
      (subst (λ g. Ran (at g false Thread.returned (Thread.test (suc (100 + k))) Main.join2))
        (omega arith)
        (round2 (100 + k) (sum_below (100 + k)) Thread.returned Main.join2 (ground arith)
          (second_thread k (omega arith))))

joined : Ran (at 19900 false Thread.returned Thread.returned Main.destroy)
joined =
    let r = (second_thread 100 (omega arith)).1 in
    (_, later (later r (thread2 refl (Runs.ends refl))) (main_thread refl (MainMoves.joins2 refl)))

abbrev before_destroy : System
before_destroy = at 19900 false Thread.returned Thread.returned Main.destroy

done : Ran (at 19900 false Thread.returned Thread.returned (Main.finished 19900))
done = (
  _,
  later (later joined.1 (main_thread refl MainMoves.destroys)) (main_thread refl MainMoves.prints),
)

abbrev printed : ℕ
printed = 19900

printed_sum_example : printed ≡ 19900
printed_sum_example = printed_sum printed done.1 refl
