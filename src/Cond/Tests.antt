-- ===== src/Cond/Tests.antt =====
-- A run in which a work is made while the main thread sleeps, and the theorems at its states.
use linuxapi.Base.{ℕ, ◌+◌, ◌≤◌, ◌≡◌, ◌⊎◌, refl, Bool, true, false}
use linuxapi.Cond.{
  Producer, Makes, Main, System, MainMoves, makes1, signals1, main_thread, moves, begin, Reach,
  start, later,
}
use linuxapi.Cond.Views.{made}
use linuxapi.Cond.Invariant.{owed}
use linuxapi.Cond.Wakeup.{Continues, Finished, works_consumed}

abbrev at : (work consumed : ℕ) → Bool → Producer → Producer → Main → System
at work consumed locked p1 p2 main = record {
  mem = record { work = work; locked = locked; consumed = consumed; exited = false };
  p1 = p1;
  p2 = p2;
  main = main;
}

-- The main thread sleeps, and nothing is made yet.
idle-Reach : Reach (at 0 0 false (Producer.test 0) (Producer.test 0) Main.asleep)
unfolding begin
idle-Reach =
    later
      (later
        (later
          (later (later start (moves refl (main_thread MainMoves.creates1)))
            (moves refl (main_thread MainMoves.creates2)))
          (moves refl (main_thread (MainMoves.locks refl))))
        (moves refl (main_thread (MainMoves.finds_none refl))))
      (moves refl (main_thread MainMoves.sleeps))

-- The first producer has made a work and still holds the mutex.
abbrev one_made : System
one_made = at 1 0 true (Producer.unlock 0) (Producer.test 0) Main.asleep

one_made-Reach : Reach one_made
one_made-Reach =
    later
      (later
        (later
          (later (later idle-Reach (moves refl (makes1 (Makes.goes_on refl))))
            (moves refl (makes1 Makes.wakes)))
          (moves refl (makes1 (Makes.acquire refl))))
        (moves refl (makes1 Makes.loads)))
      (moves refl (makes1 Makes.stores))

-- The signal has come, and the main thread has consumed the work.
abbrev one_consumed : System
one_consumed = at 0 1 true (Producer.test 1) (Producer.test 0) Main.drain

one_consumed-Reach : Reach one_consumed
one_consumed-Reach =
    later
      (later
        (later
          (later
            (later
              (later
                (later (later one_made-Reach (moves refl (makes1 Makes.unlocks)))
                  (moves refl (signals1 refl)))
                (moves refl (main_thread (MainMoves.relocks refl))))
              (moves refl (main_thread (MainMoves.finds_some refl))))
            (moves refl (main_thread (MainMoves.takes refl))))
          (moves refl (main_thread MainMoves.loads)))
        (moves refl (main_thread MainMoves.stores)))
      (moves refl (main_thread MainMoves.reports))

works_consumed_example :
    (Finished one_consumed ⊎ Continues one_consumed)
    × (one_consumed.mem.work + (one_consumed.mem.consumed + owed one_consumed.main)
        ≡ made one_consumed.p1 + made one_consumed.p2)
    × (one_consumed.mem.work + one_consumed.mem.consumed ≤ 2000)
works_consumed_example = works_consumed one_consumed-Reach refl
