-- ===== src/Threads.antt =====
-- LinuxAPI2/pthread_sync.c: two threads add the numbers from 0 to 199 to one variable under one
-- mutex. `gsum += i` is a load and a store of their own, so the threads may run into one another;
-- any interleaving of the threads and of the main thread is a run. `checking` tells
-- `pthread_sync_error_checking_mutex`, which tests the results of lock and unlock and destroys the
-- mutex, from `pthread_sync`, whose mutex is initialised statically and does not fail.
pub mod Views
pub mod Invariant
pub mod Result
pub mod Progress
pub mod Deadlock
mod Tests
use linuxapi.Base.{ℕ, zero, suc, ◌+◌, ltb, ◌≡◌, Bool, true, false}

-- The memory that the threads share, and whether the process has been ended by `errExitEN`.
pub record Shared : Type 0 where
  pub gsum : ℕ
  pub locked : Bool
  pub exited : Bool

-- Where a thread stands with its `i`: not created; before the test of the loop, `lock`, the load of
-- `gsum`, its store of the loaded value plus `i`, and `unlock`; returned.
pub data Thread : Type 0 where
  absent returned : Thread
  test lock load unlock : (i : ℕ) → Thread
  store : (i loaded : ℕ) → Thread

pub data Runs (checking : Bool) (from : ℕ) (m : Shared) : Thread → Shared → Thread → Type 0 where
  goes_on :
      {i : ℕ} → ltb i (from + 100) ≡ true → Runs checking from m (Thread.test i) m (Thread.lock i)
  ends :
      {i : ℕ} → ltb i (from + 100) ≡ false → Runs checking from m (Thread.test i) m Thread.returned
  acquire :
      {i : ℕ}
      → m.locked ≡ false
      → Runs checking from m (Thread.lock i) (record m { locked = true }) (Thread.load i)
  loads : {i : ℕ} → Runs checking from m (Thread.load i) m (Thread.store i m.gsum)
  stores :
      {i loaded : ℕ}
      → Runs checking from m
          (Thread.store i loaded)
          (record m { gsum = loaded + i })
          (Thread.unlock i)
  unlocks :
      {i : ℕ}
      → Runs checking from m (Thread.unlock i) (record m { locked = false }) (Thread.test (suc i))
  lock_fails :
      {i : ℕ}
      → checking ≡ true
      → Runs checking from m (Thread.lock i) (record m { exited = true }) (Thread.lock i)
  unlock_fails :
      {i : ℕ}
      → checking ≡ true
      → Runs checking from m (Thread.unlock i) (record m { exited = true }) (Thread.unlock i)

-- The main thread: before the two calls of `pthread_create`, the two of `pthread_join`, that of
-- `pthread_mutex_destroy` and `printf`; and behind it, with what it has printed.
pub data Main : Type 0 where
  create1 create2 join1 join2 destroy print : Main
  finished : (printed : ℕ) → Main

abbrev pub after_joins : (checking : Bool) → Main
after_joins true = Main.destroy
after_joins false = Main.print

pub record System : Type 0 where
  pub mem : Shared
  pub t1 : Thread
  pub t2 : Thread
  pub main : Main

pub data MainMoves (checking : Bool) (s : System) : Main → System → Type 0 where
  creates1 :
      MainMoves checking s Main.create1 (record s { t1 = Thread.test 0; main = Main.create2 })
  creates2 :
      MainMoves checking s Main.create2 (record s { t2 = Thread.test 100; main = Main.join1 })
  joins1 : s.t1 ≡ Thread.returned → MainMoves checking s Main.join1 (record s { main = Main.join2 })
  joins2 :
      s.t2 ≡ Thread.returned
      → MainMoves checking s Main.join2 (record s { main = after_joins checking })
  destroys : MainMoves checking s Main.destroy (record s { main = Main.print })
  prints : MainMoves checking s Main.print (record s { main = Main.finished s.mem.gsum })
  create1_fails :
      MainMoves checking s Main.create1 (record s { mem = record s.mem { exited = true } })
  create2_fails :
      MainMoves checking s Main.create2 (record s { mem = record s.mem { exited = true } })

pub data Step (checking : Bool) (s : System) : System → Type 0 where
  thread1 :
      {m : Shared} {t : Thread}
      → s.mem.exited ≡ false
      → Runs checking 0 s.mem s.t1 m t
      → Step checking s (record s { mem = m; t1 = t })
  thread2 :
      {m : Shared} {t : Thread}
      → s.mem.exited ≡ false
      → Runs checking 100 s.mem s.t2 m t
      → Step checking s (record s { mem = m; t2 = t })
  main_thread :
      {t : System} → s.mem.exited ≡ false → MainMoves checking s s.main t → Step checking s t

unfoldable pub begin : System
begin = record {
  mem = record { gsum = 0; locked = false; exited = false };
  t1 = Thread.absent;
  t2 = Thread.absent;
  main = Main.create1;
}

-- The states that a run can reach, with the number of its steps.
pub data Reach (checking : Bool) : ℕ → System → Type 0 where
  start : Reach checking 0 begin
  later : {n : ℕ} {s t : System} → Reach checking n s → Step checking s t → Reach checking (suc n) t
