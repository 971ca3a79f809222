-- ===== src/PosixSem.antt =====
-- LinuxAPI2/ipc_posix_unnamed_sem.c: two threads add the numbers from 0 to 199 to one variable under
-- a semaphore of 1. The threads go through the same points as those of LinuxAPI2/pthread_sync.c,
-- with `sem_wait` for `lock` and `sem_post` for `unlock`; any interleaving is a run.
pub mod Refines
mod Tests
use linuxapi.Base.{ℕ, zero, suc, ◌+◌, ltb, ◌≡◌, Bool, true, false, Option, none, some}
use linuxapi.Threads.{Thread}

-- `gsum`; the value of `sem`, once it is initialised; and whether the process has been ended by
-- `errExit` or `errExitEN`.
pub record Memory : Type 0 where
  pub gsum : ℕ
  pub sem : Option ℕ
  pub exited : Bool

pub data Adds (from : ℕ) (m : Memory) : Thread → Memory → Thread → Type 0 where
  goes_on : {i : ℕ} → ltb i (from + 100) ≡ true → Adds from m (Thread.test i) m (Thread.lock i)
  ends : {i : ℕ} → ltb i (from + 100) ≡ false → Adds from m (Thread.test i) m Thread.returned
  waits :
      {i v : ℕ}
      → m.sem ≡ some (suc v)
      → Adds from m (Thread.lock i) (record m { sem = some v }) (Thread.load i)
  loads : {i : ℕ} → Adds from m (Thread.load i) m (Thread.store i m.gsum)
  stores :
      {i loaded : ℕ}
      → Adds from m (Thread.store i loaded) (record m { gsum = loaded + i }) (Thread.unlock i)
  posts :
      {i v : ℕ}
      → m.sem ≡ some v
      → Adds from m (Thread.unlock i) (record m { sem = some (suc v) }) (Thread.test (suc i))
  wait_fails : {i : ℕ} → Adds from m (Thread.lock i) (record m { exited = true }) (Thread.lock i)
  post_fails :
      {i : ℕ} → Adds from m (Thread.unlock i) (record m { exited = true }) (Thread.unlock i)

-- The main thread: before `sem_init`, the two calls of `pthread_create`, the two of `pthread_join`,
-- and `printf`; and behind it, with what it has printed.
pub data Caller : Type 0 where
  init create1 create2 join1 join2 print : Caller
  finished : (printed : ℕ) → Caller

pub record Process : Type 0 where
  pub mem : Memory
  pub t1 : Thread
  pub t2 : Thread
  pub caller : Caller

pub data CallerMoves (s : Process) : Caller → Process → Type 0 where
  inits :
      CallerMoves s Caller.init
        (record s { mem = record s.mem { sem = some 1 }; caller = Caller.create1 })
  creates1 : CallerMoves s Caller.create1 (record s { t1 = Thread.test 0; caller = Caller.create2 })
  creates2 : CallerMoves s Caller.create2 (record s { t2 = Thread.test 100; caller = Caller.join1 })
  joins1 : s.t1 ≡ Thread.returned → CallerMoves s Caller.join1 (record s { caller = Caller.join2 })
  joins2 : s.t2 ≡ Thread.returned → CallerMoves s Caller.join2 (record s { caller = Caller.print })
  prints : CallerMoves s Caller.print (record s { caller = Caller.finished s.mem.gsum })
  init_fails : CallerMoves s Caller.init (record s { mem = record s.mem { exited = true } })
  create1_fails : CallerMoves s Caller.create1 (record s { mem = record s.mem { exited = true } })
  create2_fails : CallerMoves s Caller.create2 (record s { mem = record s.mem { exited = true } })

pub data Goes (s : Process) : Process → Type 0 where
  thread1 :
      {m : Memory} {t : Thread}
      → s.mem.exited ≡ false
      → Adds 0 s.mem s.t1 m t
      → Goes s (record s { mem = m; t1 = t })
  thread2 :
      {m : Memory} {t : Thread}
      → s.mem.exited ≡ false
      → Adds 100 s.mem s.t2 m t
      → Goes s (record s { mem = m; t2 = t })
  main_thread : {t : Process} → s.mem.exited ≡ false → CallerMoves s s.caller t → Goes s t

unfoldable pub fresh_process : Process
fresh_process = record {
  mem = record { gsum = 0; sem = none; exited = false };
  t1 = Thread.absent;
  t2 = Thread.absent;
  caller = Caller.init;
}

-- The states that a run can reach.
pub data Run : Process → Type 0 where
  started : Run fresh_process
  then : {s t : Process} → Run s → Goes s t → Run t
