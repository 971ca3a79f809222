-- ===== src/Cond.antt =====
-- LinuxAPI2/pthread_condition_variable.c: two threads make 1000 works each, and the main thread
-- consumes them. It waits on a condition variable while there are none. `work++` and `work--` are a
-- load and a store of their own; any interleaving of the three threads is a run, and the main
-- thread may also wake up without a signal.
pub mod Views
pub mod Invariant
mod Preserved
pub mod Whole
pub mod Conserved
pub mod Wakeup
mod Tests
use linuxapi.Base.{ℕ, zero, suc, ◌+◌, ◌-◌, ltb, ◌==◌, ◌≡◌, Bool, true, false}

-- `work`, whether the mutex is locked, how many works the main thread has reported as consumed, and
-- whether the process has been ended by `errExitEN`.
pub record Shared : Type 0 where
  pub work : ℕ
  pub locked : Bool
  pub consumed : ℕ
  pub exited : Bool

abbrev pub rounds : ℕ
rounds = 1000

-- Where a producer stands with its `i`: not created; before the test of the loop, `sleep`, `lock`,
-- the load and the store of `work`, `unlock` and `pthread_cond_signal`; before `pthread_detach`,
-- and behind it.
pub data Producer : Type 0 where
  absent detach returned : Producer
  test nap lock load unlock signal : (i : ℕ) → Producer
  store : (i loaded : ℕ) → Producer

pub data Makes (m : Shared) : Producer → Shared → Producer → Type 0 where
  goes_on : {i : ℕ} → ltb i rounds ≡ true → Makes m (Producer.test i) m (Producer.nap i)
  ends : {i : ℕ} → ltb i rounds ≡ false → Makes m (Producer.test i) m Producer.detach
  wakes : {i : ℕ} → Makes m (Producer.nap i) m (Producer.lock i)
  acquire :
      {i : ℕ}
      → m.locked ≡ false
      → Makes m (Producer.lock i) (record m { locked = true }) (Producer.load i)
  loads : {i : ℕ} → Makes m (Producer.load i) m (Producer.store i m.work)
  stores :
      {i loaded : ℕ}
      → Makes m (Producer.store i loaded) (record m { work = loaded + 1 }) (Producer.unlock i)
  unlocks : {i : ℕ} → Makes m (Producer.unlock i) (record m { locked = false }) (Producer.signal i)
  detaches : Makes m Producer.detach m Producer.returned

-- The main thread: before the two calls of `pthread_create` and `lock`; before the test
-- `work == 0`, and before `pthread_cond_wait`; inside it, asleep or on its way to the mutex; before
-- the test `work > 0`, the load and the store of `work`, and `printf`.
pub data Main : Type 0 where
  create1 create2 lock check wait asleep woken drain load report : Main
  store : (loaded : ℕ) → Main

-- `pthread_cond_signal`: nothing happens if nobody waits.
abbrev pub wake : Main → Main
wake Main.asleep = Main.woken
wake mn = mn

pub record System : Type 0 where
  pub mem : Shared
  pub p1 : Producer
  pub p2 : Producer
  pub main : Main

pub data MainMoves (s : System) : Main → System → Type 0 where
  creates1 : MainMoves s Main.create1 (record s { p1 = Producer.test 0; main = Main.create2 })
  creates2 : MainMoves s Main.create2 (record s { p2 = Producer.test 0; main = Main.lock })
  create1_fails : MainMoves s Main.create1 (record s { mem = record s.mem { exited = true } })
  create2_fails : MainMoves s Main.create2 (record s { mem = record s.mem { exited = true } })
  locks :
      s.mem.locked ≡ false
      → MainMoves s Main.lock (record s { mem = record s.mem { locked = true }; main = Main.check })
  finds_none : (s.mem.work == 0) ≡ true → MainMoves s Main.check (record s { main = Main.wait })
  finds_some : (s.mem.work == 0) ≡ false → MainMoves s Main.check (record s { main = Main.drain })
  sleeps :
      MainMoves s Main.wait (record s { mem = record s.mem { locked = false }; main = Main.asleep })
  relocks :
      s.mem.locked ≡ false
      → MainMoves s Main.woken
          (record s { mem = record s.mem { locked = true }; main = Main.check })
  takes : ltb 0 s.mem.work ≡ true → MainMoves s Main.drain (record s { main = Main.load })
  drained : ltb 0 s.mem.work ≡ false → MainMoves s Main.drain (record s { main = Main.check })
  loads : MainMoves s Main.load (record s { main = Main.store s.mem.work })
  stores :
      {loaded : ℕ}
      → MainMoves s
          (Main.store loaded)
          (record s { mem = record s.mem { work = loaded - 1 }; main = Main.report })
  reports :
      MainMoves s Main.report
        (record s { mem = record s.mem { consumed = suc s.mem.consumed }; main = Main.drain })

-- A step of one of the three threads.
pub data Moves (s : System) : System → Type 0 where
  makes1 :
      {m : Shared} {p : Producer} → Makes s.mem s.p1 m p → Moves s (record s { mem = m; p1 = p })
  makes2 :
      {m : Shared} {p : Producer} → Makes s.mem s.p2 m p → Moves s (record s { mem = m; p2 = p })
  signals1 :
      {i : ℕ}
      → s.p1 ≡ Producer.signal i
      → Moves s (record s { p1 = Producer.test (suc i); main = wake s.main })
  signals2 :
      {i : ℕ}
      → s.p2 ≡ Producer.signal i
      → Moves s (record s { p2 = Producer.test (suc i); main = wake s.main })
  main_thread : {t : System} → MainMoves s s.main t → Moves s t

pub data Step (s : System) : System → Type 0 where
  moves : {t : System} → s.mem.exited ≡ false → Moves s t → Step s t
  -- `pthread_cond_wait` may return without a signal.
  spurious : s.mem.exited ≡ false → s.main ≡ Main.asleep → Step s (record s { main = Main.woken })

pub begin : System
begin = record {
  mem = record { work = 0; locked = false; consumed = 0; exited = false };
  p1 = Producer.absent;
  p2 = Producer.absent;
  main = Main.create1;
}

pub data Reach : System → Type 0 where
  start : Reach begin
  later : {s t : System} → Reach s → Step s t → Reach t
