-- ===== src/MutexPair.antt =====
-- mutex_example of api3/pthread_lock.c: one thread adds the numbers below 10000 to `data1`, two others
-- add them to `data2`, each under the mutex of its data, which it holds for the whole loop.
-- `value += i` is a load and a store of their own; any interleaving is a run.
pub mod Sums
pub mod Printed
mod Tests
use linuxapi.Base.{ℕ, zero, suc, ◌+◌, ltb, ◌≡◌, ◌≢◌, Bool, true, false}

-- `struct tdata`
pub record Tdata : Type 0 where
  pub value : ℕ
  pub locked : Bool

-- A thread: not created; before `lock`, the test of the loop, the load, the store, and `unlock`;
-- returned.
pub data Routine : Type 0 where
  absent lock unlock returned : Routine
  test load : (i : ℕ) → Routine
  store : (i loaded : ℕ) → Routine

abbrev pub rounds : ℕ
rounds = 10000

pub data Adds (d : Tdata) : Routine → Tdata → Routine → Type 0 where
  locks : d.locked ≡ false → Adds d Routine.lock (record d { locked = true }) (Routine.test 0)
  goes_on : {i : ℕ} → ltb i rounds ≡ true → Adds d (Routine.test i) d (Routine.load i)
  loads : {i : ℕ} → Adds d (Routine.load i) d (Routine.store i d.value)
  stores :
      {i loaded : ℕ}
      → Adds d (Routine.store i loaded) (record d { value = loaded + i }) (Routine.test (suc i))
  ends : {i : ℕ} → ltb i rounds ≡ false → Adds d (Routine.test i) d Routine.unlock
  unlocks : Adds d Routine.unlock (record d { locked = false }) Routine.returned

-- One piece of data with two threads; `data1` has one that is never created.
pub record Cell : Type 0 where
  pub shared : Tdata
  pub t : Routine
  pub u : Routine

pub data Caller : Type 0 where
  create1 create2 create3 join1 join2 join3 print1 died : Caller
  print2 : (printed1 : ℕ) → Caller
  finished : (printed1 printed2 : ℕ) → Caller

pub record System : Type 0 where
  pub cell1 : Cell
  pub cell2 : Cell
  pub caller : Caller

pub data CallerMoves (s : System) : Caller → System → Type 0 where
  creates1 :
      CallerMoves s Caller.create1
        (record s { cell1 = record s.cell1 { t = Routine.lock }; caller = Caller.create2 })
  creates2 :
      CallerMoves s Caller.create2
        (record s { cell2 = record s.cell2 { t = Routine.lock }; caller = Caller.create3 })
  creates3 :
      CallerMoves s Caller.create3
        (record s { cell2 = record s.cell2 { u = Routine.lock }; caller = Caller.join1 })
  create1_fails : CallerMoves s Caller.create1 (record s { caller = Caller.died })
  create2_fails : CallerMoves s Caller.create2 (record s { caller = Caller.died })
  create3_fails : CallerMoves s Caller.create3 (record s { caller = Caller.died })
  joins1 :
      s.cell1.t ≡ Routine.returned → CallerMoves s Caller.join1 (record s { caller = Caller.join2 })
  joins2 :
      s.cell2.t ≡ Routine.returned → CallerMoves s Caller.join2 (record s { caller = Caller.join3 })
  joins3 :
      s.cell2.u ≡ Routine.returned
      → CallerMoves s Caller.join3 (record s { caller = Caller.print1 })
  prints1 : CallerMoves s Caller.print1 (record s { caller = Caller.print2 s.cell1.shared.value })
  prints2 :
      {v : ℕ}
      → CallerMoves s
          (Caller.print2 v)
          (record s { caller = Caller.finished v s.cell2.shared.value })

-- After `errexit` nothing moves.
pub data Step (s : System) : System → Type 0 where
  thread1 :
      {d : Tdata} {r : Routine}
      → s.caller ≢ Caller.died
      → Adds s.cell1.shared s.cell1.t d r
      → Step s (record s { cell1 = record s.cell1 { shared = d; t = r } })
  thread2 :
      {d : Tdata} {r : Routine}
      → s.caller ≢ Caller.died
      → Adds s.cell2.shared s.cell2.t d r
      → Step s (record s { cell2 = record s.cell2 { shared = d; t = r } })
  thread3 :
      {d : Tdata} {r : Routine}
      → s.caller ≢ Caller.died
      → Adds s.cell2.shared s.cell2.u d r
      → Step s (record s { cell2 = record s.cell2 { shared = d; u = r } })
  main_thread : {c : Caller} {s' : System} → s.caller ≡ c → CallerMoves s c s' → Step s s'

abbrev pub fresh : Cell
fresh = record {
  shared = record { value = 0; locked = false };
  t = Routine.absent;
  u = Routine.absent;
}

abbrev pub begin : System
begin = record { cell1 = fresh; cell2 = fresh; caller = Caller.create1 }

pub data Reach : System → Type 0 where
  start : Reach begin
  later : {s s' : System} → Reach s → Step s s' → Reach s'
