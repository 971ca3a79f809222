-- ===== src/PosixSem/Tests.antt =====
-- A run in which the first thread has the semaphore while the second one waits for it.
use linuxapi.Base.{refl, some, false}
use linuxapi.PosixSem.{
  Adds, Caller, Process, CallerMoves, thread1, thread2, main_thread, fresh_process, Run, started,
  then,
}
use linuxapi.PosixSem.Refines.{Matched, refines_mutex}
use linuxapi.Threads.{Thread}

abbrev contended : Process
contended = record {
  mem = record { gsum = 0; sem = some 0; exited = false };
  t1 = Thread.load 0;
  t2 = Thread.lock 100;
  caller = Caller.join1;
}

contended-Run : Run contended
unfolding fresh_process
contended-Run =
    then
      (then
        (then
          (then
            (then (then started (main_thread refl CallerMoves.inits))
              (main_thread refl CallerMoves.creates1))
            (main_thread refl CallerMoves.creates2))
          (thread1 refl (Adds.goes_on refl)))
        (thread2 refl (Adds.goes_on refl)))
      (thread1 refl (Adds.waits refl))

refines_mutex_example : Matched contended
refines_mutex_example = refines_mutex contended-Run
