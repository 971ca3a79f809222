-- ===== src/SystemV/Sem.antt =====
-- LinuxAPI2/ipc_systemv_sem.c: processes that do a piece of work under one semaphore, two at a time
-- at most. The first of them creates the semaphore; the others wait until it is initialised.
pub mod Turn
use linuxapi.Base.{ℕ, zero, suc, ℤ, pos, negsuc, ◌==◌, Bool, true, false, if◌then◌else◌}
use linuxapi.Posix.{
  Reply, result, count, failed, err_exit, fatal, Sys, pure, guard, ◌>>=◌, ◌>>◌, call, call_or, emit,
}
use linuxapi.SystemV.{
  Call, ftok, semget, semctl_setval, semctl_stat, semctl_getval, semop, sleep, printf, print_number,
  key_path,
}

-- `MAX_TRIES`
abbrev pub max_tries : ℕ
max_tries = 10

-- The loop of a process that has not created the semaphore; it yields `ds.sem_otime`.
unfoldable pub await_init : ℕ → (semid : ℤ) → (otime : ℕ) → Sys Call ℕ
await_init zero semid otime = pure otime
await_init (suc tries) semid otime = do
  ds ← call_or (semctl_stat semid) (err_exit "semctl()")
  if count ds == 0 then (do call (sleep 1); await_init tries semid (count ds)) else pure (count ds)

-- The process that has created the semaphore. It leaves `ds.sem_otime` without a value (`undefined`).
unfoldable pub initialise : (semid : ℤ) → (undefined : ℕ) → Sys Call ℕ
initialise semid undefined = do
  call_or (semctl_setval semid 0) (err_exit "semctl()")
  call_or (semop semid (pos 0)) (err_exit "semop()")
  call_or (semctl_setval semid 2) (err_exit "semctl()")
  pure undefined

-- Everything from the test of `ds.sem_otime` on.
unfoldable pub take_turn : (semid : ℤ) → (otime : ℕ) → Sys Call (Unit {0})
take_turn semid otime = do
  guard (otime == 0) (fatal "Semaphore not initialized yet.")
  semval ← call (semctl_getval semid)
  emit (print_number (result semval))
  call_or (semop semid (negsuc 0)) (err_exit "semop()")
  emit (printf "job start..\n")
  call (sleep 5)
  emit (printf "job end..\n")
  call_or (semop semid (pos 1)) (err_exit "semop()")
  pure tt

unfoldable pub open_semaphore : (key : ℤ) (undefined : ℕ) → Reply → Sys Call (Unit {0})
open_semaphore key undefined created =
    if failed created
    then (do
      s ← call_or (semget key false) (err_exit "semget()")
      otime ← await_init max_tries (result s) undefined
      take_turn (result s) otime)
    else (do otime ← initialise (result created) undefined; take_turn (result created) otime)

unfoldable pub ipc_systemv_sem : (undefined : ℕ) → Sys Call (Unit {0})
ipc_systemv_sem undefined = do
  key ← call (ftok key_path)
  created ← call (semget (result key) true)
  open_semaphore (result key) undefined created
