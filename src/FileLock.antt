-- ===== src/FileLock.antt =====
-- LinuxAPI2/file_lock.c: locks on a whole file (file_lock_flock) and on a part of it
-- (file_lock_region). What `getopt` and `strtol` find is an argument of the programs; `errno` is that of
-- the last call that has failed.
pub mod Held
pub mod Region
mod Tests
use linuxapi.Base.{
  ℕ, ◌==◌, ℤ, pos, minus_one, ◌==ℤ◌, Bool, true, false, String, List, [], ◌∷◌, if◌then◌else◌,
}
use linuxapi.Posix.{
  Reply, fail, val, chunk, chunk_from, Errno, eagain, other, Event, ev, Trace, Outcome, ret,
  payload, result, failed, Stop, err_exit, fatal, Sys, pure, halt, ◌>>=◌, ◌>>◌, call, call_or,
  guard, emit,
}

-- `LOCK_SH`, `LOCK_EX` and `LOCK_UN`; `F_RDLCK`, `F_WRLCK` and `F_UNLCK`
abbrev pub lock_sh : ℕ
lock_sh = 1

abbrev pub lock_ex : ℕ
lock_ex = 2

abbrev pub lock_un : ℕ
lock_un = 8

abbrev pub f_rdlck : ℕ
f_rdlck = 0

abbrev pub f_wrlck : ℕ
f_wrlck = 1

abbrev pub f_unlck : ℕ
f_unlck = 2

-- `F_GETLK`, `F_SETLK`, `F_SETLKW`
pub data Command : Type 0 where
  getlk setlk setlkw : Command

-- `fcntl` with F_GETLK answers with the type and the process id of a lock.
pub data Call : Type 0 where
  open_file : Call
  flock : (fd : ℤ) (lock : ℕ) → Call
  fcntl : (fd : ℤ) → Command → (type : ℕ) (start len : ℤ) → Call
  sleep pause : Call
  print_acquired : (lock : ℕ) → Call
  print_free print_locked : Call
  print_locked_by : (pid : ℤ) → Call

-- The number of the last error; 0 where there was none.
abbrev pub errno : Trace Call → Errno
errno [] = other 0
errno (ev c (fail e) ∷ log) = e
errno (ev c (val n) ∷ log) = errno log
errno (ev c (chunk d) ∷ log) = errno log
errno (ev c (chunk_from p d) ∷ log) = errno log

abbrev pub get_errno : Sys Call Errno
get_errno rs log = ret (errno log) rs log

-- `EAGAIN` is `EWOULDBLOCK`.
unfoldable pub is_eagain : Errno → Bool
is_eagain eagain = true
is_eagain e = false

-- What `getopt` finds in "se".
pub data LockOption : Type 0 where
  shared exclusive neither : LockOption

-- `stale` is what `lock` holds before.
abbrev pub lock_of : (stale : ℕ) → LockOption → ℕ
lock_of stale LockOption.shared = lock_sh
lock_of stale LockOption.exclusive = lock_ex
lock_of stale LockOption.neither = stale

unfoldable pub file_lock_flock : (stale : ℕ) → LockOption → Sys Call (Unit {0})
file_lock_flock stale option = do
  fd ← call_or open_file (err_exit "open()")
  r ← call (flock (result fd) (lock_of stale option))
  e ← get_errno
  if failed r
      then (if is_eagain e
          then halt (fatal "file is locked already.\n")
          else halt (err_exit "flock()"))
      else pure tt
  emit (print_acquired (lock_of stale option))
  call sleep
  call_or (flock (result fd) lock_un) (err_exit "flock()")
  pure tt

unfoldable pub lock_region : ℤ → Command → (type : ℕ) (start len : ℤ) → Sys Call ℤ
lock_region fd cmd type start len = do r ← call (fcntl fd cmd type start len); pure (result r)

unfoldable pub lock_region_nblock : ℤ → (type : ℕ) (start len : ℤ) → Sys Call ℤ
lock_region_nblock fd type start len = lock_region fd Command.setlk type start len

unfoldable pub lock_region_block : ℤ → (type : ℕ) (start len : ℤ) → Sys Call ℤ
lock_region_block fd type start len = lock_region fd Command.setlkw type start len

-- The fields that F_GETLK has stored.
abbrev pub l_type : List ℕ → ℕ
l_type [] = 0
l_type (t ∷ d) = t

abbrev pub l_pid : List ℕ → ℤ
l_pid (t ∷ p ∷ d) = pos p
l_pid d = pos 0

unfoldable pub lock_region_is_locked : ℤ → (type : ℕ) (start len : ℤ) → Sys Call ℤ
lock_region_is_locked fd type start len = do
  r ← call (fcntl fd Command.getlk type start len)
  if failed r
      then pure minus_one
      else if l_type (payload r) == f_unlck
      then pure (pos 0)
      else pure (l_pid (payload r))

-- `optarg`: "b", "n" or another text
pub data Argument : Type 0 where
  blocking nonblocking other_argument : Argument

-- One case of the switch of file_lock_region.
unfoldable pub lock_by : ℤ → (type : ℕ) (start len : ℤ) → Argument → Sys Call (Unit {0})
lock_by fd type start len argument = do
  pid ← lock_region_is_locked fd type start len
  if pid ==ℤ pos 0 then emit print_free else emit (print_locked_by pid)
  elim argument [
    | blocking ↦ (do lock_region_block fd type start len; emit print_locked)
    | nonblocking ↦ (do
      lock_region_nblock fd type start len
      e ← get_errno
      guard (is_eagain e) (err_exit "region was locked by others.\n"))
    | other_argument ↦ pure tt
  ]

pub data RegionOption : Type 0 where
  write_lock read_lock : Argument → RegionOption
  without : RegionOption

unfoldable pub file_lock_region : RegionOption → (start len : ℤ) → Sys Call (Unit {0})
file_lock_region option start len = do
  fd ← call_or open_file (err_exit "open()")
  elim option [
    | write_lock argument ↦ lock_by (result fd) f_wrlck start len argument
    | read_lock argument ↦ lock_by (result fd) f_rdlck start len argument
    | without ↦ pure tt
  ]
  call pause
  pure tt
