-- ===== src/Wait.antt =====
-- LinuxAPI/process_wait.c, and fork_exec_wait and system_sample of api3/process_manage.c: a parent
-- starts children, waits for them and says what became of them. The answer to `fork` says which of
-- the two a process is; the status that a call stores is an argument of the program.
pub mod Status
pub mod Children
mod Tests
use linuxapi.Base.{
  ℕ, zero, suc, ◌/◌, ◌%◌, ◌+◌, ◌==◌, ltb, String, ℤ, pos, ◌==ℤ◌, Bool, true, false, if◌then◌else◌,
}
use linuxapi.Posix.{
  Reply, fail, val, chunk, chunk_from, echild, result, count, failed, guard, err_exit, exited, Sys,
  pure, halt, ◌>>=◌, ◌>>◌, call, call_or, emit,
}
use linuxapi.Posix.Loop.{Next, again, leave, repeat}

-- The macros of sys/wait.h, on the status as an unsigned number.
unfoldable pub w_ifexited : ℕ → Bool
w_ifexited status = status % 128 == 0

unfoldable pub w_exitstatus : ℕ → ℕ
w_exitstatus status = (status / 256) % 256

unfoldable pub w_termsig : ℕ → ℕ
w_termsig status = status % 128

-- `((signed char) ((status & 0x7f) + 1) >> 1) > 0`, where 128 is a negative `signed char`
unfoldable pub w_ifsignaled : ℕ → Bool
w_ifsignaled status = if status % 128 + 1 == 128 then false else ltb 0 ((status % 128 + 1) / 2)

unfoldable pub w_ifstopped : ℕ → Bool
w_ifstopped status = status % 256 == 127

unfoldable pub w_ifcontinued : ℕ → Bool
w_ifcontinued status = status == 65535

-- What the programs print. `index_started` and `index_finished` carry the index and the process id.
pub data Line : Type 0 where
  not_terminated continued all_exited will_wait wifexited wifstopped wifcontinued : Line
  ids : (pid ppid : ℤ) → Line
  normal_termination killed_by stopped_by wifsignaled status_is : ℕ → Line
  child_pid child_exited test_is : ℤ → Line
  index_started index_finished : ℕ → ℤ → Line

pub data Options : Type 0 where
  wnohang wuntraced : Options

pub data Call : Type 0 where
  fork execve wait getpid getppid pause : Call
  waitpid : ℤ → Options → Call
  system : String → Call
  sleep : ℕ → Call
  print : Line → Call

-- `if(test) printf(...)`
abbrev pub print_if : Bool → Line → Sys Call (Unit {0})
print_if test line = if test then emit (print line) else pure tt

-- `switch(fork())`
unfoldable pub by_fork : {A : Type 0} → Reply → (failing child parent : Sys Call A) → Sys Call A
by_fork (fail e) failing child parent = failing
by_fork (val zero) failing child parent = child
by_fork r failing child parent = parent

-- What fork_exec_wait says of a child whose status has changed.
unfoldable pub say_status : (status : ℕ) → Sys Call (Unit {0})
say_status status = do
  print_if (w_ifexited status) (normal_termination (w_exitstatus status))
  print_if (w_ifsignaled status) (killed_by (w_termsig status))
  print_if (w_ifstopped status) (stopped_by (w_exitstatus status))
  print_if (w_ifcontinued status) continued

unfoldable pub fork_exec_wait : (status : ℕ) → Sys Call (Unit {0})
fork_exec_wait status = do
  child ← call fork
  by_fork child (halt (err_exit "fork"))
      (do
        pid ← call getpid
        ppid ← call getppid
        emit (print (ids (result pid) (result ppid)))
        call_or execve (err_exit "execve")
        halt (exited 1))
      (do
        pid ← call_or (waitpid (result child) wnohang) (err_exit "wait")
        guard (failed pid) (err_exit "waitpid")
        if result pid ==ℤ pos 0 then emit (print not_terminated) else say_status status
        halt (exited 0))

unfoldable pub system_sample : Sys Call (Unit {0})
system_sample = do
  r ← call_or (system "vi test") (err_exit "system")
  print_if (w_ifexited (count r)) (status_is (w_exitstatus (count r)))

abbrev pub children : ℕ
children = 5

-- The `i`th child of process_wait.
unfoldable pub child_of : (i : ℕ) → Sys Call (Unit {0})
child_of i = do
  pid ← call getpid
  emit (print (child_pid (result pid)))
  call (sleep i)
  halt (exited 0)

-- The loop that forks, with the rounds that are left.
unfoldable pub fork_children : (left i : ℕ) → Sys Call (Unit {0})
fork_children zero i = pure tt
fork_children (suc left) i = do
  r ← call fork
  by_fork r (halt (err_exit "fork()")) (child_of i) (fork_children left (suc i))

-- `child == -1` and `errno == ECHILD`
unfoldable pub none_left : Reply → Bool
none_left (fail echild) = true
none_left r = false

unfoldable pub wait_round : Unit {0} → Sys Call (Next (Unit {0}) (Unit {0}))
wait_round _ = do
  child ← call wait
  if none_left child
      then (do emit (print all_exited); halt (exited 0))
      else (do emit (print (child_exited (result child))); pure (again tt))

unfoldable pub process_wait : Sys Call (Unit {0})
process_wait = do fork_children children 1; repeat wait_round tt

-- The `i`th child of process_waitpid.
unfoldable pub waiting_child : (i : ℕ) → Sys Call ℤ
waiting_child i = do
  pid ← call getpid
  emit (print (index_started i (result pid)))
  if i == 1 then call pause else call (sleep i)
  pid' ← call getpid
  emit (print (index_finished i (result pid')))
  halt (exited 0)

-- The loop that forks, with `wait_child`.
unfoldable pub fork_waiting : (left i : ℕ) (wait_child : ℤ) → Sys Call ℤ
fork_waiting zero i wait_child = pure wait_child
fork_waiting (suc left) i wait_child = do
  child ← call fork
  by_fork child (halt (err_exit "fork()")) (waiting_child i)
      (fork_waiting left (suc i) (if i == 1 then result child else wait_child))

-- What process_waitpid says of the status.
unfoldable pub tell_status : (status : ℕ) → Sys Call (Unit {0})
tell_status status = do
  emit (print (status_is status))
  print_if (w_ifexited status) wifexited
  print_if (w_ifsignaled status) (wifsignaled (w_termsig status))
  print_if (w_ifstopped status) wifstopped
  print_if (w_ifcontinued status) wifcontinued

-- `stale` and `unset` are what `wait_child` and `status` hold before; `stored` is what `waitpid` puts
-- into `status` where it succeeds.
unfoldable pub process_waitpid : (stale : ℤ) (unset stored : ℕ) → Sys Call (Unit {0})
process_waitpid stale unset stored = do
  emit (print will_wait)
  wait_child ← fork_waiting children 1 stale
  emit (print (test_is wait_child))
  r ← call (waitpid wait_child wuntraced)
  tell_status (if failed r then unset else stored)
