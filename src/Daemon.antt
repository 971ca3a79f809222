-- ===== src/Daemon.antt =====
-- LinuxAPI/process_daemonize.c: a process that becomes a daemon and logs a message every five
-- seconds, to a file that SIGHUP makes it open anew.
pub mod Log
pub mod Detached
pub mod Table
mod Tests
use linuxapi.Base.{
  ℕ, zero, suc, String, ℤ, pos, minus_one, ◌==ℤ◌, ◌==◌, Bool, true, false, List, if◌then◌else◌,
}
use Prim.Native.Nat.{◌/◌, ◌%◌}
use linuxapi.Posix.{
  Reply, fail, val, result, count, failed, exited, Sys, pure, halt, ◌>>=◌, ◌>>◌, call, emit,
}

pub data Call : Type 0 where
  fork setsid sysconf_open_max : Call
  umask : ℕ → Call
  chdir : String → Call
  open_file : String → Call
  close : ℤ → Call
  dup2 : ℕ → ℕ → Call
  sigaction : String → Call
  sleep : ℕ → Call
  -- a read of `hup_signaled`, which the handler of SIGHUP sets at any time
  hup_signaled : Call
  write : ℤ → List ℕ → Call
  write_text : ℤ → String → Call
  -- the process, group and session of a process
  print_ids : String → Call

-- `BD_NO_CHDIR`, `BD_NO_CLOSE_FILES`, `BD_NO_REOPEN_STD_FDS`, `BD_NO_UMASK0`, `BD_MAX_CLOSE`
abbrev pub bd_no_chdir : ℕ
bd_no_chdir = 1

abbrev pub bd_no_close_files : ℕ
bd_no_close_files = 2

abbrev pub bd_no_reopen_std_fds : ℕ
bd_no_reopen_std_fds = 4

abbrev pub bd_no_umask0 : ℕ
bd_no_umask0 = 8

abbrev pub bd_max_close : ℕ
bd_max_close = 8192

-- `flags & bit`, for one bit
abbrev pub has_flag : (flags bit : ℕ) → Bool
has_flag flags bit = (flags / bit) % 2 == 1

-- `for(; fd < maxfds; ++fd) close(fd)`, with `n` descriptors to go
unfoldable pub close_from : (fd n : ℕ) → Sys Call (Unit {0})
close_from fd zero = pure tt
close_from fd (suc n) = do call (close (pos fd)); close_from (suc fd) n

unfoldable pub close_files : Sys Call (Unit {0})
close_files = do
  maxfds ← call sysconf_open_max
  close_from 0 (if failed maxfds then bd_max_close else count maxfds)

-- Standard input, output and error become `/dev/null`.
unfoldable pub reopen_std_fds : Sys Call ℤ
reopen_std_fds = do
  call (close (pos 0))
  fd ← call (open_file "/dev/null")
  if result fd ==ℤ pos 0
      then (do
        out ← call (dup2 0 1)
        if result out ==ℤ pos 1
            then (do
              err ← call (dup2 0 2)
              if result err ==ℤ pos 2 then pure (pos 0) else pure minus_one)
            else pure minus_one)
      else pure minus_one

-- `if(!(flags & bit)) c`
unfoldable pub unless_flag : (flags bit : ℕ) → Call → Sys Call (Unit {0})
unless_flag flags bit c = if has_flag flags bit then pure tt else (do call c; pure tt)

unfoldable pub grandchild : (flags : ℕ) → Sys Call ℤ
grandchild flags = do
  emit (print_ids "[grandchild]")
  unless_flag flags bd_no_umask0 (umask 0)
  unless_flag flags bd_no_chdir (chdir "/")
  (if has_flag flags bd_no_close_files then pure tt else close_files)
  if has_flag flags bd_no_reopen_std_fds then pure (pos 0) else reopen_std_fds

-- `switch(fork())`: the child goes on, the other process exits.
unfoldable pub go_on_as_child : Reply → (who : String) → Sys Call ℤ → Sys Call ℤ
go_on_as_child (fail e) who child = pure minus_one
go_on_as_child (val zero) who child = child
go_on_as_child r who child = do emit (print_ids who); halt (exited 0)

unfoldable pub new_session : (flags : ℕ) → Sys Call ℤ
new_session flags = do
  emit (print_ids "[child]")
  s ← call setsid
  if failed s
      then pure minus_one
      else (do pid ← call fork; go_on_as_child pid "child" (grandchild flags))

unfoldable pub become_daemon : (flags : ℕ) → Sys Call ℤ
become_daemon flags = do pid ← call fork; go_on_as_child pid "[parent]" (new_session flags)
