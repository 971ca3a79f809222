-- ===== src/Popen.antt =====
-- `ipc_pipe_popen` of LinuxAPI2/ipc_pipe.c: the lines that a command prints are shown and counted.
pub mod Count
use linuxapi.Base.{ℕ, zero, suc, ◌+◌, String, ℤ, Bool, true, false, List, if◌then◌else◌}
use linuxapi.Posix.{
  Reply, result, payload, failed, err_exit, exited, Sys, pure, halt, ◌>>=◌, ◌>>◌, call, call_or,
  emit,
}
use linuxapi.Posix.Loop.{Next, again, leave, repeat}

pub data Call : Type 0 where
  popen : (command mode : String) → Call
  -- fails at the end of the stream
  fgets pclose : Call
  print_line : List ℕ → Call
  print_count : ℕ → Call
  print_status : ℤ → Call

unfoldable pub line_round : (filecnt : ℕ) → Sys Call (Next ℕ ℕ)
line_round filecnt = do
  line ← call fgets
  if failed line
      then pure (leave filecnt)
      else (do emit (print_line (payload line)); pure (again (suc filecnt)))

unfoldable pub ipc_pipe_popen : Sys Call (Unit {0})
ipc_pipe_popen = do
  call_or (popen "ls -l" "r") (err_exit "popen()")
  filecnt ← repeat line_round 0
  status ← call pclose
  emit (print_count filecnt)
  emit (print_status (result status))
  halt (exited 0)
