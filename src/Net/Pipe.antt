-- ===== src/Net/Pipe.antt =====
-- LinuxAPI2/ipc_pipe.c and `socket_pair_sample` of LinuxAPI2/socket_unix_domain.c: a parent sends
-- its argument to a child, which copies it to the terminal. The answer to `fork` says which of the
-- two a process is.
pub mod Relay
use linuxapi.Base.{ℕ, zero, suc, ℤ, ◌==ℤ◌, pos, List, [], ◌∷◌, length}
use mathlib.Core.Bool.{not}
use linuxapi.Posix.{
  Reply, fail, val, chunk, chunk_from, result, payload, count, failed, Stop, err_exit, fatal,
  exited, Sys, guard, halt, ◌>>=◌, ◌>>◌, call, call_or,
}
use linuxapi.Net.{
  Call, pipe, socketpair, fork, wait, write, close, stdout_fileno, buf_size, end0, end1,
}
use linuxapi.Net.Copy.{copy}

-- `BUFFER_SIZE` of ipc_pipe.c
abbrev pub pipe_buffer_size : ℕ
pipe_buffer_size = 4096

abbrev pub newline : List ℕ
newline = 10 ∷ []

-- The child: it reads from `own` up to the end of file. The loop leaves by `break` at 0, and at -1
-- by `errExit`.
unfoldable pub pipe_child : (own other : ℤ) (size : ℕ) → Sys Call (Unit {0})
pipe_child own other size = do
  call_or (close other) (err_exit "close() - child")
  last ← copy own stdout_fileno size (fatal "parent - partial / failed write")
  guard (failed last) (err_exit "read() - child")
  call (write stdout_fileno newline)
  call_or (close own) (err_exit "close")
  halt (exited 0)

unfoldable pub pipe_parent : (own other : ℤ) → (argv1 : List ℕ) → Sys Call (Unit {0})
pipe_parent own other argv1 = do
  call_or (close other) (err_exit "close() - parent")
  w ← call (write own argv1)
  guard (not (result w ==ℤ pos (length argv1))) (fatal "parent - partial / failed write")
  call_or (close own) (err_exit "close")
  call wait
  halt (exited 0)

-- `switch(fork())`
unfoldable pub by_fork : Reply → (child parent : Sys Call (Unit {0})) → Sys Call (Unit {0})
by_fork (fail e) child parent = halt (err_exit "fork()")
by_fork (val zero) child parent = child
by_fork r child parent = parent

unfoldable pub ipc_pipe : (argv1 : List ℕ) → Sys Call (Unit {0})
ipc_pipe argv1 = do
  pfd ← call_or pipe (err_exit "pipe()")
  child_proc ← call fork
  by_fork child_proc (pipe_child (end0 (payload pfd)) (end1 (payload pfd)) pipe_buffer_size)
      (pipe_parent (end1 (payload pfd)) (end0 (payload pfd)) argv1)

unfoldable pub socket_pair_sample : (argv1 : List ℕ) → Sys Call (Unit {0})
socket_pair_sample argv1 = do
  sockfd ← call_or socketpair (err_exit "socketpair()")
  child_proc ← call fork
  by_fork child_proc (pipe_child (end0 (payload sockfd)) (end1 (payload sockfd)) buf_size)
      (pipe_parent (end1 (payload sockfd)) (end0 (payload sockfd)) argv1)
