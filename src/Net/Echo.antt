-- ===== src/Net/Echo.antt =====
-- LinuxAPI2/socket_echo_server_example.c and LinuxAPI2/socket_echo_client_example.c: a server that
-- forks for every connection, and a client of two processes. `listener` and `connector` stand in
-- Net/Resolve.antt.
pub mod Replies
pub mod Parent
pub mod Client
pub mod Serves
mod Tests
use linuxapi.Base.{ℕ, zero, suc, ℤ, ◌==ℤ◌, minus_one, is_positive, leb, if◌then◌else◌}
use linuxapi.Posix.{
  Reply, fail, val, result, payload, count, failed, err_exit, overrun, Sys, pure, halt, guard,
  ◌>>=◌, ◌>>◌, call, call_or, emit,
}
use linuxapi.Posix.Loop.{Next, again, leave, repeat}
use linuxapi.Net.{
  Call, sigaction, accept, fork, waitpid, close, read, shutdown, printf, stdin_fileno, buf_size,
}
use linuxapi.Net.Copy.{copy}
use linuxapi.Net.Resolve.{listener, connector}

-- The handler of SIGCHLD: all children that have ended are waited for.
unfoldable pub reap_round : Unit {0} → Sys Call (Next (Unit {0}) (Unit {0}))
reap_round _ = do
  r ← call waitpid
  if is_positive (result r) then pure (again tt) else pure (leave tt)

unfoldable pub signal_handler : Sys Call (Unit {0})
signal_handler = repeat reap_round tt

unfoldable pub echo : ℤ → Sys Call (Unit {0})
echo cfd = do
  last ← copy cfd cfd buf_size (err_exit "write()")
  guard (failed last) (err_exit "read()")

-- `switch(fork())`: after `echo` the child leaves the `switch` and goes round to `accept`.
unfoldable pub echo_by_fork :
    Reply → (listen_sock client_sock : ℤ) → Sys Call (Next (Unit {0}) (Unit {0}))
echo_by_fork (fail e) listen_sock client_sock = do
  call (close listen_sock)
  halt (err_exit "fork()")
echo_by_fork (val zero) listen_sock client_sock = do
  call (close listen_sock)
  echo client_sock
  pure (again tt)
echo_by_fork r listen_sock client_sock = do call (close client_sock); pure (again tt)

unfoldable pub echo_round : ℤ → Unit {0} → Sys Call (Next (Unit {0}) (Unit {0}))
echo_round listen_sock _ = do
  client ← call_or (accept listen_sock) (err_exit "accept()")
  pid ← call fork
  echo_by_fork pid listen_sock (result client)

unfoldable pub serve_clients : ℤ → Sys Call (Unit {0})
serve_clients listen_sock = repeat (echo_round listen_sock) tt

unfoldable pub socket_echo_server : Sys Call (Unit {0})
socket_echo_server = do
  call_or (sigaction "SIGCHLD") (err_exit "sigaction()\n")
  listen_sock ← listener "echo" 5
  guard (listen_sock ==ℤ minus_one) (err_exit "listener()")
  serve_clients listen_sock

-- The child of the client prints what comes back. `buf[numread] = '\0'` is a store outside the
-- buffer if the answer fills it.
unfoldable pub print_round : ℤ → Unit {0} → Sys Call (Next (Unit {0}) (Unit {0}))
print_round client_sock _ = do
  r ← call (read client_sock buf_size)
  if is_positive (result r)
      then (do
        guard (leb buf_size (count r)) overrun
        emit (printf "read bytes = %ld, message = %s" (payload r))
        pure (again tt))
      else pure (leave tt)

unfoldable pub echo_client_child : ℤ → Sys Call (Unit {0})
echo_client_child client_sock = repeat (print_round client_sock) tt

unfoldable pub echo_client_parent : ℤ → Sys Call (Unit {0})
echo_client_parent client_sock = do
  copy stdin_fileno client_sock buf_size (err_exit "write()")
  call_or (shutdown client_sock) (err_exit "shutdown()")
  pure tt

unfoldable pub client_by_fork : Reply → ℤ → Sys Call (Unit {0})
client_by_fork (fail e) client_sock = pure tt
client_by_fork (val zero) client_sock = echo_client_child client_sock
client_by_fork r client_sock = echo_client_parent client_sock

unfoldable pub socket_echo_client : Sys Call (Unit {0})
socket_echo_client = do
  client_sock ← connector "localhost" "echo"
  guard (client_sock ==ℤ minus_one) (err_exit "connector()")
  pid ← call fork
  client_by_fork pid client_sock
