-- ===== src/Net/Server.antt =====
-- The stream servers of LinuxAPI2/socket_inet_domain.c and LinuxAPI2/socket_unix_domain.c: one
-- connection at a time, its bytes copied to the terminal.
pub mod Relay
use linuxapi.Base.{ℕ, String, ℤ}
use linuxapi.Posix.{
  Reply, result, payload, failed, Stop, err_exit, fatal, Sys, pure, guard, ◌>>=◌, ◌>>◌, call,
  call_or, emit,
}
use linuxapi.Posix.Loop.{Next, again, repeat}
use linuxapi.Net.{
  Call, inaddr_any, unix_path, peer, af_inet, af_unix, sock_stream, socket, bind, listen, accept,
  remove, inet_ntop, close, print_client, stdout_fileno, buf_size, backlog, remove_failed,
}
use linuxapi.Net.Copy.{copy}

-- `PORT_NUMBER` and `SOCKET_PATH`
abbrev pub port_number : ℕ
port_number = 50002

abbrev pub socket_path : String
socket_path = "/tmp/unix_domain_socket"

-- The rest of a round once the connection is there.
unfoldable pub serve_connection : Reply → Sys Call (Next (Unit {0}) (Unit {0}))
serve_connection client = do
  last ← copy (result client) stdout_fileno buf_size (fatal "failed write")
  guard (failed last) (err_exit "read()")
  call (close (result client))
  pure (again tt)

unfoldable pub inet_stream_round : ℤ → Unit {0} → Sys Call (Next (Unit {0}) (Unit {0}))
inet_stream_round server_fd _ = do
  client ← call_or (accept server_fd) (err_exit "accept()")
  host ← call_or (inet_ntop (peer (result client))) (fatal "inet_ntop()")
  emit (print_client (payload host) (peer (result client)))
  serve_connection client

unfoldable pub socket_inet_domain_stream_server : Sys Call (Unit {0})
socket_inet_domain_stream_server = do
  server ← call_or (socket af_inet sock_stream) (err_exit "socket()")
  call_or (bind (result server) (inaddr_any port_number)) (err_exit "bind()")
  call_or (listen (result server) backlog) (err_exit "listen()")
  repeat (inet_stream_round (result server)) tt

unfoldable pub unix_stream_round : ℤ → Unit {0} → Sys Call (Next (Unit {0}) (Unit {0}))
unix_stream_round server_fd _ = do
  client ← call_or (accept server_fd) (err_exit "accept()")
  serve_connection client

-- The descriptor of the server is not tested.
unfoldable pub socket_unix_domain_stream_server : Sys Call (Unit {0})
socket_unix_domain_stream_server = do
  server ← call (socket af_unix sock_stream)
  removed ← call (remove socket_path)
  guard (remove_failed removed) (err_exit "remove()")
  call_or (bind (result server) (unix_path socket_path)) (err_exit "bind()")
  call_or (listen (result server) backlog) (err_exit "listen()")
  repeat (unix_stream_round (result server)) tt
