-- ===== src/Net/Client.antt =====
-- The stream clients of LinuxAPI2/socket_inet_domain.c and LinuxAPI2/socket_unix_domain.c.
pub mod Relay
use linuxapi.Base.{ℤ}
use linuxapi.Posix.{
  result, payload, failed, Stop, err_exit, fatal, Sys, pure, guard, ◌>>=◌, ◌>>◌, call, call_or,
}
use linuxapi.Net.{
  Call, inet_addr, unix_path, af_inet, af_unix, sock_stream, socket, connect, inet_pton, close,
  stdin_fileno, buf_size, not_positive,
}
use linuxapi.Net.Copy.{copy}
use linuxapi.Net.Server.{port_number, socket_path}

-- Standard input to the socket; `short` is what the program does about a short write.
unfoldable pub send_stdin : ℤ → Stop Call → Sys Call (Unit {0})
send_stdin socket_fd short = do
  last ← copy stdin_fileno socket_fd buf_size short
  guard (failed last) (err_exit "read()")

unfoldable pub socket_inet_domain_stream_client : Sys Call (Unit {0})
socket_inet_domain_stream_client = do
  s ← call (socket af_inet sock_stream)
  host ← call (inet_pton "127.0.0.1")
  guard (not_positive host) (fatal "inet_pton()")
  call_or (connect (result s) (inet_addr "127.0.0.1" port_number)) (err_exit "connect()")
  send_stdin (result s) (fatal "write()")
  call (close (result s))
  pure tt

unfoldable pub socket_unix_domain_stream_client : Sys Call (Unit {0})
socket_unix_domain_stream_client = do
  s ← call (socket af_unix sock_stream)
  call_or (connect (result s) (unix_path socket_path)) (err_exit "connect")
  send_stdin (result s) (fatal "failed write")
