-- ===== src/Net/Datagram.antt =====
-- The datagram servers and clients of LinuxAPI2/socket_inet_domain.c and
-- LinuxAPI2/socket_unix_domain.c: every datagram goes back to its sender.
mod Send
pub mod Loopback
pub mod Overrun
use mathlib.Core.Bool.{not}
use linuxapi.Base.{ℤ, ◌==ℤ◌, leb}
use linuxapi.Posix.{
  Reply, result, payload, sender, err_exit, fatal, overrun, count, Sys, pure, guard, ◌>>=◌, ◌>>◌,
  call, call_or, emit,
}
use linuxapi.Posix.Loop.{Next, again, repeat}
use linuxapi.Net.{
  Call, Addr, inaddr_any, inet_addr, unix_path, unix_client_path, sender_of, af_inet, af_unix,
  sock_dgram, socket, bind, remove, getpid, inet_ntop, inet_pton, recvfrom, sendto, read,
  print_datagram, printf, stdin_fileno, buf_size, remove_failed, not_positive,
}
use linuxapi.Net.Server.{port_number, socket_path}

-- `sendto(fd, buf, numbytes, ...) != numbytes`, for the answer `r` that gave `numbytes` and `buf`
unfoldable pub send_back : ℤ → Reply → Addr → Sys Call (Unit {0})
send_back fd r to = do
  sent ← call (sendto fd (payload r) (result r) to)
  guard (not (result sent ==ℤ result r)) (err_exit "sendto()")

unfoldable pub inet_datagram_round : ℤ → Unit {0} → Sys Call (Next (Unit {0}) (Unit {0}))
inet_datagram_round server_fd _ = do
  r ← call_or (recvfrom server_fd buf_size) (err_exit "recvfrom()")
  call_or (inet_ntop (sender_of (sender r))) (fatal "inet_ntop()")
  emit (print_datagram (result r) (sender_of (sender r)))
  send_back server_fd r (sender_of (sender r))
  pure (again tt)

unfoldable pub socket_inet_domain_datagram_server : Sys Call (Unit {0})
socket_inet_domain_datagram_server = do
  s ← call_or (socket af_inet sock_dgram) (err_exit "socket()")
  call_or (bind (result s) (inaddr_any port_number)) (err_exit "bind()")
  repeat (inet_datagram_round (result s)) tt

unfoldable pub unix_datagram_round : ℤ → Unit {0} → Sys Call (Next (Unit {0}) (Unit {0}))
unix_datagram_round server_fd _ = do
  r ← call_or (recvfrom server_fd buf_size) (err_exit "recvfrom()")
  emit (print_datagram (result r) (sender_of (sender r)))
  send_back server_fd r (sender_of (sender r))
  pure (again tt)

unfoldable pub socket_unix_domain_datagram_server : Sys Call (Unit {0})
socket_unix_domain_datagram_server = do
  s ← call_or (socket af_unix sock_dgram) (err_exit "socket()")
  removed ← call (remove socket_path)
  guard (remove_failed removed) (err_exit "remove()")
  call_or (bind (result s) (unix_path socket_path)) (err_exit "bind()")
  repeat (unix_datagram_round (result s)) tt

-- A client's round. `buf[numbytes] = '\0'` is a store outside the buffer if the datagram fills it.
unfoldable pub datagram_client_round : ℤ → Addr → Unit {0} → Sys Call (Next (Unit {0}) (Unit {0}))
datagram_client_round socket_fd server_addr _ = do
  r ← call_or (read stdin_fileno buf_size) (err_exit "read()")
  send_back socket_fd r server_addr
  back ← call_or (recvfrom socket_fd buf_size) (err_exit "recvfrom()")
  guard (leb buf_size (count back)) overrun
  emit (printf "loopback message from server: %s\n" (payload back))
  pure (again tt)

unfoldable pub socket_inet_domain_datagram_client : Sys Call (Unit {0})
socket_inet_domain_datagram_client = do
  s ← call_or (socket af_inet sock_dgram) (err_exit "socket()")
  host ← call (inet_pton "127.0.0.1")
  guard (not_positive host) (fatal "inet_pton()")
  repeat (datagram_client_round (result s) (inet_addr "127.0.0.1" port_number)) tt

unfoldable pub socket_unix_domain_datagram_client : Sys Call (Unit {0})
socket_unix_domain_datagram_client = do
  s ← call_or (socket af_unix sock_dgram) (err_exit "socket()")
  pid ← call getpid
  call_or (bind (result s) (unix_client_path socket_path (result pid))) (err_exit "bind()")
  repeat (datagram_client_round (result s) (unix_path socket_path)) tt
