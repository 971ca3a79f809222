-- ===== src/Net/Resolve.antt =====
-- The loops over the list of `getaddrinfo`: `listener` and `connector` of
-- LinuxAPI2/socket_echo_server_example.c and LinuxAPI2/socket_echo_client_example.c, and the second
-- versions of the internet stream programs in LinuxAPI2/socket_inet_domain.c.
mod Entries
pub mod Sockets
use linuxapi.Base.{ℕ, String, ℤ, minus_one, pos, ◌==ℤ◌, List, [], ◌∷◌, if◌then◌else◌}
use mathlib.Core.Bool.{Bool, true, false, not}
use linuxapi.Posix.{
  Reply, result, payload, failed, Stop, err_exit, fatal, Sys, pure, guard, ◌>>=◌, ◌>>◌, call,
  call_or, emit,
}
use linuxapi.Posix.Loop.{Next, again, repeat}
use linuxapi.Net.{
  Call, entry, peer, of_entry, sock_stream, socket, bind, connect, listen, accept, close,
  getaddrinfo, getnameinfo, freeaddrinfo, setsockopt, err_msg, print_client, stdin_fileno,
  stdout_fileno, buf_size, backlog,
}
use linuxapi.Net.Copy.{copy}
use linuxapi.Net.Server.{serve_connection}

-- A server binds its socket to the address, and wants 0; a client connects it, and wants no -1.
pub data Purpose : Type 0 where
  passive active : Purpose

abbrev pub use_socket : Purpose → ℤ → ℕ → Call
use_socket passive fd rp = bind fd (entry rp)
use_socket active fd rp = connect fd (entry rp)

abbrev pub ok : Purpose → Reply → Bool
ok passive r = result r ==ℤ pos 0
ok active r = not (failed r)

-- The loop `for(rp = result; rp != NULL; rp = rp->ai_next)`; `fd` is the variable that it sets, and
-- `loud` says whether a failure is reported by `errMsg`.
unfoldable pub try_entries : Purpose → (loud : Bool) → List ℕ → ℤ → Sys Call ℤ
try_entries purpose loud [] fd = pure fd
try_entries purpose loud (rp ∷ rest) fd = do
  s ← call (socket (of_entry rp) sock_stream)
  if failed s then try_entries purpose loud rest (result s) else (do
    done ← call (use_socket purpose (result s) rp)
    if ok purpose done then pure (result s) else (do
      (if loud then emit (err_msg "bind()") else pure tt)
      call (close (result s))
      try_entries purpose loud rest (result s)))

-- `echo`'s `listener`
unfoldable pub listener : (service : String) → ℕ → Sys Call ℤ
listener service n = do
  list ← call_or (getaddrinfo "" service) (err_exit "getaddrinfo()")
  lfd ← try_entries passive true (payload list) minus_one
  call_or (setsockopt lfd "SO_REUSEADDR") (err_exit "setsockopt()")
  call_or (listen lfd n) (err_exit "listen()")
  call freeaddrinfo
  pure lfd

unfoldable pub connector : (host service : String) → Sys Call ℤ
connector host service = do
  list ← call_or (getaddrinfo host service) (err_exit "getaddrinfo()")
  cfd ← try_entries active false (payload list) minus_one
  call freeaddrinfo
  pure cfd

-- The name of the client is printed if it can be found.
unfoldable pub stream_round_v2 : ℤ → Unit {0} → Sys Call (Next (Unit {0}) (Unit {0}))
stream_round_v2 server_fd _ = do
  client ← call_or (accept server_fd) (err_exit "accept()")
  name ← call (getnameinfo (peer (result client)))
  (if ok passive name then emit (print_client (payload name) (peer (result client))) else pure tt)
  serve_connection client

-- `undefined` is what the descriptor, a local variable that is not initialised, holds at first.
unfoldable pub socket_inet_domain_stream_server_v2 : (undefined : ℤ) → Sys Call (Unit {0})
socket_inet_domain_stream_server_v2 undefined = do
  list ← call_or (getaddrinfo "" "50002") (err_exit "getaddrinfo()")
  server_fd ← try_entries passive false (payload list) undefined
  call_or (listen server_fd backlog) (err_exit "listen()")
  call freeaddrinfo
  repeat (stream_round_v2 server_fd) tt

-- With `errExit` commented out, `if(numread == -1)` guards `close`.
unfoldable pub socket_inet_domain_stream_client_v2 : (undefined : ℤ) → Sys Call (Unit {0})
socket_inet_domain_stream_client_v2 undefined = do
  list ← call_or (getaddrinfo "localhost" "50002") (err_exit "getaddrinfo()")
  socket_fd ← try_entries active false (payload list) undefined
  call freeaddrinfo
  last ← copy stdin_fileno socket_fd buf_size (fatal "write()")
  if failed last then (do call (close socket_fd); pure tt) else pure tt
