-- ===== src/Net/Tests.antt =====
-- Runs of the pipe and socket programs, and the theorems at them.
use linuxapi.Base.{ℕ, pos, ◌≡◌, refl, List, [], ◌∷◌, ◌++◌, take}
use linuxapi.Posix.{
  Reply, fail, val, chunk, chunk_from, enoent, eintr, stop, overrun, trace_of, call, call_or, guard,
  count,
}
use linuxapi.Posix.Loop.{repeat}
use linuxapi.Net.{stdout_fileno, buf_size}
use linuxapi.Net.Traffic.{delivered, open_fds}
use linuxapi.Net.Copy.{copy, copy_round}
use linuxapi.Net.Server.{
  serve_connection, inet_stream_round, unix_stream_round, socket_inet_domain_stream_server,
  socket_unix_domain_stream_server,
}
use linuxapi.Net.Server.Relay.{short_write}
use linuxapi.Net.Pipe.{newline, pipe_child, pipe_parent, by_fork, ipc_pipe}
use linuxapi.Net.Pipe.Relay.{ends, pipe_end_to_end}
use linuxapi.Net.Resolve.{try_entries, listener, connector}
use linuxapi.Net.Resolve.Sockets.{Bound, ConnectorPost, endpoints_hold}
use linuxapi.Net.Datagram.{
  datagram_client_round, send_back, socket_unix_domain_datagram_server,
  socket_inet_domain_datagram_server, socket_inet_domain_datagram_client,
}
use linuxapi.Net.Datagram.Loopback.{LoopbackPost, datagrams_handled}
use linuxapi.Net.Datagram.Overrun.{OverrunPost}

abbrev hello : List ℕ
hello = 104 ∷ 105 ∷ []

-- The answers to the unix server after `socket`: one client that sends two chunks.
abbrev one_client : List Reply
one_client =
    fail enoent
    ∷ val 0
    ∷ val 0
    ∷ val 4
    ∷ chunk hello
    ∷ val 2
    ∷ chunk (33 ∷ [])
    ∷ val 1
    ∷ val 0
    ∷ val 0
    ∷ []

unix_server_run :
    let o = socket_unix_domain_stream_server (val 3 ∷ one_client) [] in
    (delivered stdout_fileno (trace_of o) ≡ 104 ∷ 105 ∷ 33 ∷ [])
    × (open_fds (trace_of o) ≡ pos 3 ∷ [])
unfolding socket_unix_domain_stream_server unix_stream_round serve_connection copy copy_round repeat
    call call_or guard
unix_server_run = (refl, refl)

-- The internet-domain server also asks for the client's address.
abbrev inet_client : List Reply
inet_client = val 3 ∷ val 0 ∷ val 0 ∷ val 4 ∷ chunk (49 ∷ []) ∷ chunk hello ∷ val 1 ∷ []

-- A short write: one byte is missing.
inet_server_run :
    socket_inet_domain_stream_server inet_client []
    ≡ stop short_write (trace_of (socket_inet_domain_stream_server inet_client []))
unfolding socket_inet_domain_stream_server inet_stream_round serve_connection copy copy_round repeat
    call call_or guard
inet_server_run = refl

abbrev child_answers : List Reply
child_answers = val 0 ∷ chunk hello ∷ val 2 ∷ val 0 ∷ val 1 ∷ val 0 ∷ []

abbrev parent_answers : List Reply
parent_answers = val 0 ∷ val 2 ∷ val 0 ∷ val 9 ∷ []

pipe_end_to_end_example :
    (w : Reply) × (delivered stdout_fileno
        (trace_of (ipc_pipe hello (ends 3 4 ∷ val 0 ∷ child_answers) []))
      ≡ hello ++ take (count w) newline)
unfolding ipc_pipe by_fork pipe_child pipe_parent copy copy_round repeat call call_or guard
pipe_end_to_end_example =
    pipe_end_to_end hello 3 4 8 child_answers parent_answers 0 0 refl refl refl

-- Two addresses: the first cannot be bound.
abbrev two_addresses : List Reply
two_addresses =
    chunk (0 ∷ 1 ∷ []) ∷ val 3 ∷ fail eintr ∷ val 0 ∷ val 4 ∷ val 0 ∷ val 0 ∷ val 0 ∷ val 0 ∷ []

endpoints_hold_example :
    (open_fds (trace_of (listener "echo" 5 two_addresses [])) ≡ pos 4 ∷ [])
    × Bound 5 (pos 4) (trace_of (listener "echo" 5 two_addresses []))
    × ConnectorPost (connector "localhost" "echo" two_addresses [])
unfolding listener try_entries call call_or guard
endpoints_hold_example =
    endpoints_hold "localhost" "echo" 5 two_addresses two_addresses {lfd = pos 4} refl
      ((λ e. refl), tt)

abbrev datagrams : List Reply
datagrams = val 3 ∷ val 0 ∷ chunk_from 7 hello ∷ chunk (49 ∷ []) ∷ val 2 ∷ []

datagrams_handled_example :
    LoopbackPost (socket_inet_domain_datagram_server datagrams [])
    × LoopbackPost (socket_unix_domain_datagram_server datagrams [])
    × OverrunPost (socket_inet_domain_datagram_client datagrams [])
datagrams_handled_example = datagrams_handled datagrams

abbrev client_answers : List Reply
client_answers = val 1 ∷ val 0 ∷ chunk hello ∷ val 2 ∷ val 0 ∷ val 0 ∷ []

overrun_run :
    socket_inet_domain_datagram_client (val 3 ∷ val 1 ∷ chunk hello ∷ val 2 ∷ val buf_size ∷ []) []
    ≡ stop overrun (
        trace_of (
          socket_inet_domain_datagram_client
            (val 3 ∷ val 1 ∷ chunk hello ∷ val 2 ∷ val buf_size ∷ [])
            []))
unfolding socket_inet_domain_datagram_client datagram_client_round send_back repeat call call_or
    guard
overrun_run = refl
