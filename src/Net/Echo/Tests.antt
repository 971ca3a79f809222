-- ===== src/Net/Echo/Tests.antt =====
-- Runs of the echo programs.
use linuxapi.Base.{ℕ, pos, ◌≡◌, refl, List, [], ◌∷◌}
use linuxapi.Posix.{Reply, val, chunk, ev, Trace, trace_of, call, guard}
use linuxapi.Posix.Loop.{repeat}
use linuxapi.Net.{Call, socket, af_inet, sock_stream}
use linuxapi.Net.Traffic.{delivered, open_fds}
use linuxapi.Net.Copy.{copy, copy_round}
use linuxapi.Net.Echo.{reap_round, signal_handler, echo, serve_clients}
use linuxapi.Net.Echo.Replies.{EchoPost}
use linuxapi.Net.Echo.Parent.{ParentPost}
use linuxapi.Net.Echo.Serves.{echo_served}

abbrev hello : List ℕ
hello = 104 ∷ 105 ∷ []

abbrev echo_answers : List Reply
echo_answers = chunk hello ∷ val 2 ∷ chunk (33 ∷ []) ∷ val 1 ∷ val 0 ∷ []

echo_run : delivered (pos 4) (trace_of (echo (pos 4) echo_answers [])) ≡ 104 ∷ 105 ∷ 33 ∷ []
unfolding echo copy copy_round repeat call guard
echo_run = refl

-- Two clients, each handed to a child.
abbrev two_clients : List Reply
two_clients = val 4 ∷ val 71 ∷ val 0 ∷ val 4 ∷ val 72 ∷ val 0 ∷ []

abbrev listening : Trace Call
listening = ev (socket af_inet sock_stream) (val 3) ∷ []

echo_served_example :
    EchoPost (pos 4) (echo (pos 4) two_clients [])
    × ParentPost (serve_clients (pos 3) two_clients listening)
echo_served_example = echo_served (pos 4) (pos 3) two_clients [] listening refl refl

-- The handler goes on while there are children to wait for.
handler_run : open_fds (trace_of (signal_handler (val 71 ∷ val 72 ∷ val 0 ∷ []) [])) ≡ []
unfolding signal_handler reap_round repeat call
handler_run = refl
