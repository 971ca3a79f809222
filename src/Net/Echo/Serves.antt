-- ===== src/Net/Echo/Serves.antt =====
-- The echo server: its loop and its children.
use linuxapi.Base.{ℤ, ◌≡◌, List, [], ◌∷◌}
use linuxapi.Posix.{Reply, Trace}
use linuxapi.Net.{Call}
use linuxapi.Net.Traffic.{open_fds}
use linuxapi.Net.Copy.{InStep}
use linuxapi.Net.Echo.{echo, serve_clients}
use linuxapi.Net.Echo.Replies.{EchoPost, echo_replies}
use linuxapi.Net.Echo.Parent.{ParentPost, parent_holds}

-- The echo server, whatever the kernel answers. `echo`, if it starts in step with the client `cfd`: if
-- it returns, it has sent back to `cfd` all bytes that it read, in order; where it stands or ends
-- otherwise, at most the bytes of a write that is not answered yet or was short are missing. The loop
-- of the server, entered with the listening socket `listen_sock` as the only open one, never returns;
-- when a parent waits for the next client, it holds the listening socket and no other, however many
-- clients it has handed to children.
pub echo_served :
    (cfd listen_sock : ℤ) (rs : List Reply) (log before : Trace Call)
    → InStep cfd log
    → open_fds before ≡ listen_sock ∷ []
    → EchoPost cfd (echo cfd rs log) × ParentPost (serve_clients listen_sock rs before)
echo_served cfd listen_sock rs log before step held =
    (echo_replies cfd rs log step, parent_holds listen_sock rs before held)
