-- ===== src/Net/Traffic.antt =====
-- What a trace says of the bytes moved and of the sockets held.
use linuxapi.Base.{ℕ, ℤ, ◌==ℤ◌, List, [], ◌∷◌, ◌++◌, take, if◌then◌else◌}
use linuxapi.Posix.{payload, count, ev, Trace}
use linuxapi.Posix.Held.{erase, opened}
use linuxapi.Net.{Call, read, write, accept, socket, close}

-- All bytes that `read` has put into the buffer, in order.
abbrev pub received : Trace Call → List ℕ
received [] = []
received (ev (read fd n) r ∷ log) = received log ++ payload r
received (ev _ r ∷ log) = received log

-- All bytes that `write` to `out` has accepted, in order.
abbrev pub delivered : ℤ → Trace Call → List ℕ
delivered out [] = []
delivered out (ev (write fd d) r ∷ log) =
    if fd ==ℤ out then delivered out log ++ take (count r) d else delivered out log
delivered out (ev _ r ∷ log) = delivered out log

-- The descriptors that `socket` or `accept` has returned and that no `close` has named since.
abbrev pub open_fds : Trace Call → List ℤ
open_fds [] = []
open_fds (ev (socket d k) r ∷ log) = opened r (open_fds log)
open_fds (ev (accept fd) r ∷ log) = opened r (open_fds log)
open_fds (ev (close fd) r ∷ log) = erase fd (open_fds log)
open_fds (ev _ r ∷ log) = open_fds log
