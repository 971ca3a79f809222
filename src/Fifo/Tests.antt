-- ===== src/Fifo/Tests.antt =====
-- A run with two clients.
use linuxapi.Base.{ℕ, zero, suc, ◌≡◌, refl, List, [], ◌∷◌, arith}
use mathlib.Core.List.{map}
use linuxapi.Posix.{Reply, val, chunk, trace_of}
use linuxapi.Fifo.{ipc_fifo_server, ipc_fifo_client}
use linuxapi.Fifo.Requests.{FifoPost, printed}
use linuxapi.Fifo.Greetings.{Client, SentPost, arrive_as, greeting, requests_printed}

-- What an uninitialised `msg` may hold.
abbrev filled : ℕ → List ℕ
filled zero = []
filled (suc n) = 255 ∷ filled n

abbrev two_clients : List Client
two_clients = (71, filled 85) ∷ (72, filled 85) ∷ []

abbrev any_answers : List Reply
any_answers = val 3 ∷ val 71 ∷ val 108 ∷ chunk (104 ∷ []) ∷ []

requests_printed_example :
    FifoPost (ipc_fifo_server any_answers [])
    × SentPost (filled 85) (ipc_fifo_client (filled 85) any_answers [])
    × (printed (trace_of (ipc_fifo_server (val 0 ∷ val 3 ∷ val 4 ∷ map arrive_as two_clients) []))
        ≡ map greeting two_clients)
requests_printed_example =
    requests_printed any_answers (filled 85) two_clients
      (omega arith, refl, (omega arith, refl, tt))
