-- ===== src/Fifo/Greetings.antt =====
-- What comes through from the clients.
use linuxapi.Base.{
  ℕ, ℤ, pos, ◌<◌, ◌≡◌, ◌∙◌, refl, ap, sym, ltb, zero, suc, ◌==ℤ◌, Bool, ==ℤ_sound, true, false,
  Option, some, List, [], ◌∷◌, ◌++◌, append_assoc, append-nil, length, four_bytes, arith,
}
use mathlib.Core.List.{map}
use linuxapi.Posix.{
  Reply, count, trace_of, val, chunk, result, failed, ev, Trace, blocked, err_exit, Outcome, ret,
  stop, call, call_or, guard,
}
use linuxapi.Posix.Loop.{again, repeat, loop}
use linuxapi.Posix.Rules.{call_rule, call_or_rule, guard_rule}
use linuxapi.Inotify.{c_string}
use linuxapi.Fifo.{
  Line, request, Call, mkfifo, open_read, open_write, write, getpid, print_sent, ipc_fifo_client,
  read, print, sizeof_request, request_bytes, request_line, print_line, serve_round,
  ipc_fifo_server,
}
use mathlib.Core.Bool.{not}
use linuxapi.Fifo.Requests.{printed, FifoPost, server_lem}

-- A client: its process id, and what its `req.msg` holds behind the text.
abbrev pub Client : Type 0
Client = ℕ × List ℕ

abbrev pub Fits : List Client → Type 0
Fits [] = Unit
Fits (c ∷ cs) = (c.0 < 2147483648) × (length c.1 ≡ 85) × Fits cs

abbrev pub arrive_as : Client → Reply
arrive_as c = chunk (request_bytes c.0 c.1)

-- "Hello! Server!"
abbrev pub hello : List ℕ
hello = 72 ∷ 101 ∷ 108 ∷ 108 ∷ 111 ∷ 33 ∷ 32 ∷ 83 ∷ 101 ∷ 114 ∷ 118 ∷ 101 ∷ 114 ∷ 33 ∷ []

abbrev pub greeting : Client → Option Line
greeting c = some (request (pos c.0) hello)

full_request :
    (pid : ℕ) (behind : List ℕ) → length behind ≡ 85 → length (request_bytes pid behind) ≡ 108
unfolding request_bytes
full_request pid behind h = omega (arith, h)

small : (n : ℕ) → n < 2147483648 → ltb n 2147483648 ≡ true
small n lt = ground arith

request_line-bytes :
    (pid : ℕ) (behind : List ℕ)
    → pid < 2147483648
    → request_line (request_bytes pid behind) ≡ some (request (pos pid) hello)
unfolding request_line request_bytes c_string
request_line-bytes pid behind lt = rw (four_bytes pid (omega (arith, lt)), small pid lt) refl

-- One round on the request of a client
serve_round-client :
    (fd : ℤ) (c : Client) (rs : List Reply) (log : Trace Call)
    → c.0 < 2147483648
    → length c.1 ≡ 85
    → serve_round fd tt (arrive_as c ∷ rs) log
      ≡ ret (again tt) rs (
          ev (print (request (pos c.0) hello)) (val 0)
          ∷ ev (read fd sizeof_request) (arrive_as c)
          ∷ log)
unfolding serve_round print_line call
serve_round-client fd c rs log lt h =
    rw (full_request c.0 c.1 h, request_line-bytes c.0 c.1 lt) refl

-- The trace behind the requests
abbrev behind_all : ℤ → List Client → Trace Call → Trace Call
behind_all fd [] log = log
behind_all fd (c ∷ cs) log =
    behind_all fd cs (
      ev (print (request (pos c.0) hello)) (val 0)
      ∷ ev (read fd sizeof_request) (arrive_as c)
      ∷ log)

loop-clients :
    (fuel : ℕ) (fd : ℤ) (cs : List Client) (log : Trace Call)
    → length cs < fuel
    → Fits cs
    → loop fuel (serve_round fd) tt (map arrive_as cs) log
      ≡ stop (blocked (read fd sizeof_request)) (behind_all fd cs log)
unfolding loop serve_round call
loop-clients zero fd cs log lt h = absurd (omega (arith, lt))
loop-clients (suc fuel) fd [] log lt h = refl
loop-clients (suc fuel) fd (c ∷ cs) log lt h =
    rw (serve_round-client fd c (map arrive_as cs) log h.0 h.1)
      (loop-clients fuel fd cs _ (omega (arith, lt)) h.2)

printed-behind_all :
    (fd : ℤ) (cs : List Client) (log : Trace Call)
    → printed (behind_all fd cs log) ≡ printed log ++ map greeting cs
printed-behind_all fd [] log = sym (append-nil _)
printed-behind_all fd (c ∷ cs) log =
    printed-behind_all fd cs _ ∙ append_assoc (printed log) (greeting c ∷ []) (map greeting cs)

enough : (cs : List Client) → length cs < suc (length (map arrive_as cs))
enough [] = omega arith
enough (c ∷ cs) = omega (arith, enough cs)

greeted :
    (cs : List Client)
    → Fits cs
    → ipc_fifo_server (val 0 ∷ val 3 ∷ val 4 ∷ map arrive_as cs) []
      ≡ stop (blocked (read (pos 3) sizeof_request)) (
          behind_all
            (pos 3)
            cs
            (ev open_write (val 4) ∷ ev open_read (val 3) ∷ ev mkfifo (val 0) ∷ []))
unfolding ipc_fifo_server repeat call call_or guard
greeted cs h = loop-clients (suc (length (map arrive_as cs))) (pos 3) cs _ (enough cs) h

-- A client ends by `errExit` only where its last call has failed, or has not written all.
abbrev pub Unsent : Trace Call → Type 0
Unsent (ev open_write r ∷ log) = failed r ≡ true
Unsent (ev (write fd d) w ∷ log) = (result w ==ℤ pos sizeof_request) ≡ false
Unsent log = ⊥

abbrev pub SentPost : (behind : List ℕ) → Outcome Call (Unit {0}) → Type 0
SentPost behind
      (ret u rs (ev print_sent a ∷ ev (write fd d) w ∷ ev getpid p ∷ ev open_write o ∷ [])) =
    (fd ≡ result o) × (chunk d ≡ arrive_as (count p, behind)) × (result w ≡ pos sizeof_request)
SentPost behind (ret u rs log) = ⊥
SentPost behind (stop (blocked c) log) = Unit
SentPost behind (stop (err_exit m) log) = Unsent log
SentPost behind (stop e log) = ⊥

not_all : (a : Bool) → not a ≡ true → a ≡ false
not_all true h = sym h
not_all false h = refl

all_written : (a : Bool) → not a ≡ false → a ≡ true
all_written true h = refl
all_written false h = sym h

client_lem : (behind : List ℕ) (rs : List Reply) → SentPost behind (ipc_fifo_client behind rs [])
unfolding ipc_fifo_client
client_lem behind rs =
    call_or_rule Q _ _ _ rs [] tt (λ r bad. bad)
      (λ fd rs1 lt1 opened. call_rule Q _ _ rs1 _ tt (λ pid rs2 lt2.
        call_rule Q _ _ rs2 _ tt (λ w rs3 lt3.
          guard_rule Q _ _ _ rs3 _ (λ bad. not_all _ bad)
            (λ fine.
              (refl, refl, ==ℤ_sound (result w) (pos sizeof_request) (all_written _ fine))))))
  where
    Q : Outcome Call (Unit {0}) → Type 0
    Q = SentPost behind

-- The FIFO programs. The server, whatever the kernel answers, never returns; wherever it waits, it has
-- printed one line for each `read`, in order, the request or that there was none; it ends by `errExit`
-- only where a call has failed, before any request, and it reads behind its buffer only where a request
-- has no NUL. A client that returns has written all bytes of its request. If the requests of clients
-- `cs` come in, with process ids below 2 ^ 31 and whatever stands behind their text, the server prints
-- the process id and "Hello! Server!" for each, in order, and waits for the next.
pub requests_printed :
    (rs : List Reply) (behind : List ℕ) (cs : List Client)
    → Fits cs
    → FifoPost (ipc_fifo_server rs [])
      × SentPost behind (ipc_fifo_client behind rs [])
      × (printed (trace_of (ipc_fifo_server (val 0 ∷ val 3 ∷ val 4 ∷ map arrive_as cs) []))
          ≡ map greeting cs)
requests_printed rs behind cs h = (
  server_lem rs,
  client_lem behind rs,
  ap (λ o. printed (trace_of o)) (greeted cs h) ∙ printed-behind_all (pos 3) cs _,
)
