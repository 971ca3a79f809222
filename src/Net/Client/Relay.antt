-- ===== src/Net/Client/Relay.antt =====
-- What the stream clients send.
use linuxapi.Base.{ℤ, ==ℤ_refl, ◌≡◌, refl, inl, inr, List, [], ◌∷◌}
use linuxapi.Posix.{
  Reply, fail, val, chunk, chunk_from, result, failed, Trace, Stop, fatal, Outcome, ret, stop, Sys,
  pure, then_run, ◌>>=◌,
}
use linuxapi.Posix.Rules.{call_rule, call_or_rule, guard_rule, call_cons, tail_rule}
use linuxapi.Net.{Call, stdin_fileno, buf_size}
use linuxapi.Net.Traffic.{open_fds}
use linuxapi.Posix.Held.{opened, erase}
use linuxapi.Net.Copy.{InStep, Relayed, IsEnd, copy_rule}
use linuxapi.Net.Client.{
  send_stdin, socket_inet_domain_stream_client, socket_unix_domain_stream_client,
}

-- A client that returns has sent all that it read, and holds the sockets `fds`.
abbrev pub ClientPost : ℤ → Stop Call → List ℤ → Outcome Call (Unit {0}) → Type 0
ClientPost fd short fds (ret u rs log) = InStep fd log × (open_fds log ≡ fds)
ClientPost fd short fds (stop e log) = Relayed fd short e log

module _ (fd : ℤ) (short : Stop Call) (real : IsEnd short) (fds : List ℤ) where
  send_stdin_rule :
      (Q : Outcome Call (Unit {0}) → Type 0) (next : Unit {0} → Sys Call (Unit {0}))
      → ((e : Stop Call) (log : Trace Call) → Relayed fd short e log → Q (stop e log))
      → ((rs : List Reply) (log : Trace Call)
          → InStep fd log
          → open_fds log ≡ fds
          → Q (next tt rs log))
      → (rs : List Reply) (log : Trace Call) → InStep fd log
      → open_fds log ≡ fds
      → Q ((send_stdin fd short >>= next) rs log)
  unfolding send_stdin
  send_stdin_rule Q next ended done rs log h k =
      copy_rule fd short (λ l. open_fds l ≡ fds) stdin_fileno buf_size (λ r l q. q) (λ d r l q. q)
        (λ o. Q (then_run o next)) _ rs log h k
        (λ r rs' l q held le eof.
          guard_rule Q (failed r) _ next rs' l (λ bad. ended _ l (tt, inl q))
            (λ fine. done rs' l q held))
        (λ l q held. ended _ l (tt, inl q)) (λ d l q held. ended _ l (tt, inr (d, q, inr refl)))
        (λ lost l q held. ended _ l (real, inr (lost, q, inl refl)))

erase-opened : (s : Reply) → erase (result s) (opened s []) ≡ []
erase-opened (fail e) = refl
erase-opened (val n) = rw (==ℤ_refl (result (val n)))
erase-opened (chunk d) = rw (==ℤ_refl (result (chunk d)))
erase-opened (chunk_from p d) = rw (==ℤ_refl (result (chunk_from p d)))

-- The internet-domain stream client, whatever the answer `s` to its first call and `rs` to the
-- others: if it returns, it has sent all that it read from standard input, in order, and holds no
-- socket. Where it stands or ends otherwise, at most the bytes of a write that is not answered yet
-- or was short are missing.
pub inet_client_relays :
    (s : Reply) (rs : List Reply)
    → ClientPost (result s) (fatal "write()") [] (socket_inet_domain_stream_client (s ∷ rs) [])
unfolding socket_inet_domain_stream_client
inet_client_relays s rs = call_cons Q _ _ s rs [] (
    call_rule Q _ _ rs _ (tt, inl refl)
      (λ host rs' lt.
        guard_rule Q _ _ _ rs' _ (λ bad. (tt, inl refl))
          (λ good.
            call_or_rule Q _ _ _ rs' _ (tt, inl refl) (λ r bad. (tt, inl refl))
              (λ r rs'' lt' there.
                send_stdin_rule (result s) short tt (opened s []) Q _ (λ e log h. h)
                  (λ rs''' log q held.
                    call_rule Q _ _ rs''' log (tt, inl q)
                      (λ c rest lt''. (q, rw held (erase-opened s))))
                  rs'' _ refl refl))))
  where
    short : Stop Call
    short = fatal "write()"

    Q : Outcome Call (Unit {0}) → Type 0
    Q = ClientPost (result s) short []

-- The unix-domain stream client, whatever the answer `s` to its first call and `rs` to the others:
-- if it returns, it has sent all that it read from standard input, in order, and still holds the
-- socket of `s`, which it does not close. Where it stands or ends otherwise, at most the bytes of a
-- write that is not answered yet or was short are missing.
pub unix_client_relays :
    (s : Reply) (rs : List Reply)
    → ClientPost
        (result s)
        (fatal "failed write")
        (opened s [])
        (socket_unix_domain_stream_client (s ∷ rs) [])
unfolding socket_unix_domain_stream_client
unix_client_relays s rs = call_cons Q _ _ s rs [] (
    call_or_rule Q _ _ _ rs _ (tt, inl refl) (λ r bad. (tt, inl refl))
      (λ r rs' lt there. tail_rule Q _ (
        send_stdin_rule (result s) short tt (opened s []) Q pure (λ e log h. h)
          (λ rs'' log q held. (q, held)) rs' _ refl refl)))
  where
    short : Stop Call
    short = fatal "failed write"

    Q : Outcome Call (Unit {0}) → Type 0
    Q = ClientPost (result s) short (opened s [])

-- The stream clients of both domains, whatever the answer `s` to the first call and `rs` to the
-- others: a client that returns has sent all that it read from standard input, in order; that of the
-- internet domain then holds no socket, that of the unix domain still holds the one of `s`, which it
-- does not close. Where a client stands or ends otherwise, at most the bytes of a write that is not
-- answered yet or was short are missing.
pub stream_clients_relay :
    (s : Reply) (rs : List Reply)
    → ClientPost (result s) (fatal "write()") [] (socket_inet_domain_stream_client (s ∷ rs) [])
      × ClientPost
          (result s)
          (fatal "failed write")
          (opened s [])
          (socket_unix_domain_stream_client (s ∷ rs) [])
stream_clients_relay s rs = (inet_client_relays s rs, unix_client_relays s rs)
