-- ===== src/Net/Server/Relay.antt =====
-- What the stream servers deliver, and which sockets they hold when they wait.
use linuxapi.Base.{
  ℕ, ℤ, ◌≡◌, refl, false, inl, inr, List, [], ◌∷◌, ◌≤◌, ◌<◌, length, is_positive, ap, ◌∙◌, arith,
}
use linuxapi.Posix.{
  Reply, result, failed, Trace, Stop, blocked, err_exit, fatal, Outcome, ret, stop, pure, guard,
  ◌>>◌, call,
}
use linuxapi.Posix.Loop.{Next, again, Round, repeat, repeat_rule}
use linuxapi.Posix.Rules.{call_rule, call_or_rule, guard_rule, call_cons}
use linuxapi.Net.{Call, accept, close, stdout_fileno, buf_size}
use linuxapi.Net.Traffic.{open_fds}
use linuxapi.Posix.Held.{opened_lem, erase-head}
use linuxapi.Net.Copy.{InStep, Relayed, copy_rule}
use linuxapi.Net.Server.{
  serve_connection, inet_stream_round, unix_stream_round, socket_inet_domain_stream_server,
  socket_unix_domain_stream_server,
}

abbrev pub short_write : Stop Call
short_write = fatal "failed write"

-- A server that waits for a connection holds the socket on which it waits and no other.
abbrev pub Released : Stop Call → Trace Call → Type 0
Released (blocked (accept fd)) log = open_fds log ≡ fd ∷ []
Released _ log = Unit

-- A server never returns.
abbrev pub ServerPost : Outcome Call (Unit {0}) → Type 0
ServerPost (ret u rs log) = ⊥
ServerPost (stop e log) = Relayed stdout_fileno short_write e log × Released e log

module _ (server_fd : ℤ) where
  abbrev ServerInv : Unit {0} → List Reply → Trace Call → Type 0
  ServerInv _ rs log = InStep stdout_fileno log × (open_fds log ≡ server_fd ∷ [])

  abbrev Ended : ℕ → Outcome Call (Next (Unit {0}) (Unit {0})) → Type 0
  Ended n = Round ServerInv ServerPost n

  -- From an accepted connection to its `close`.
  serve_connection_lem :
      (n : ℕ) (client : Reply) (rs : List Reply) (log : Trace Call)
      → length rs < n
      → InStep stdout_fileno log
      → open_fds log ≡ result client ∷ server_fd ∷ []
      → Ended n (serve_connection client rs log)
  unfolding serve_connection
  serve_connection_lem n client rs log lt h k =
      copy_rule stdout_fileno short_write (λ l. open_fds l ≡ result client ∷ server_fd ∷ [])
        (result client) buf_size (λ r l q. q) (λ d r l q. q) (Ended n) _ rs log h k closing
        (λ l q held. ((tt, inl q), tt)) (λ d l q held. ((tt, inr (d, q, inr refl)), tt))
        (λ lost l q held. ((tt, inr (lost, q, inl refl)), tt))
    where
      closing :
          (r : Reply) (rs' : List Reply) (l : Trace Call)
          → InStep stdout_fileno l
          → open_fds l ≡ result client ∷ server_fd ∷ []
          → length rs' ≤ length rs
          → is_positive (result r) ≡ false
          → Ended n (
              (do
                guard (failed r) (err_exit "read()")
                call (close (result client))
                pure (again tt))
                rs' l)
      closing r rs' l q held le done =
          guard_rule (Ended n) (failed r) _ _ rs' l (λ bad. ((tt, inl q), tt))
            (λ good.
              call_rule (Ended n) (close (result client)) _ rs' l ((tt, inl q), tt)
                (λ c rs'' lt'.
                  ((q, rw (held, erase-head (result client) (server_fd ∷ []))), omega arith)))

  inet_stream_round_lem :
      (u : Unit {0}) (rs : List Reply) (log : Trace Call)
      → ServerInv u rs log
      → Ended (length rs) (inet_stream_round server_fd u rs log)
  unfolding inet_stream_round
  inet_stream_round_lem u rs log inv =
      call_or_rule (Ended (length rs)) (accept server_fd) _ _ rs log ((tt, inl inv.0), inv.1)
        (λ r bad. ((tt, inl inv.0), tt))
        (λ r rs' lt good.
          call_or_rule (Ended (length rs)) _ _ _ rs' _ ((tt, inl inv.0), tt)
            (λ h bad. ((tt, inl inv.0), tt))
            (λ h rs'' lt' named.
              serve_connection_lem (length rs) r rs'' _ (omega arith) inv.0
                (opened_lem r _ good ∙ ap (λ l. result r ∷ l) inv.1)))

  unix_stream_round_lem :
      (u : Unit {0}) (rs : List Reply) (log : Trace Call)
      → ServerInv u rs log
      → Ended (length rs) (unix_stream_round server_fd u rs log)
  unfolding unix_stream_round
  unix_stream_round_lem u rs log inv =
      call_or_rule (Ended (length rs)) (accept server_fd) _ _ rs log ((tt, inl inv.0), inv.1)
        (λ r bad. ((tt, inl inv.0), tt))
        (λ r rs' lt good.
          serve_connection_lem (length rs) r rs' _ lt inv.0
            (opened_lem r _ good ∙ ap (λ l. result r ∷ l) inv.1))

  pub inet_serve :
      (rs : List Reply) (log : Trace Call)
      → InStep stdout_fileno log
      → open_fds log ≡ server_fd ∷ []
      → ServerPost (repeat (inet_stream_round server_fd) tt rs log)
  inet_serve rs log q held =
      repeat_rule ServerInv ServerPost (inet_stream_round server_fd) inet_stream_round_lem tt rs log
        (q, held)

  pub unix_serve :
      (rs : List Reply) (log : Trace Call)
      → InStep stdout_fileno log
      → open_fds log ≡ server_fd ∷ []
      → ServerPost (repeat (unix_stream_round server_fd) tt rs log)
  unix_serve rs log q held =
      repeat_rule ServerInv ServerPost (unix_stream_round server_fd) unix_stream_round_lem tt rs log
        (q, held)

-- The internet-domain stream server never returns, whatever the kernel answers. Where it stands or
-- ends, the bytes that it has written to the terminal are all that it has read from its clients, in
-- order, but for those of a write that is not answered yet or was short. When it waits for the next
-- client it holds only the listening socket: every connection before has been closed.
pub inet_server_relays : (rs : List Reply) → ServerPost (socket_inet_domain_stream_server rs [])
unfolding socket_inet_domain_stream_server
inet_server_relays rs =
    call_or_rule ServerPost _ _ _ rs [] ((tt, inl refl), tt) (λ r bad. ((tt, inl refl), tt))
      (λ s rs' lt good.
        call_or_rule ServerPost _ _ _ rs' _ ((tt, inl refl), tt) (λ r bad. ((tt, inl refl), tt))
          (λ b rs'' lt' bound.
            call_or_rule ServerPost _ _ _ rs'' _ ((tt, inl refl), tt)
              (λ r bad. ((tt, inl refl), tt))
              (λ l rest lt'' heard. inet_serve (result s) rest _ refl (opened_lem s [] good))))

-- The unix-domain stream server, if its call of `socket`, whose result it does not test, succeeds,
-- never returns. Where it stands or ends, the bytes that it has written to the terminal are all
-- that it has read from its clients, in order, but for those of a write that is not answered yet or
-- was short. When it waits for the next client it holds only the listening socket.
pub unix_server_relays :
    (s : Reply) (rs : List Reply)
    → failed s ≡ false
    → ServerPost (socket_unix_domain_stream_server (s ∷ rs) [])
unfolding socket_unix_domain_stream_server
unix_server_relays s rs good = call_cons ServerPost _ _ s rs [] (
    call_rule ServerPost _ _ rs _ ((tt, inl refl), tt)
      (λ gone rs' lt.
        guard_rule ServerPost _ _ _ rs' _ (λ bad. ((tt, inl refl), tt))
          (λ fine.
            call_or_rule ServerPost _ _ _ rs' _ ((tt, inl refl), tt) (λ r bad. ((tt, inl refl), tt))
              (λ b rs'' lt' bound.
                call_or_rule ServerPost _ _ _ rs'' _ ((tt, inl refl), tt)
                  (λ r bad. ((tt, inl refl), tt))
                  (λ l rest lt'' heard.
                    unix_serve (result s) rest _ refl (opened_lem s [] good))))))
