-- ===== src/Net/Datagram/Loopback.antt =====
-- What the datagram servers send back.
use linuxapi.Base.{
  ℕ, ℤ, ◌==ℤ◌, ◌≡◌, ◌⊎◌, refl, sym, ◌∙◌, true, false, inl, inr, List, [], ◌∷◌, length, ◌<◌,
  if◌then◌else◌, arith,
}
use linuxapi.Posix.{
  Reply, result, payload, sender, failed, ev, Trace, Outcome, ret, stop, pure, ◌>>◌,
}
use linuxapi.Posix.Loop.{again, Round, repeat, repeat_rule}
use linuxapi.Posix.Rules.{call_rule, call_or_rule, guard_rule}
use linuxapi.Net.{Call, Addr, sender_of, recvfrom, sendto, buf_size}
use linuxapi.Net.Datagram.{
  send_back, inet_datagram_round, unix_datagram_round, socket_inet_domain_datagram_server,
  socket_unix_domain_datagram_server, socket_inet_domain_datagram_client,
}
use linuxapi.Net.Datagram.Overrun.{OverrunPost, inet_client_overruns}
use linuxapi.Net.Datagram.Send.{send_back_rule}

-- The datagrams that have come in, and those that were sent in full, with the address of the other
-- side; the newest first.
abbrev pub came : Trace Call → List (Addr × List ℕ)
came [] = []
came (ev (recvfrom fd n) r ∷ log) =
    if failed r then came log else (sender_of (sender r), payload r) ∷ came log
came (ev _ r ∷ log) = came log

abbrev pub went : Trace Call → List (Addr × List ℕ)
went [] = []
went (ev (sendto fd d size to) r ∷ log) = if result r ==ℤ size then (to, d) ∷ went log else went log
went (ev _ r ∷ log) = went log

-- A server never returns. All datagrams have gone back to their senders, but at most the last one.
abbrev pub LoopbackPost : Outcome Call (Unit {0}) → Type 0
LoopbackPost (ret u rs log) = ⊥
LoopbackPost (stop e log) =
    (went log ≡ came log) ⊎ ((last : Addr × List ℕ) × (came log ≡ last ∷ went log))

module _ (server_fd : ℤ) where
  abbrev Inv : Unit {0} → List Reply → Trace Call → Type 0
  Inv u rs log = went log ≡ came log

  came-recvfrom :
      (r : Reply) (log : Trace Call)
      → failed r ≡ false
      → came (ev (recvfrom server_fd buf_size) r ∷ log)
        ≡ (sender_of (sender r), payload r) ∷ came log
  came-recvfrom r log good = rw good

  came-failed :
      (r : Reply) (log : Trace Call)
      → failed r ≡ true
      → came (ev (recvfrom server_fd buf_size) r ∷ log) ≡ came log
  came-failed r log bad = rw bad

  -- One datagram of `r` has come in and not gone back yet.
  abbrev Owes : Reply → Trace Call → Type 0
  Owes r log = came log ≡ (sender_of (sender r), payload r) ∷ went log

  Owes-after :
      (r : Reply) (log : Trace Call)
      → failed r ≡ false
      → went log ≡ came log
      → Owes r (ev (recvfrom server_fd buf_size) r ∷ log)
  Owes-after r log good h = rw (came-recvfrom r log good, h) refl

  answer_lem :
      (n : ℕ) (r : Reply) (rs : List Reply) (log : Trace Call)
      → length rs < n
      → Owes r log
      → Round Inv LoopbackPost n
          ((do send_back server_fd r (sender_of (sender r)); pure (again tt)) rs log)
  answer_lem n r rs log lt h =
      send_back_rule (Round Inv LoopbackPost n) server_fd r (sender_of (sender r)) _ rs log
        (inr (_, h)) (λ sent short. inr ((sender_of (sender r), payload r), rw short h))
        (λ sent rs' lt' full. (rw full (sym h), omega arith))

  inet_round_lem :
      (u : Unit {0}) (rs : List Reply) (log : Trace Call)
      → Inv u rs log
      → Round Inv LoopbackPost (length rs) (inet_datagram_round server_fd u rs log)
  unfolding inet_datagram_round
  inet_round_lem u rs log h =
      call_or_rule (Round Inv LoopbackPost (length rs)) _ _ _ rs log (inl h)
        (λ r bad. inl (h ∙ sym (came-failed r log bad)))
        (λ r rs' lt good.
          call_or_rule (Round Inv LoopbackPost (length rs)) _ _ _ rs' _
            (inr (_, Owes-after r log good h)) (λ e bad. inr (_, Owes-after r log good h))
            (λ host rs'' lt' named.
              answer_lem (length rs) r rs'' _ (omega arith) (Owes-after r log good h)))

  unix_round_lem :
      (u : Unit {0}) (rs : List Reply) (log : Trace Call)
      → Inv u rs log
      → Round Inv LoopbackPost (length rs) (unix_datagram_round server_fd u rs log)
  unfolding unix_datagram_round
  unix_round_lem u rs log h =
      call_or_rule (Round Inv LoopbackPost (length rs)) _ _ _ rs log (inl h)
        (λ r bad. inl (h ∙ sym (came-failed r log bad)))
        (λ r rs' lt good. answer_lem (length rs) r rs' _ lt (Owes-after r log good h))

  inet_loopback :
      (rs : List Reply) (log : Trace Call)
      → went log ≡ came log
      → LoopbackPost (repeat (inet_datagram_round server_fd) tt rs log)
  inet_loopback rs log h =
      repeat_rule Inv LoopbackPost (inet_datagram_round server_fd) inet_round_lem tt rs log h

  unix_loopback :
      (rs : List Reply) (log : Trace Call)
      → went log ≡ came log
      → LoopbackPost (repeat (unix_datagram_round server_fd) tt rs log)
  unix_loopback rs log h =
      repeat_rule Inv LoopbackPost (unix_datagram_round server_fd) unix_round_lem tt rs log h

-- The internet-domain datagram server never returns, whatever the kernel answers. Every datagram
-- that has come in has gone back in full to the address that it came from, in the same order; only
-- the last one may still be on its way or have failed.
pub inet_datagrams_return :
    (rs : List Reply) → LoopbackPost (socket_inet_domain_datagram_server rs [])
unfolding socket_inet_domain_datagram_server
inet_datagrams_return rs =
    call_or_rule LoopbackPost _ _ _ rs [] (inl refl) (λ r bad. inl refl)
      (λ s rs' lt good.
        call_or_rule LoopbackPost _ _ _ rs' _ (inl refl) (λ r bad. inl refl)
          (λ b rest lt' bound. inet_loopback (result s) rest _ refl))

-- The unix-domain datagram server never returns, whatever the kernel answers. Every datagram that
-- has come in has gone back in full to the address that it came from, in the same order; only the
-- last one may still be on its way or have failed.
pub unix_datagrams_return :
    (rs : List Reply) → LoopbackPost (socket_unix_domain_datagram_server rs [])
unfolding socket_unix_domain_datagram_server
unix_datagrams_return rs =
    call_or_rule LoopbackPost _ _ _ rs [] (inl refl) (λ r bad. inl refl)
      (λ s rs' lt good. call_rule LoopbackPost _ _ rs' _ (inl refl) (λ removed rs'' lt'.
        guard_rule LoopbackPost _ _ _ rs'' _ (λ bad. inl refl)
          (λ fine.
            call_or_rule LoopbackPost _ _ _ rs'' _ (inl refl) (λ r bad. inl refl)
              (λ b rest lt'' bound. unix_loopback (result s) rest _ refl))))

-- The datagram servers of both domains never return, whatever the kernel answers. Every datagram that
-- has come in has gone back in full to the address that it came from, in the same order; only the
-- last one may still be on its way or have failed.
pub datagrams_return :
    (rs : List Reply)
    → LoopbackPost (socket_inet_domain_datagram_server rs [])
      × LoopbackPost (socket_unix_domain_datagram_server rs [])
datagrams_return rs = (inet_datagrams_return rs, unix_datagrams_return rs)

-- The datagram servers of both domains never return, whatever the kernel answers. Every datagram that
-- has come in has gone back in full to the address that it came from, in the same order; only the
-- last one may still be on its way or have failed. The client of the internet domain never returns
-- either, and stores outside its buffer only after a datagram of at least `BUF_SIZE` bytes.
pub datagrams_handled :
    (rs : List Reply)
    → LoopbackPost (socket_inet_domain_datagram_server rs [])
      × LoopbackPost (socket_unix_domain_datagram_server rs [])
      × OverrunPost (socket_inet_domain_datagram_client rs [])
datagrams_handled rs = let back = datagrams_return rs in (back.0, back.1, inet_client_overruns rs)
