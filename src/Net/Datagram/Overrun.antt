-- ===== src/Net/Datagram/Overrun.antt =====
-- When a datagram client stores outside its buffer.
use linuxapi.Base.{ℕ, ℤ, ◌==ℤ◌, ◌≡◌, refl, true, false, List, [], ◌∷◌, length, ◌≤◌, arith}
use linuxapi.Posix.{
  Reply, chunk, result, count, failed, ev, Trace, overrun, Outcome, ret, stop, payload, call,
  call_or, guard,
}
use linuxapi.Posix.Loop.{Next, Round, repeat, repeat_rule}
use linuxapi.Posix.Rules.{call_rule, call_or_rule, guard_rule}
use linuxapi.Net.Datagram.Send.{send_back_rule}
use linuxapi.Net.{Call, Addr, read, recvfrom, sendto, stdin_fileno, buf_size}
use linuxapi.Net.Datagram.{send_back, datagram_client_round, socket_inet_domain_datagram_client}

-- A process stops by an overrun only after a datagram that fills the buffer.
abbrev pub OverrunPost : Outcome Call (Unit {0}) → Type 0
OverrunPost (ret u rs log) = ⊥
OverrunPost (stop overrun log) =
    (fd : ℤ) × (r : Reply) × (before : Trace Call) × (log ≡ ev (recvfrom fd buf_size) r ∷ before)
    × (buf_size ≤ count r)
OverrunPost (stop e log) = Unit

module _ (socket_fd : ℤ) (server_addr : Addr) where
  abbrev Inv : Unit {0} → List Reply → Trace Call → Type 0
  Inv u rs log = Unit {0}

  client_round_lem :
      (u : Unit {0}) (rs : List Reply) (log : Trace Call)
      → Inv u rs log
      → Round Inv OverrunPost (length rs) (datagram_client_round socket_fd server_addr u rs log)
  unfolding datagram_client_round send_back
  client_round_lem u rs log inv =
      call_or_rule Q _ _ _ rs log tt (λ r bad. tt)
        (λ r rs' lt good.
          send_back_rule Q socket_fd r server_addr _ rs' _ tt (λ sent bad. tt)
            (λ sent rs'' lt' full.
              call_or_rule Q _ _ _ rs'' _ tt (λ b bad. tt)
                (λ back rest lt'' came.
                  guard_rule Q _ _ _ rest _ (λ big. (socket_fd, back, _, refl, ground arith))
                    (λ small. (tt, omega arith)))))
    where
      Q : Outcome Call (Next (Unit {0}) (Unit {0})) → Type 0
      Q = Round Inv OverrunPost (length rs)

  client_overruns :
      (rs : List Reply) (log : Trace Call)
      → OverrunPost (repeat (datagram_client_round socket_fd server_addr) tt rs log)
  client_overruns rs log =
      repeat_rule Inv OverrunPost (datagram_client_round socket_fd server_addr) client_round_lem tt
        rs log tt

  -- A datagram that fills the buffer is terminated outside it.
  full_datagram :
      (r sent : Reply) (d : List ℕ) (rs : List Reply) (log : Trace Call)
      → failed r ≡ false
      → (result sent ==ℤ result r) ≡ true
      → length d ≡ buf_size
      → datagram_client_round socket_fd server_addr tt (r ∷ sent ∷ chunk d ∷ rs) log
        ≡ stop overrun (
            ev (recvfrom socket_fd buf_size) (chunk d)
            ∷ ev (sendto socket_fd (payload r) (result r) server_addr) sent
            ∷ ev (read stdin_fileno buf_size) r
            ∷ log)
  unfolding datagram_client_round send_back call call_or guard
  full_datagram r sent d rs log good full big = rw (good, full) (rw big refl)

-- The internet-domain datagram client stores outside its buffer only after a datagram of at least
-- `BUF_SIZE` bytes, and it never returns.
pub inet_client_overruns :
    (rs : List Reply) → OverrunPost (socket_inet_domain_datagram_client rs [])
unfolding socket_inet_domain_datagram_client
inet_client_overruns rs =
    call_or_rule OverrunPost _ _ _ rs [] tt (λ r bad. tt)
      (λ s rs' lt good. call_rule OverrunPost _ _ rs' _ tt (λ host rs'' lt'.
        guard_rule OverrunPost _ _ _ rs'' _ (λ bad. tt)
          (λ fine. client_overruns (result s) _ rs'' _)))
