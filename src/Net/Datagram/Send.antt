-- ===== src/Net/Datagram/Send.antt =====
-- The rule for `send_back`.
use linuxapi.Base.{
  ◌<◌, ℤ, ◌==ℤ◌, ◌≡◌, true, false, List, [], ◌∷◌, length, Bool-cases, inl, inr, arith,
}
use linuxapi.Posix.{
  Reply, result, payload, ev, Trace, blocked, err_exit, Outcome, stop, Sys, ◌>>=◌, call, guard,
}
use linuxapi.Net.{Call, Addr, sendto}
use linuxapi.Net.Datagram.{send_back}

pub send_back_rule :
    {B : Type 0} (Q : Outcome Call B → Type 0) (fd : ℤ) (r : Reply) (to : Addr)
    (next : Unit {0} → Sys Call B) (rs : List Reply) (log : Trace Call)
    → Q (stop (blocked (sendto fd (payload r) (result r) to)) log)
    → ((sent : Reply)
        → (result sent ==ℤ result r) ≡ false
        → Q (stop (err_exit "sendto()") (ev (sendto fd (payload r) (result r) to) sent ∷ log)))
    → ((sent : Reply) (rs' : List Reply)
        → length rs' < length rs
        → (result sent ==ℤ result r) ≡ true
        → Q (next tt rs' (ev (sendto fd (payload r) (result r) to) sent ∷ log)))
    → Q ((send_back fd r to >>= next) rs log)
unfolding send_back call guard
send_back_rule Q fd r to next [] log pending bad good = pending
send_back_rule Q fd r to next (sent ∷ rs) log pending bad good =
    elim (Bool-cases (result sent ==ℤ result r)) [
      | inl e ↦ rw e (good sent rs (omega arith) e)
      | inr e ↦ rw e (bad sent e)
    ]
