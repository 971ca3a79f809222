-- ===== src/Net/Echo/Replies.antt =====
-- What `echo` sends back.
use linuxapi.Base.{ℤ, refl, inl, inr, List}
use linuxapi.Posix.{Reply, Trace, err_exit, Outcome, ret, stop, pure}
use linuxapi.Posix.Rules.{guard_rule, tail_rule}
use linuxapi.Net.{Call, buf_size}
use linuxapi.Net.Copy.{InStep, Relayed, copy_rule}
use linuxapi.Net.Echo.{echo}

abbrev pub EchoPost : ℤ → Outcome Call (Unit {0}) → Type 0
EchoPost cfd (ret u rs log) = InStep cfd log
EchoPost cfd (stop e log) = Relayed cfd (err_exit "write()") e log

-- `echo`, whatever the kernel answers, if it starts in step with the client `cfd`: if it returns, it
-- has sent back to `cfd` all bytes that it read, in order. Where it stands or ends otherwise, at
-- most the bytes of a write that is not answered yet or was short are missing.
pub echo_replies :
    (cfd : ℤ) (rs : List Reply) (log : Trace Call) → InStep cfd log → EchoPost cfd (echo cfd rs log)
unfolding echo
echo_replies cfd rs log h =
    copy_rule cfd (err_exit "write()") (λ l. Unit {0}) cfd buf_size (λ r l q. tt) (λ d r l q. tt)
      (EchoPost cfd) _ rs log h tt
      (λ r rs' l q held le eof.
        tail_rule (EchoPost cfd) _
          (guard_rule (EchoPost cfd) _ _ pure rs' l (λ bad. (tt, inl q)) (λ fine. q)))
      (λ l q held. (tt, inl q)) (λ d l q held. (tt, inr (d, q, inr refl)))
      (λ lost l q held. (tt, inr (lost, q, inl refl)))
