-- ===== src/Net/Echo/Client.antt =====
-- What the two processes of the echo client pass on.
use linuxapi.Base.{
  ℕ, ℤ, is_positive, ◌≡◌, refl, sym, ap, false, Bool-cases, inl, inr, List, [], ◌∷◌, ◌++◌,
  append-nil, length, arith,
}
use linuxapi.Posix.{
  Reply, fail, val, chunk, chunk_from, result, payload, ev, Trace, blocked, err_exit, overrun,
  Outcome, ret, stop,
}
use linuxapi.Posix.Loop.{Round, repeat_rule}
use linuxapi.Posix.Rules.{call_rule, call_or_rule, guard_rule}
use linuxapi.Net.{Call, printf, shutdown, stdin_fileno, buf_size}
use linuxapi.Net.Traffic.{received}
use linuxapi.Net.Copy.{InStep, Relayed, copy_rule}
use linuxapi.Net.Echo.{print_round, echo_client_child, echo_client_parent}

abbrev pub ClientParentPost : ℤ → Outcome Call (Unit {0}) → Type 0
ClientParentPost fd (ret u rs log) =
    InStep fd log × ((r : Reply) × (before : Trace Call) × (log ≡ ev (shutdown fd) r ∷ before))
ClientParentPost fd (stop e log) = Relayed fd (err_exit "write()") e log

-- The parent of the echo client, whatever the kernel answers, if it starts in step with the socket:
-- if it returns, it has sent to the socket all that it read from standard input, in order, and its
-- last call has shut the socket down for writing. Where it stands or ends otherwise, at most the
-- bytes of a write that is not answered yet or was short are missing.
pub echo_client_sends :
    (fd : ℤ) (rs : List Reply) (log : Trace Call)
    → InStep fd log
    → ClientParentPost fd (echo_client_parent fd rs log)
unfolding echo_client_parent
echo_client_sends fd rs log h =
    copy_rule fd (err_exit "write()") (λ l. Unit {0}) stdin_fileno buf_size (λ r l q. tt)
      (λ d r l q. tt) (ClientParentPost fd) _ rs log h tt
      (λ r rs' l q held le eof.
        call_or_rule (ClientParentPost fd) _ _ _ rs' l (tt, inl q) (λ s bad. (tt, inl q))
          (λ s rest lt shut. (q, (s, l, refl))))
      (λ l q held. (tt, inl q)) (λ d l q held. (tt, inr (d, q, inr refl)))
      (λ lost l q held. (tt, inr (lost, q, inl refl)))

-- What the child has handed to `printf`, in order.
abbrev pub printed : Trace Call → List ℕ
printed [] = []
printed (ev (printf form d) r ∷ log) = printed log ++ d
printed (ev _ r ∷ log) = printed log

-- Everything is printed, but for an answer that fills the buffer, at which the child goes wrong.
abbrev pub Printed : Outcome Call (Unit {0}) → Type 0
Printed (ret u rs log) = printed log ≡ received log
Printed (stop overrun log) = (lost : List ℕ) × (received log ≡ printed log ++ lost)
Printed (stop (blocked c) log) = printed log ≡ received log
Printed (stop e log) = ⊥

module _ (fd : ℤ) where
  abbrev Inv : Unit {0} → List Reply → Trace Call → Type 0
  Inv u rs log = printed log ≡ received log

  payload_of_end : (r : Reply) → is_positive (result r) ≡ false → payload r ≡ []
  payload_of_end (fail e) h = refl
  payload_of_end (val n) h = refl
  payload_of_end (chunk []) h = refl
  payload_of_end (chunk (x ∷ d)) h = absurd (ground arith)
  payload_of_end (chunk_from p []) h = refl
  payload_of_end (chunk_from p (x ∷ d)) h = absurd (ground arith)

  print_round_lem :
      (u : Unit {0}) (rs : List Reply) (log : Trace Call)
      → Inv u rs log
      → Round Inv Printed (length rs) (print_round fd u rs log)
  unfolding print_round
  print_round_lem u rs log h = call_rule (Round Inv Printed (length rs)) _ _ rs log h (λ r rs' lt.
      elim (Bool-cases (is_positive (result r))) [
        | inl more ↦ rw more (
            guard_rule (Round Inv Printed (length rs)) _ _ _ rs' _
              (λ big. (payload r, ap (λ l. l ++ payload r) (sym h)))
              (λ small. (ap (λ l. l ++ payload r) h, lt)))
        | inr done ↦ rw done (rw (payload_of_end r done, append-nil) h)
      ])

-- The child of the echo client, whatever the kernel answers, if it starts with nothing read that is
-- not printed: if it returns, or waits for the socket, it has printed all bytes that it has
-- read, in order. It ends otherwise only by a store outside its buffer.
pub echo_client_prints :
    (fd : ℤ) (rs : List Reply) (log : Trace Call)
    → printed log ≡ received log
    → Printed (echo_client_child fd rs log)
unfolding echo_client_child
echo_client_prints fd rs log h =
    repeat_rule (Inv fd) Printed (print_round fd) (print_round_lem fd) tt rs log h
