-- ===== src/Net/Echo/Parent.antt =====
-- Which sockets the parent of the echo server holds.
use linuxapi.Base.{
  Bool-cases, inl, inr, is_positive, ◌==ℤ◌, ℕ, zero, suc, ℤ, ◌≡◌, ap, ◌∙◌, ◌<◌, List, [], ◌∷◌,
  length, arith,
}
use linuxapi.Posix.{
  Reply, Stop, err_exit, pure, fail, val, chunk, chunk_from, result, ev, Trace, blocked, Outcome,
  ret, stop,
}
use linuxapi.Posix.Loop.{Next, Round, repeat_rule}
use linuxapi.Posix.Rules.{call_rule, call_or_rule, bind_rule, guard_rule, tail_rule}
use linuxapi.Net.Copy.{copy, copy_round}
use linuxapi.Net.{Call, accept, fork, buf_size}
use linuxapi.Net.Traffic.{open_fds}
use linuxapi.Posix.Held.{opened_lem, erase-head}
use linuxapi.Net.Echo.{echo, echo_by_fork, echo_round, serve_clients}

-- The process is no child: no `fork` has answered 0.
abbrev pub IsParent : Trace Call → Type 0
IsParent [] = Unit
IsParent (ev fork (val zero) ∷ log) = ⊥
IsParent (ev _ r ∷ log) = IsParent log

abbrev pub ParentPost : Outcome Call (Unit {0}) → Type 0
ParentPost (ret u rs log) = ⊥
ParentPost (stop (blocked (accept fd)) log) = IsParent log → open_fds log ≡ fd ∷ []
ParentPost (stop e log) = Unit

abbrev IsChild : Trace Call → Type 0
IsChild log = IsParent log → ⊥

child_stops : (e : Stop Call) (log : Trace Call) → IsChild log → ParentPost (stop e log)
child_stops (blocked (accept fd)) log child = λ p. absurd (child p)
child_stops e log child = tt

-- A child stays one in `echo`.
abbrev Stays : {A : Type 0} → ℕ → Outcome Call A → Type 0
Stays n (ret a rs log) = IsChild log × (length rs < n)
Stays n (stop e log) = IsChild log

abbrev StaysInv : ℕ → Unit {0} → List Reply → Trace Call → Type 0
StaysInv n u rs log = IsChild log × (length rs < n)

copy_round-Stays :
    (in_fd out : ℤ) (size n : ℕ) (short : Stop Call) (u : Unit {0}) (rs : List Reply)
    (log : Trace Call)
    → StaysInv n u rs log
    → Round (StaysInv n) (Stays n) (length rs) (copy_round in_fd out size short u rs log)
unfolding copy_round
copy_round-Stays in_fd out size n short u rs log h = call_rule Q _ _ rs log h.0 (λ r rs' lt.
    elim (Bool-cases (is_positive (result r))) [
      | inl more ↦ rw more (
          call_rule Q _ _ rs' _ h.0 (λ w rest lt'. elim (Bool-cases (result w ==ℤ result r)) [
            | inl full ↦ rw full ((h.0, omega (arith, h.1)), omega arith)
            | inr cut ↦ rw cut h.0
          ]))
      | inr done ↦ rw done (h.0, omega (arith, h.1))
    ])
  where
    Q : Outcome Call (Next (Unit {0}) Reply) → Type 0
    Q = Round (StaysInv n) (Stays n) (length rs)

echo-Stays :
    (cfd : ℤ) (n : ℕ) (rs : List Reply) (log : Trace Call)
    → IsChild log
    → length rs < n
    → Stays n (echo cfd rs log)
unfolding echo copy
echo-Stays cfd n rs log child lt =
    bind_rule (Stays n) (Stays n) _ _
      (repeat_rule (StaysInv n) (Stays n) (copy_round cfd cfd buf_size (err_exit "write()"))
        (copy_round-Stays cfd cfd buf_size n (err_exit "write()")) tt rs log (child, lt))
      (λ r rs' l p.
        tail_rule (Stays n) _ (guard_rule (Stays n) _ _ pure rs' l (λ bad. p.0) (λ fine. p)))
      (λ e l p. p)

module _ (listen_sock : ℤ) where
  abbrev Inv : Unit {0} → List Reply → Trace Call → Type 0
  Inv u rs log = IsParent log → open_fds log ≡ listen_sock ∷ []

  echo_by_fork_lem :
      (n : ℕ) (pid : Reply) (client : ℤ) (rs : List Reply) (log : Trace Call)
      → length rs < n
      → (IsParent log → open_fds log ≡ client ∷ listen_sock ∷ [])
      → Round Inv ParentPost n (echo_by_fork pid listen_sock client rs (ev fork pid ∷ log))
  unfolding echo_by_fork
  echo_by_fork_lem n (fail e) client rs log lt h =
      call_rule (Round Inv ParentPost n) _ _ rs _ tt (λ c rs' lt'. tt)
  echo_by_fork_lem n (val zero) client rs log lt h =
      call_rule (Round Inv ParentPost n) _ _ rs _ tt (λ c rs' lt'.
        bind_rule (Stays n) (Round Inv ParentPost n) _ _
          (echo-Stays client n rs' _ (λ p. p) (omega arith))
          (λ u rest l p. ((λ q. absurd (p.0 q)), p.1)) (λ e l p. child_stops e l p))
  echo_by_fork_lem n (val (suc pid)) client rs log lt h =
      call_rule (Round Inv ParentPost n) _ _ rs _ tt
        (λ c rs' lt'. ((λ p. rw (h p) (erase-head client _)), omega arith))
  echo_by_fork_lem n (chunk d) client rs log lt h =
      call_rule (Round Inv ParentPost n) _ _ rs _ tt
        (λ c rs' lt'. ((λ p. rw (h p) (erase-head client _)), omega arith))
  echo_by_fork_lem n (chunk_from p d) client rs log lt h =
      call_rule (Round Inv ParentPost n) _ _ rs _ tt
        (λ c rs' lt'. ((λ p. rw (h p) (erase-head client _)), omega arith))

  echo_round_lem :
      (u : Unit {0}) (rs : List Reply) (log : Trace Call)
      → Inv u rs log
      → Round Inv ParentPost (length rs) (echo_round listen_sock u rs log)
  unfolding echo_round
  echo_round_lem u rs log h =
      call_or_rule (Round Inv ParentPost (length rs)) _ _ _ rs log h (λ r bad. tt)
        (λ r rs' lt good. call_rule (Round Inv ParentPost (length rs)) _ _ rs' _ tt (λ pid rest lt'.
          echo_by_fork_lem (length rs) pid (result r) rest _ (omega arith)
            (λ p. opened_lem r _ good ∙ ap (λ l. result r ∷ l) (h p))))

-- The loop of the echo server, entered with the listening socket `listen_sock` as the only open
-- one, never returns, whatever the kernel answers. When a parent waits for the next client, it
-- holds the listening socket and no other, however many clients it has handed to children.
pub parent_holds :
    (listen_sock : ℤ) (rs : List Reply) (log : Trace Call)
    → open_fds log ≡ listen_sock ∷ []
    → ParentPost (serve_clients listen_sock rs log)
unfolding serve_clients
parent_holds listen_sock rs log h =
    repeat_rule (Inv listen_sock) ParentPost (echo_round listen_sock) (echo_round_lem listen_sock)
      tt rs log (λ p. h)
