-- ===== src/Posix/Rules.antt =====
-- Rules for what a process does after a call, for every answer to it.
use linuxapi.Base.{
  ◌<◌, ◌≡◌, Bool, true, false, Bool-cases, inl, inr, List, [], ◌∷◌, length, refl, arith,
}
use linuxapi.Posix.{
  Reply, ev, Trace, failed, Stop, blocked, Outcome, ret, stop, Sys, then_run, pure, ◌>>=◌, call,
  call_or, guard,
}

module _ {C A B : Type 0} (P : Outcome C A → Type 0) (Q : Outcome C B → Type 0) where
  pub bind_rule :
      (o : Outcome C A) (k : A → Sys C B)
      → P o
      → ((a : A) (rs : List Reply) (log : Trace C) → P (ret a rs log) → Q (k a rs log))
      → ((e : Stop C) (log : Trace C) → P (stop e log) → Q (stop e log))
      → Q (then_run o k)
  bind_rule (ret a rs log) k p step end = step a rs log p
  bind_rule (stop e log) k p step end = end e log p

module _ {C B : Type 0} (Q : Outcome C B → Type 0) where
  pub call_rule :
      (c : C) (k : Reply → Sys C B) (rs : List Reply) (log : Trace C)
      → Q (stop (blocked c) log)
      → ((r : Reply) (rs' : List Reply) → length rs' < length rs → Q (k r rs' (ev c r ∷ log)))
      → Q ((call c >>= k) rs log)
  unfolding call
  call_rule c k [] log pending step = pending
  call_rule c k (r ∷ rs) log pending step = step r rs (omega arith)

  pub call_or_rule :
      (c : C) (e : Stop C) (k : Reply → Sys C B) (rs : List Reply) (log : Trace C)
      → Q (stop (blocked c) log)
      → ((r : Reply) → failed r ≡ true → Q (stop e (ev c r ∷ log)))
      → ((r : Reply) (rs' : List Reply)
          → length rs' < length rs
          → failed r ≡ false
          → Q (k r rs' (ev c r ∷ log)))
      → Q ((call_or c e >>= k) rs log)
  unfolding call_or
  call_or_rule c e k [] log pending bad good = pending
  call_or_rule c e k (r ∷ rs) log pending bad good = elim (Bool-cases (failed r)) [
    | inl f ↦ rw f (bad r f)
    | inr t ↦ rw t (good r rs (omega arith) t)
  ]

  pub guard_rule :
      (test : Bool) (e : Stop C) (k : Unit {0} → Sys C B) (rs : List Reply) (log : Trace C)
      → (test ≡ true → Q (stop e log))
      → (test ≡ false → Q (k tt rs log))
      → Q ((guard test e >>= k) rs log)
  unfolding guard
  guard_rule true e k rs log bad good = bad refl
  guard_rule false e k rs log bad good = good refl

  pub call_cons :
      (c : C) (k : Reply → Sys C B) (r : Reply) (rs : List Reply) (log : Trace C)
      → Q (k r rs (ev c r ∷ log))
      → Q ((call c >>= k) (r ∷ rs) log)
  unfolding call
  call_cons c k r rs log h = h

  -- A last action is followed by nothing.
  pub tail_rule : (o : Outcome C B) → Q (then_run o pure) → Q o
  tail_rule (ret a rs log) h = h
  tail_rule (stop e log) h = h
