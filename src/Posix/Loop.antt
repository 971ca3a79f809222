-- ===== src/Posix/Loop.antt =====
-- Loops of a process. Each round takes at least one answer of the kernel, so the number of answers
-- bounds the rounds: `repeat` has one unit of fuel more, and the rule shows that it is enough.
use linuxapi.Base.{ℕ, zero, suc, ◌<◌, List, length, arith}
use linuxapi.Posix.{Reply, Trace, starved, Outcome, ret, stop, Sys}

-- What one round says: go round again, or leave the loop.
pub data Next (S A : Type 0) : Type 0 where
  again : S → Next S A
  leave : A → Next S A

module _ {C S A : Type 0} where
  abbrev pub resume : (S → Sys C A) → Outcome C (Next S A) → Outcome C A
  resume k (ret (again s) rs log) = k s rs log
  resume k (ret (leave a) rs log) = ret a rs log
  resume k (stop e log) = stop e log

  unfoldable pub loop : ℕ → (S → Sys C (Next S A)) → S → Sys C A
  loop zero body s rs log = stop starved log
  loop (suc fuel) body s rs log = resume (λ s' rs' log'. loop fuel body s' rs' log') (body s rs log)

  -- `while`: `body` is the test and the body together.
  unfoldable pub repeat : (S → Sys C (Next S A)) → S → Sys C A
  unfolding loop
  repeat body s rs log = loop (suc (length rs)) body s rs log

  -- One round from a state with `n` answers left keeps `I` with fewer answers, or ends with `Q`.
  abbrev pub Round :
      (I : S → List Reply → Trace C → Type 0) (Q : Outcome C A → Type 0)
      → ℕ
      → Outcome C (Next S A)
      → Type 0
  Round I Q n (ret (again s) rs log) = I s rs log × (length rs < n)
  Round I Q n (ret (leave a) rs log) = Q (ret a rs log)
  Round I Q n (stop e log) = Q (stop e log)

  module _ (I : S → List Reply → Trace C → Type 0) (Q : Outcome C A → Type 0)
      (body : S → Sys C (Next S A))
      (round : (s : S) (rs : List Reply) (log : Trace C)
        → I s rs log
        → Round I Q (length rs) (body s rs log)) where
    resume-loop :
        (fuel n : ℕ) (o : Outcome C (Next S A))
        → ((s : S) (rs : List Reply) (log : Trace C)
            → length rs < fuel
            → I s rs log
            → Q (loop fuel body s rs log))
        → n < suc fuel
        → Round I Q n o
        → Q (resume (λ s' rs' log'. loop fuel body s' rs' log') o)
    resume-loop fuel n (ret (again s) rs log) ih lt r = ih s rs log (omega (arith, r.1)) r.0
    resume-loop fuel n (ret (leave a) rs log) ih lt r = r
    resume-loop fuel n (stop e log) ih lt r = r

    loop_rule :
        (fuel : ℕ) (s : S) (rs : List Reply) (log : Trace C)
        → length rs < fuel
        → I s rs log
        → Q (loop fuel body s rs log)
    unfolding loop
    loop_rule zero s rs log lt inv = absurd (omega arith)
    loop_rule (suc fuel) s rs log lt inv =
        resume-loop fuel (length rs) (body s rs log) (loop_rule fuel) lt (round s rs log inv)

    -- The invariant rule, with no fuel left in it.
    pub repeat_rule :
        (s : S) (rs : List Reply) (log : Trace C) → I s rs log → Q (repeat body s rs log)
    unfolding repeat
    repeat_rule s rs log inv = loop_rule (suc (length rs)) s rs log (omega arith) inv
