-- ===== src/Popen/Count.antt =====
-- The printed count and the lines.
use linuxapi.Base.{
  ℕ, ◌≡◌, refl, ap, inl, inr, Bool-cases, List, [], ◌∷◌, length, if◌then◌else◌, arith,
}
use linuxapi.Posix.{
  Reply, payload, failed, ev, Trace, Stop, blocked, starved, exited, Outcome, ret, stop,
}
use linuxapi.Posix.Loop.{Round, repeat_rule}
use linuxapi.Posix.Rules.{bind_rule, call_rule, call_or_rule}
use linuxapi.Popen.{Call, fgets, print_line, print_count, line_round, ipc_pipe_popen}

-- The lines that the command has given, those shown, and the counts shown; the newest first.
abbrev pub lines : Trace Call → List (List ℕ)
lines [] = []
lines (ev fgets r ∷ log) = if failed r then lines log else payload r ∷ lines log
lines (ev _ r ∷ log) = lines log

abbrev pub shown : Trace Call → List (List ℕ)
shown [] = []
shown (ev (print_line d) r ∷ log) = d ∷ shown log
shown (ev _ r ∷ log) = shown log

abbrev pub counts : Trace Call → List ℕ
counts [] = []
counts (ev (print_count n) r ∷ log) = n ∷ counts log
counts (ev _ r ∷ log) = counts log

abbrev pub CountPost : Outcome Call (Unit {0}) → Type 0
CountPost (ret u rs log) = ⊥
CountPost (stop (exited n) log) =
    (n ≡ 0) × (shown log ≡ lines log) × (counts log ≡ length (lines log) ∷ [])
CountPost (stop starved log) = ⊥
CountPost (stop e log) = (shown log ≡ lines log) × (counts log ≡ [])

abbrev Inv : ℕ → List Reply → Trace Call → Type 0
Inv n rs log = (shown log ≡ lines log) × (n ≡ length (lines log)) × (counts log ≡ [])

abbrev Counted : Outcome Call ℕ → Type 0
Counted (ret n rs log) = Inv n rs log
Counted (stop (blocked c) log) = (shown log ≡ lines log) × (counts log ≡ [])
Counted (stop e log) = ⊥

counted : (e : Stop Call) (log : Trace Call) → Counted (stop e log) → CountPost (stop e log)
counted (blocked c) log h = h
counted starved log h = h
counted e log h = absurd h

line_round_lem :
    (n : ℕ) (rs : List Reply) (log : Trace Call)
    → Inv n rs log
    → Round Inv Counted (length rs) (line_round n rs log)
unfolding line_round
line_round_lem n rs log h =
    call_rule (Round Inv Counted (length rs)) _ _ rs log (h.0, h.2)
      (λ r rest lt. elim (Bool-cases (failed r)) [
        | inl over ↦ rw over (rw over h.0, rw over h.1, h.2)
        | inr more ↦
            rw more ((rw more (ap (λ l. payload r ∷ l) h.0), rw more (omega (arith, h.1)), h.2), lt)
      ])

-- `ipc_pipe_popen`, whatever the kernel answers, never returns. If it exits, its status is 0, it has
-- shown all lines of the command in order, and the one count that it has printed is their number.
-- Where it waits or ends otherwise, it has shown all lines so far and printed no count.
pub popen_counts : (rs : List Reply) → CountPost (ipc_pipe_popen rs [])
unfolding ipc_pipe_popen
popen_counts rs =
    call_or_rule CountPost _ _ _ rs [] (refl, refl) (λ r bad. (refl, refl))
      (λ fp rs1 lt good.
        bind_rule Counted CountPost _ _
          (repeat_rule Inv Counted line_round line_round_lem 0 rs1 _ (refl, refl, refl))
          (λ n rs2 log h.
            call_rule CountPost _ _ rs2 log (h.0, h.2)
              (λ status rs3 lt3. (refl, h.0, rw (h.1, h.2) refl)))
          counted)
