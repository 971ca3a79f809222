-- ===== src/Fifo/Requests.antt =====
-- What the server prints of what it reads.
use linuxapi.Base.{
  ℕ, ℤ, pos, ◌<◌, ◌≡◌, refl, inl, inr, ◌==ℤ◌, Bool, true, false, ◌&&◌, Bool-cases, Option, none,
  some, List, [], ◌∷◌, ◌++◌, length, if◌then◌else◌,
}
use linuxapi.Posix.{
  Reply, result, payload, failed, LastFailed, ev, Trace, blocked, err_exit, overrun, Outcome, ret,
  stop,
}
use linuxapi.Posix.Loop.{Round, repeat_rule}
use linuxapi.Posix.Rules.{call_rule, call_or_rule, guard_rule}
use linuxapi.Fifo.{
  Line, error_reading, Call, read, print, sizeof_request, request_line, print_line, serve_round,
  ipc_fifo_server,
}

-- What is printed, in order
abbrev pub printed : Trace Call → List (Option Line)
printed [] = []
printed (ev (print l) r ∷ log) = printed log ++ (some l ∷ [])
printed (ev _ r ∷ log) = printed log

-- What is to be printed of an answer to `read`
abbrev pub line_of : Reply → Option Line
line_of r = if result r ==ℤ pos sizeof_request then request_line (payload r) else some error_reading

abbrev pub due : Trace Call → List (Option Line)
due [] = []
due (ev (read fd n) r ∷ log) = due log ++ (line_of r ∷ [])
due (ev _ r ∷ log) = due log

-- Where the server leaves the message, that of the last request has no NUL.
abbrev pub FifoPost : Outcome Call (Unit {0}) → Type 0
FifoPost (ret u rs log) = ⊥
FifoPost (stop (blocked c) log) = printed log ≡ due log
FifoPost (stop (err_exit m) log) = LastFailed log × (printed log ≡ []) × (due log ≡ [])
FifoPost (stop overrun log) = due log ≡ printed log ++ (none ∷ [])
FifoPost (stop e log) = ⊥

abbrev Inv : Unit {0} → List Reply → Trace Call → Type 0
Inv u rs log = printed log ≡ due log

print_line_lem :
    (fd : ℤ) (n : ℕ) (o : Option Line) (r : Reply) (rs : List Reply) (log : Trace Call)
    → length rs < n
    → line_of r ≡ o
    → printed log ≡ due log
    → Round Inv FifoPost n (print_line o rs (ev (read fd sizeof_request) r ∷ log))
unfolding print_line
print_line_lem fd n none r rs log lt e h = rw (e, h) refl
print_line_lem fd n (some l) r rs log lt e h = (rw (e, h) refl, lt)

serve_round_lem :
    (fd : ℤ) (u : Unit {0}) (rs : List Reply) (log : Trace Call)
    → Inv u rs log
    → Round Inv FifoPost (length rs) (serve_round fd u rs log)
unfolding serve_round
serve_round_lem fd u rs log h =
    call_rule (Round Inv FifoPost (length rs)) _ _ rs log h (λ r rest lt.
      elim (Bool-cases (result r ==ℤ pos sizeof_request)) [
        | inl full ↦ rw full (print_line_lem fd (length rs) _ r rest log lt (rw full refl) h)
        | inr short ↦ rw short (print_line_lem fd (length rs) _ r rest log lt (rw short refl) h)
      ])

and_left : (a b : Bool) → (a && b) ≡ true → a ≡ true
and_left true b h = refl
and_left false b h = h

pub server_lem : (rs : List Reply) → FifoPost (ipc_fifo_server rs [])
unfolding ipc_fifo_server
server_lem rs = call_rule FifoPost _ _ rs [] refl (λ m rs1 lt1.
    guard_rule FifoPost _ _ _ rs1 _ (λ bad. (and_left (failed m) _ bad, refl, refl))
      (λ fine.
        call_or_rule FifoPost _ _ _ rs1 _ refl (λ r bad. (bad, refl, refl))
          (λ fd rs2 lt2 opened.
            call_or_rule FifoPost _ _ _ rs2 _ refl (λ r bad. (bad, refl, refl))
              (λ d rs3 lt3 kept.
                repeat_rule Inv FifoPost (serve_round (result fd)) (serve_round_lem (result fd)) tt
                  rs3 _ refl))))
