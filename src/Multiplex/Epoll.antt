-- ===== src/Multiplex/Epoll.antt =====
-- What `alt_io_epoll` does about the events that it is told of.
use linuxapi.Base.{
  ℕ, zero, suc, ◌-◌, ◌≤◌, ◌<◌, ◌≡◌, refl, ap, sym, ◌∙◌, String, ℤ, true, false, Bool, ◌||◌,
  Bool-cases, inl, inr, List, [], ◌∷◌, ◌++◌, append-nil, append_assoc, length, has_bit, arith,
}
use linuxapi.Posix.{
  Reply, fail, val, chunk, chunk_from, result, payload, failed, ev, Trace, Stop, blocked, err_exit,
  Outcome, ret, stop,
}
use linuxapi.Posix.Loop.{Round, repeat_rule}
use linuxapi.Posix.Rules.{bind_rule, call_rule, call_or_rule}
use linuxapi.Multiplex.{
  Call, epoll_wait, read, close, event_fd, event_mask, epollin, epollhup, epollerr, is_interrupt,
  close_ended, serve, serve_all, served, epoll_round, watch_file, alt_io_epoll,
}

-- What an event asks for: to read, to close, or nothing.
pub data Action : Type 0 where
  reads closes : ℤ → Action

abbrev pub action : (e : ℕ) (readable ended : Bool) → List Action
action e true ended = reads (event_fd e) ∷ []
action e false true = closes (event_fd e) ∷ []
action e false false = []

abbrev pub actions : List ℕ → List Action
actions [] = []
actions (e ∷ es) =
    action e (has_bit (event_mask e) epollin)
      (has_bit (event_mask e) epollhup || has_bit (event_mask e) epollerr)
    ++ actions es

-- The actions that the answers of `epoll_wait` ask for, and those that the program has begun, in
-- order; and how many of the latter are closings.
abbrev pub asked : Trace Call → List Action
asked [] = []
asked (ev (epoll_wait epfd n) r ∷ log) = asked log ++ actions (payload r)
asked (ev _ r ∷ log) = asked log

abbrev pub done : Trace Call → List Action
done [] = []
done (ev (read fd n) r ∷ log) = done log ++ (reads fd ∷ [])
done (ev (close fd) r ∷ log) = done log ++ (closes fd ∷ [])
done (ev _ r ∷ log) = done log

abbrev pub closings : Trace Call → ℕ
closings [] = 0
closings (ev (close fd) r ∷ log) = suc (closings log)
closings (ev _ r ∷ log) = closings log

-- What is done is what was asked first.
abbrev pub Begun : Trace Call → Type 0
Begun log = (rest : List Action) × (asked log ≡ done log ++ rest)

abbrev pub EpollPost : Outcome Call (Unit {0}) → Type 0
EpollPost (ret u rs log) = (done log ≡ asked log) × (2 ≤ closings log)
EpollPost (stop (blocked (epoll_wait epfd n)) log) = (done log ≡ asked log) × (closings log < 2)
EpollPost (stop (blocked c) log) = Begun log
EpollPost (stop (err_exit name) log) = Begun log
EpollPost (stop e log) = ⊥

abbrev Inv : ℕ → List Reply → Trace Call → Type 0
Inv n rs log = (done log ≡ asked log) × (n ≡ 2 - closings log)

-- Within a round, `es` is left to be served; the calls in it are not `epoll_wait`.
abbrev StopsServing : Stop Call → Trace Call → Type 0
StopsServing (blocked (epoll_wait epfd n)) log = ⊥
StopsServing (blocked c) log = Begun log
StopsServing (err_exit name) log = Begun log
StopsServing e log = ⊥

abbrev Served : (es : List ℕ) → ℕ → Outcome Call ℕ → Type 0
Served es k (ret n rs log) =
    (asked log ≡ done log ++ actions es) × (n ≡ 2 - closings log) × (length rs ≤ k)
Served es k (stop e log) = StopsServing e log

after_action :
    (log : Trace Call) (a : Action) (es : List ℕ)
    → asked log ≡ done log ++ (a ∷ actions es)
    → asked log ≡ (done log ++ (a ∷ [])) ++ actions es
after_action log a es h = h ∙ sym (append_assoc (done log) (a ∷ []) (actions es))

close_lem :
    (n e : ℕ) (es : List ℕ) (ended : Bool) (rs : List Reply) (log : Trace Call)
    → asked log ≡ done log ++ (action e false ended ++ actions es)
    → n ≡ 2 - closings log
    → Served es (length rs) (close_ended n e ended rs log)
unfolding close_ended
close_lem n e es false rs log h m = (h, m, omega arith)
close_lem n e es true rs log h m =
    call_or_rule (Served es (length rs)) _ _ _ rs _ (_, h)
      (λ r bad. (actions es, after_action log (closes (event_fd e)) es h))
      (λ r rest lt good.
        (after_action log (closes (event_fd e)) es h, omega (arith, m), omega (arith, lt)))

serve_lem :
    (n e : ℕ) (es : List ℕ) (readable : Bool) (rs : List Reply) (log : Trace Call)
    → asked log
      ≡ done log
        ++ (action e readable (has_bit (event_mask e) epollhup || has_bit (event_mask e) epollerr)
            ++ actions es)
    → n ≡ 2 - closings log
    → Served es (length rs) (serve n e readable rs log)
unfolding serve
serve_lem n e es true rs log h m =
    call_rule (Served es (length rs)) _ _ rs log (_, h)
      (λ r rest lt. (after_action log (reads (event_fd e)) es h, m, omega (arith, lt)))
serve_lem n e es false rs log h m = close_lem n e es _ rs log h m

-- A weaker bound on the answers left.
longer : (k k' : ℕ) (es : List ℕ) (o : Outcome Call ℕ) → k ≤ k' → Served es k o → Served es k' o
longer k k' es (ret n rs log) le h = (h.0, h.1, omega (arith, h.2))
longer k k' es (stop e log) le h = h

serve_all_lem :
    (n : ℕ) (es : List ℕ) (rs : List Reply) (log : Trace Call)
    → asked log ≡ done log ++ actions es
    → n ≡ 2 - closings log
    → Served [] (length rs) (serve_all n es rs log)
unfolding serve_all
serve_all_lem n [] rs log h m = (h, m, omega arith)
serve_all_lem n (e ∷ es) rs log h m =
    bind_rule (Served es (length rs)) (Served [] (length rs)) _ _
      (serve_lem n e es (has_bit (event_mask e) epollin) rs _ h m)
      (λ left rs1 log1 k.
        longer (length rs1) (length rs) [] _ k.2 (serve_all_lem left es rs1 log1 k.0 k.1))
      (λ e' log' h'. h')

stops_in_round : (e : Stop Call) (log : Trace Call) → StopsServing e log → EpollPost (stop e log)
stops_in_round (blocked (epoll_wait epfd n)) log h = absurd h
stops_in_round (blocked (read fd n)) log h = h
stops_in_round (blocked c) log h = h
stops_in_round (err_exit name) log h = h
stops_in_round e log h = absurd h

-- With an error no event comes.
no_events : (r : Reply) → failed r ≡ true → payload r ≡ []
no_events (fail e) h = refl
no_events (val n) h = absurd (ground arith)
no_events (chunk d) h = absurd (ground arith)
no_events (chunk_from p d) h = absurd (ground arith)

epoll_round_lem :
    (epfd : ℤ) (n : ℕ) (rs : List Reply) (log : Trace Call)
    → Inv n rs log
    → Round Inv EpollPost (length rs) (epoll_round epfd n rs log)
unfolding epoll_round served
epoll_round_lem epfd zero rs log h = (h.0, omega (arith, h.1))
epoll_round_lem epfd (suc n) rs log h =
    call_rule (Round Inv EpollPost (length rs)) _ _ rs log (h.0, omega (arith, h.1))
      (λ r rest lt. elim (Bool-cases (failed r)) [
        | inl bad ↦ rw bad (elim (Bool-cases (is_interrupt r)) [
          | inl retry ↦ rw retry ((rw (no_events r bad, append-nil (asked log)) h.0, h.1), lt)
          | inr over ↦ rw over (actions (payload r), ap (λ l. l ++ actions (payload r)) (sym h.0))
        ])
        | inr good ↦ rw good (
            bind_rule (Served [] (length rest)) (Round Inv EpollPost (length rs)) _ _
              (serve_all_lem (suc n) (payload r) rest _
                (ap (λ l. l ++ actions (payload r)) (sym h.0)) h.1)
              (λ left rs1 log1 k.
                ((sym (k.0 ∙ append-nil (done log1)), k.1), omega (arith, k.2, lt)))
              stops_in_round)
      ])

-- Before the loop nothing is asked or done.
abbrev Idle : Trace Call → Type 0
Idle log = (asked log ≡ []) × (done log ≡ []) × (closings log ≡ 0)

abbrev Watched : Outcome Call (Unit {0}) → Type 0
Watched (ret u rs log) = Idle log
Watched (stop (blocked c) log) = EpollPost (stop (blocked c) log)
Watched (stop (err_exit name) log) = Begun log
Watched (stop e log) = ⊥

Idle-Begun : (log : Trace Call) → Idle log → Begun log
Idle-Begun log h = ([], rw (h.0, h.1) refl)

watch_file_lem :
    (epfd : ℤ) (path : String) (rs : List Reply) (log : Trace Call)
    → Idle log
    → Watched (watch_file epfd path rs log)
unfolding watch_file
watch_file_lem epfd path rs log h =
    call_or_rule Watched _ _ _ rs log (Idle-Begun log h) (λ r bad. Idle-Begun log h)
      (λ fd rs1 lt ok.
        call_or_rule Watched _ _ _ rs1 _ (Idle-Begun log h) (λ r bad. Idle-Begun log h)
          (λ r rs2 lt2 ok2. h))

before_loop : (e : Stop Call) (log : Trace Call) → Watched (stop e log) → EpollPost (stop e log)
before_loop (blocked c) log h = h
before_loop (err_exit name) log h = h
before_loop e log h = absurd h

-- `alt_io_epoll`, whatever the kernel answers, reads from or closes exactly the descriptors that the
-- events ask for, in their order: when it waits for events again or returns, it has begun all that
-- the events so far ask for, and where it stops otherwise, what it has begun is what they ask for
-- first. It returns after two descriptors have been closed, and it waits for more events only before
-- that.
pub epoll_serves : (rs : List Reply) → EpollPost (alt_io_epoll rs [])
unfolding alt_io_epoll
epoll_serves rs =
    call_rule EpollPost _ _ rs [] ([], refl)
      (λ ep rs1 lt.
        bind_rule Watched EpollPost _ _
          (watch_file_lem (result ep) "test1" rs1 _ (refl, refl, refl))
          (λ u rs2 log2 h2.
            bind_rule Watched EpollPost _ _ (watch_file_lem (result ep) "test2" rs2 log2 h2)
              (λ u' rs3 log3 h3.
                repeat_rule Inv EpollPost (epoll_round (result ep)) (epoll_round_lem (result ep)) 2
                  rs3 log3 (h3.1 ∙ sym h3.0, omega (arith, h3.2)))
              before_loop)
          before_loop)
