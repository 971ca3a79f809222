-- ===== src/Net/Pipe/Relay.antt =====
-- What the parent and the child of a pipe or a socket pair pass on.
use linuxapi.Base.{
  ℕ, suc, ℤ, pos, ◌==ℤ◌, ==ℤ_refl, ◌≡◌, ◌⊎◌, refl, sym, ap, ◌∙◌, false, inl, inr, List, [], ◌∷◌,
  ◌++◌, append-nil, length, take, take-length, drop, take-append-drop, arith,
}
use mathlib.Core.Bool.{not}
use mathlib.Core.Path.{subst}
use linuxapi.Posix.{
  Reply, fail, val, chunk, chunk_from, result, count, ev, Trace, exited, Outcome, ret, stop, guard,
  call_or, call,
}
use linuxapi.Posix.Rules.{call_rule, call_or_rule, guard_rule}
use linuxapi.Net.{Call, write, stdout_fileno}
use linuxapi.Net.Traffic.{received, delivered}
use linuxapi.Net.Copy.{InStep, copy_rule}
use linuxapi.Net.Pipe.{newline, pipe_child, pipe_parent, ipc_pipe, by_fork, pipe_buffer_size}

-- The whole input of the child and the newline, of which `w` says how much was written.
abbrev pub Copied : Trace Call → Type 0
Copied log = (w : Reply) × (delivered stdout_fileno log ≡ received log ++ take (count w) newline)

-- Some end of the input may be missing where the child does not end by `exit`.
abbrev pub Behind : ℤ → List ℕ → Trace Call → Type 0
Behind out all log = (lost : List ℕ) × (all ≡ delivered out log ++ lost)

abbrev pub ChildPost : Outcome Call (Unit {0}) → Type 0
ChildPost (ret u rs log) = ⊥
ChildPost (stop (exited n) log) = (n ≡ 0) × Copied log
ChildPost (stop e log) = Behind stdout_fileno (received log) log ⊎ Copied log

abbrev pub ParentPost : ℤ → List ℕ → Outcome Call (Unit {0}) → Type 0
ParentPost own argv1 (ret u rs log) = ⊥
ParentPost own argv1 (stop (exited n) log) = (n ≡ 0) × (delivered own log ≡ argv1)
ParentPost own argv1 (stop e log) = Behind own argv1 log

in_step : (log : Trace Call) → InStep stdout_fileno log → Behind stdout_fileno (received log) log
in_step log h = ([], h ∙ sym (append-nil (delivered stdout_fileno log)))

copied :
    (w : Reply) (log : Trace Call)
    → InStep stdout_fileno log
    → Copied (ev (write stdout_fileno newline) w ∷ log)
copied w log h = (w, ap (λ l. l ++ take (count w) newline) (sym h))

-- The child, whatever the kernel answers, if it starts with nothing read that is not written. If it
-- exits, its status is 0 and the terminal has all its
-- input, followed by a newline as far as that could be written. It ends in no other way with more
-- than this, or with anything but an initial part of its input written.
pub pipe_child_relays :
    (own other : ℤ) (size : ℕ) (rs : List Reply) (log : Trace Call)
    → InStep stdout_fileno log
    → ChildPost (pipe_child own other size rs log)
unfolding pipe_child
pipe_child_relays own other size rs log h =
    call_or_rule ChildPost _ _ _ rs log (inl (in_step log h)) (λ r bad. inl (in_step log h))
      (λ r rs' lt closed.
        copy_rule stdout_fileno _ (λ l. Unit {0}) own size (λ r l q. tt) (λ d r l q. tt) ChildPost _
          rs' _ h tt
          (λ r' rs'' l q held le eof.
            guard_rule ChildPost _ _ _ rs'' l (λ bad. inl (in_step l q))
              (λ fine. call_rule ChildPost _ _ rs'' l (inl (in_step l q)) (λ w rest lt'.
                call_or_rule ChildPost _ _ _ rest _ (inr (copied w l q))
                  (λ c bad. inr (copied w l q)) (λ c rest' lt'' shut. (refl, copied w l q)))))
          (λ l q held. inl (in_step l q)) (λ d l q held. inl (d, q))
          (λ lost l q held. inl (lost, q)))

delivered-write :
    (own : ℤ) (d : List ℕ) (w : Reply) (log : Trace Call)
    → delivered own (ev (write own d) w ∷ log) ≡ delivered own log ++ take (count w) d
delivered-write own d w log = rw (==ℤ_refl own)

-- A write whose answer is the number of bytes asked for has written them all.
count_of_full : (w : Reply) (n : ℕ) → not (result w ==ℤ pos n) ≡ false → count w ≡ n
count_of_full (fail e) n h = absurd (ground arith)
count_of_full (val m) n h = ground arith
count_of_full (chunk d) n h = ground arith
count_of_full (chunk_from p d) n h = ground arith

sent :
    (own : ℤ) (argv1 : List ℕ) (w : Reply) (log : Trace Call)
    → delivered own log ≡ []
    → not (result w ==ℤ pos (length argv1)) ≡ false
    → delivered own (ev (write own argv1) w ∷ log) ≡ argv1
sent own argv1 w log h full =
    rw (delivered-write own argv1 w log, h, count_of_full w (length argv1) full) (take-length argv1)

part_sent :
    (own : ℤ) (argv1 : List ℕ) (w : Reply) (log : Trace Call)
    → delivered own log ≡ []
    → Behind own argv1 (ev (write own argv1) w ∷ log)
part_sent own argv1 w log h = (
  drop (count w) argv1,
  rw (delivered-write own argv1 w log, h) (sym (take-append-drop (count w) argv1)),
)

nothing_sent :
    (own : ℤ) (argv1 : List ℕ) (log : Trace Call) → delivered own log ≡ [] → Behind own argv1 log
nothing_sent own argv1 log h = (argv1, rw h)

-- The parent, whatever the kernel answers, if nothing is written to its end yet. If it exits, its status is 0 and its whole argument has
-- been written. Where it stands or ends otherwise, an initial part of it has.
pub pipe_parent_sends :
    (own other : ℤ) (argv1 : List ℕ) (rs : List Reply) (log : Trace Call)
    → delivered own log ≡ []
    → ParentPost own argv1 (pipe_parent own other argv1 rs log)
unfolding pipe_parent
pipe_parent_sends own other argv1 rs log h =
    call_or_rule Q _ _ _ rs log (nothing_sent own argv1 log h)
      (λ r bad. nothing_sent own argv1 log h)
      (λ r rs' lt closed. call_rule Q _ _ rs' _ (nothing_sent own argv1 log h) (λ w rs'' lt'.
        guard_rule Q _ _ _ rs'' _ (λ bad. part_sent own argv1 w log h)
          (λ full.
            call_or_rule Q _ _ _ rs'' _ (part_sent own argv1 w log h)
              (λ c bad. part_sent own argv1 w log h)
              (λ c rest lt'' shut.
                call_rule Q _ _ rest _ (part_sent own argv1 w log h)
                  (λ x rest' lt'''. (refl, sent own argv1 w log h full))))))
  where
    Q : Outcome Call (Unit {0}) → Type 0
    Q = ParentPost own argv1

-- The two descriptors that the kernel gives to `pipe`.
abbrev pub ends : ℕ → ℕ → Reply
ends a b = chunk (a ∷ b ∷ [])

-- Both processes of `ipc_pipe`, on a pipe whose descriptors are `a` and `b`. If both exit, and the
-- child has received what the parent has written, as a pipe passes it on, then the terminal has the argument of the program, followed by
-- the newline as far as that could be written.
pub pipe_end_to_end :
    (argv1 : List ℕ) (a b pid : ℕ) (child parent : List Reply) (m n : ℕ) {clog plog : Trace Call}
    → ipc_pipe argv1 (ends a b ∷ val 0 ∷ child) [] ≡ stop (exited m) clog
    → ipc_pipe argv1 (ends a b ∷ val (suc pid) ∷ parent) [] ≡ stop (exited n) plog
    → received clog ≡ delivered (pos b) plog
    → (w : Reply) × (delivered stdout_fileno clog ≡ argv1 ++ take (count w) newline)
unfolding ipc_pipe call call_or guard by_fork
pipe_end_to_end argv1 a b pid child parent m n {clog} {plog} c p passed =
    let copied =
      (subst ChildPost c (pipe_child_relays (pos a) (pos b) pipe_buffer_size child _ refl)).1 in
    let whole =
      (subst (ParentPost (pos b) argv1) p
        (pipe_parent_sends (pos b) (pos a) argv1 parent _ refl)).1 in
    (copied.0, rw (copied.1, passed, whole) refl)
