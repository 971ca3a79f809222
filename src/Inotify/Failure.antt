-- ===== src/Inotify/Failure.antt =====
-- How `inotify_example` ends, whatever the kernel answers.
use linuxapi.Base.{ℕ, Option, none, some, ◌≡◌, refl, String, ℤ, true, List, [], ◌∷◌}
use linuxapi.Posix.{
  call, call_or, pure, ◌>>◌, Reply, result, failed, ev, Trace, err_exit, overrun, blocked, Outcome,
  ret, stop,
}
use linuxapi.Posix.Rules.{call_rule, call_or_rule}
use linuxapi.Inotify.{
  Printed, Call, inotify_init1, inotify_add_watch, read, inotify_rm_watch, close, walk, show_events,
  inotify_example,
}

-- The descriptors that `inotify_init1` has given and those closed; the watches added, with the
-- descriptor that each stands on, and those removed.
abbrev pub opened : Trace Call → List ℤ
opened [] = []
opened (ev (inotify_init1 flags) r ∷ log) = result r ∷ opened log
opened (ev _ r ∷ log) = opened log

abbrev pub closed : Trace Call → List ℤ
closed [] = []
closed (ev (close fd) r ∷ log) = fd ∷ closed log
closed (ev _ r ∷ log) = closed log

abbrev pub watched : Trace Call → List (ℤ × ℤ)
watched [] = []
watched (ev (inotify_add_watch fd path) r ∷ log) = (fd, result r) ∷ watched log
watched (ev _ r ∷ log) = watched log

abbrev pub unwatched : Trace Call → List (ℤ × ℤ)
unwatched [] = []
unwatched (ev (inotify_rm_watch fd wd) r ∷ log) = (fd, wd) ∷ unwatched log
unwatched (ev _ r ∷ log) = unwatched log

abbrev pub call_name : Call → String
call_name (inotify_init1 flags) = "inotify_init1"
call_name (inotify_add_watch fd path) = "inotify_add_watch"
call_name (read fd size) = "read"
call_name (inotify_rm_watch fd wd) = "inotify_rm_watch"
call_name _ = ""

abbrev pub EndPost : Outcome Call (Unit {0}) → Type 0
EndPost (ret u rs log) = (closed log ≡ opened log) × (unwatched log ≡ watched log)
EndPost (stop (err_exit name) (ev c r ∷ log)) =
    (call_name c ≡ name) × (failed r ≡ true) × (closed log ≡ [])
EndPost (stop (blocked c) log) = closed log ≡ []
EndPost (stop overrun log) = closed log ≡ []
EndPost (stop e log) = ⊥

show_then_end :
    (o : Option (List Printed)) (fd wd : ℤ) (rs : List Reply) (log : Trace Call)
    → closed log ≡ []
    → opened log ≡ fd ∷ []
    → unwatched log ≡ []
    → watched log ≡ (fd, wd) ∷ []
    → EndPost (
        (show_events o
            >> (call_or (inotify_rm_watch fd wd) (err_exit "inotify_rm_watch")
                >> (call (close fd) >> pure tt)))
          rs log)
unfolding show_events
show_then_end none fd wd rs log c o u w = c
show_then_end (some lines) fd wd rs log c o u w =
    call_or_rule EndPost _ _ _ rs _ c (λ r bad. (refl, bad, c))
      (λ r rs1 lt good.
        call_rule EndPost _ _ rs1 _ c (λ r' rs2 lt'. (rw (c, o) refl, rw (u, w) refl)))

-- `inotify_example`, whatever the kernel answers, either returns, and then it has removed the watch
-- that it added and closed the descriptor that it opened, and no others; or stops, with nothing
-- closed: in a call that is not answered, at an event that leaves the buffer, or by `errexit` with
-- the name of its last call, which has failed.
pub inotify_ends :
    (path stale : List ℕ) (rs : List Reply) → EndPost (inotify_example path stale rs [])
unfolding inotify_example
inotify_ends path stale rs =
    call_or_rule EndPost _ _ _ rs [] refl (λ r bad. (refl, bad, refl))
      (λ fd rs1 lt1 ok1.
        call_or_rule EndPost _ _ _ rs1 _ refl (λ r bad. (refl, bad, refl))
          (λ wd rs2 lt2 ok2.
            call_or_rule EndPost _ _ _ rs2 _ refl (λ r bad. (refl, bad, refl))
              (λ got rs3 lt3 ok3. show_then_end (walk _ _ _ _ 0) _ _ rs3 _ refl refl refl refl)))
