-- ===== src/Inotify/Report.antt =====
-- What `inotify_example` prints, and what it does when a call fails.
use linuxapi.Base.{
  ℕ, zero, suc, ◌+◌, ◌<◌, ◌≡◌, refl, ap, inl, inr, ℤ, Bool-cases, Option, none, some, List, [], ◌∷◌,
  ◌++◌, length, drop, ltb, arith,
}
use linuxapi.Posix.{pure, ◌>>◌, Reply, val, chunk, ev, Trace, err_exit, trace_of, call, call_or}
use linuxapi.Posix.Rules.{call_rule, call_or_rule}
use linuxapi.Inotify.{
  Handler, event_at, event_func, Printed, Call, print, inotify_rm_watch, close, if_some, walk,
  show_events, inotify_example, sizeof_inotify_event,
}
use linuxapi.Inotify.Format.{
  Notice, AllWellFormed, all_bytes, all_lines, notice_lines, event_func-notice_bytes, walk_read,
}

if_some_cong :
    {A B : Type 0} (o : Option A) {f g : A → Option B}
    → ((a : A) → f a ≡ g a)
    → if_some o f ≡ if_some o g
if_some_cong none same = refl
if_some_cong (some a) same = same a

-- The fuel of `walk` is enough: more of it changes nothing, whatever the buffer holds.
pub walk_enough :
    (handle : Handler) (fuel : ℕ) (buf : List ℕ) (len i : ℕ)
    → len < i + suc fuel
    → walk handle (suc fuel) buf len i ≡ walk handle (suc (suc fuel)) buf len i
unfolding walk
walk_enough handle zero buf len i lt = elim (Bool-cases (ltb i len)) [
  | inl inside ↦ absurd (ground arith)
  | inr past ↦ rw (walk, past) refl
]
walk_enough handle (suc fuel) buf len i lt = elim (Bool-cases (ltb i len)) [
  | inl inside ↦
      rw (walk, inside)
        (if_some_cong (event_at (drop i buf)) λ e. if_some_cong (handle e (drop i buf)) λ lines.
          ap (λ o. if_some o λ more. some (lines ++ more))
            (walk_enough handle fuel buf len (i + (sizeof_inotify_event + e.len))
              (omega (arith, lt))))
  | inr past ↦ rw (walk, past) refl
]

-- All that a run has printed.
abbrev pub shown : Trace Call → List Printed
shown [] = []
shown (ev (print lines) r ∷ log) = shown log ++ lines
shown (ev _ r ∷ log) = shown log

end_silent :
    (fd wd : ℤ) (rs : List Reply) (log : Trace Call)
    → shown (
        trace_of (
          (call_or (inotify_rm_watch fd wd) (err_exit "inotify_rm_watch")
              >> (call (close fd) >> pure tt))
            rs log))
      ≡ shown log
end_silent fd wd rs log =
    call_or_rule (λ o. shown (trace_of o) ≡ shown log) _ _ _ rs log refl (λ r bad. refl)
      (λ r rs1 lt good.
        call_rule (λ o. shown (trace_of o) ≡ shown log) _ _ rs1 _ refl (λ _ _ _. refl))

-- Where `read` gives the bytes of well-formed events, `inotify_example` prints exactly these events,
-- each once and in order, whatever the buffer held before and whatever the later calls answer.
pub inotify_reports :
    (path stale : List ℕ) (fd wd : ℕ) (ns : List Notice) (rs : List Reply)
    → AllWellFormed ns
    → shown (trace_of (inotify_example path stale (val fd ∷ val wd ∷ chunk (all_bytes ns) ∷ rs) []))
      ≡ all_lines notice_lines ns
unfolding inotify_example call_or call show_events
inotify_reports path stale fd wd ns rs h =
    rw
      (walk_read event_func notice_lines event_func-notice_bytes ns
        (drop (length (all_bytes ns)) stale) h)
      (end_silent _ _ rs _)
