-- ===== src/Suspend/Ends.antt =====
-- The loop ends when SIGQUIT has come.
use linuxapi.Base.{suc, ◌∷◌, ◌≡◌, ◌⊎◌, inl, inr, refl, ap, ◌∙◌, Bool, true, false, Bool-cases}
use linuxapi.Suspend.{
  sigint, sigquit, Signals, add, both, is_over, is_waiting, Place, System, signal_suspend_handler,
  signal_suspend, Step, runs, handles, Steps, stay, go, Reach,
}
use linuxapi.Suspend.Phases.{Masks, Flag, lines_at, Keeps}
use linuxapi.Suspend.Masked.{Reach-Keeps}
use linuxapi.Suspend.Kept.{Kept, Reach-Kept}

-- The program can go on to its return.
abbrev pub Ends : System → Type 0
Ends s = (t : System) × (t.place ≡ Place.returned) × Steps s t

abbrev and_then : {s t : System} → Step s t → Ends t → Ends s
and_then q e = (e.0, e.1, go q e.2)

-- The program's next step, in a place where it has one
and_runs :
    (s : System)
    → is_waiting s.place ≡ false
    → is_over s.place ≡ false
    → Ends (signal_suspend s.place s)
    → Ends s
and_runs s w o e = and_then (runs w o) e

ends_noted : (s : System) → Ends (record s { sigquit_flag = true; place = Place.test })
unfolding signal_suspend
ends_noted s = and_runs _ refl refl (and_runs _ refl refl (_, refl, stay))

ends_waiting :
    (s : System)
    → s.pending.quit ≡ true
    → s.mask.quit ≡ false
    → s.caught.quit ≡ true
    → Ends (record s { place = Place.waiting })
unfolding signal_suspend signal_suspend_handler
ends_waiting s n h c =
    and_then (handles sigquit refl n h c)
      (and_runs _ refl refl (and_runs _ refl refl (and_runs _ refl refl (_, refl, stay))))

ends_suspend :
    (s : System)
    → s.pending.quit ≡ true
    → s.originmask.quit ≡ false
    → s.caught.quit ≡ true
    → Ends (record s { place = Place.suspend })
unfolding signal_suspend
ends_suspend s n h c =
    and_runs _ refl refl (ends_waiting (record s { saved = s.mask; mask = s.originmask }) n h c)

ends_count :
    (s : System)
    → s.pending.quit ≡ true
    → s.originmask.quit ≡ false
    → s.caught.quit ≡ true
    → Ends (record s { place = Place.count })
unfolding signal_suspend
ends_count s n h c = and_runs _ refl refl (ends_suspend (record s { loop = suc s.loop }) n h c)

ends_critical :
    (s : System)
    → s.pending.quit ≡ true
    → s.originmask.quit ≡ false
    → s.caught.quit ≡ true
    → Ends (record s { place = Place.critical })
unfolding signal_suspend
ends_critical s n h c =
    and_runs _ refl refl (ends_count (record s { said = s.loop ∷ s.said }) n h c)

ends_test :
    (b : Bool) (s : System)
    → (s.pending.quit ≡ true) ⊎ (b ≡ true)
    → s.originmask.quit ≡ false
    → s.caught.quit ≡ true
    → Ends (record s { sigquit_flag = b; place = Place.test })
unfolding signal_suspend
ends_test true s k h c = ends_noted s
ends_test false s (inl n) h c =
    and_runs _ refl refl (ends_critical (record s { sigquit_flag = false }) n h c)
ends_test false s (inr e) h c = absurd cc

noted : (s : System) → s.sent ≡ true → Kept s → (s.pending.quit ≡ true) ⊎ (s.sigquit_flag ≡ true)
noted s e (inl d) = absurd cc
noted s e (inr k) = k

pends : (s : System) → s.sent ≡ true → s.sigquit_flag ≡ false → Kept s → s.pending.quit ≡ true
pends s e f (inl d) = absurd cc
pends s e f (inr (inl n)) = n
pends s e f (inr (inr d)) = absurd cc

lets_quit : {m a : Signals} → m.quit ≡ false → a ≡ m → a.quit ≡ false
lets_quit h e = ap (λ x. x.quit) e ∙ h

catches_quit : {a : Signals} → a ≡ both → a.quit ≡ true
catches_quit e = ap (λ x. x.quit) e

caught_next :
    {m : Signals} (s : System)
    → m.quit ≡ false
    → s.sent ≡ true
    → Kept s
    → s.originmask ≡ m
    → Ends (record s { place = Place.catch_quit })
unfolding signal_suspend
caught_next s h e n o = and_runs _ refl refl (
    ends_test s.sigquit_flag (record s { caught = add sigquit s.caught }) (noted s e n)
      (lets_quit h o) refl)

ends_at :
    {m : Signals} (p : Place) (s : System)
    → m.quit ≡ false
    → s.sent ≡ true
    → is_over p ≡ false
    → Kept s
    → Keeps m p s
    → Ends (record s { place = p })
unfolding signal_suspend
ends_at Place.block s h e o n k = absurd (let d = k.masks.1 in cc)
ends_at Place.catch_int s h e o n k =
    and_runs _ refl refl (caught_next (record s { caught = add sigint s.caught }) h e n k.masks.1)
ends_at Place.catch_quit s h e o n k = caught_next s h e n k.masks.1
ends_at Place.test s h e o n k =
    ends_test s.sigquit_flag s (noted s e n) (lets_quit h k.masks.1) (catches_quit k.catches)
ends_at Place.critical s h e o n k =
    ends_critical s (pends s e k.flag n) (lets_quit h k.masks.1) (catches_quit k.catches)
ends_at Place.count s h e o n k =
    ends_count s (pends s e k.flag n) (lets_quit h k.masks.1) (catches_quit k.catches)
ends_at Place.suspend s h e o n k =
    ends_suspend s (pends s e k.flag n) (lets_quit h k.masks.1) (catches_quit k.catches)
ends_at Place.waiting s h e o n k =
    ends_waiting s (pends s e k.flag n) (lets_quit h k.masks.0) (catches_quit k.catches)
ends_at Place.woken s h e o n k = and_runs _ refl refl (
    ends_test s.sigquit_flag (record s { mask = s.saved }) (noted s e n) (lets_quit h k.masks.1)
      (catches_quit k.catches))
ends_at Place.restore s h e o n k = and_runs _ refl refl (_, refl, stay)
ends_at Place.returned s h e o n k = absurd cc
ends_at Place.failed s h e o n k = absurd cc
ends_at Place.killed s h e o n k = absurd cc

-- From a state in which SIGQUIT has come, the program can return, if the mask it was called with lets
-- SIGQUIT through and no call has failed.
can_end :
    {m : Signals} (s : System)
    → Keeps m s.place s
    → Kept s
    → (m.quit ≡ true) ⊎ ((s.sent ≡ false) ⊎ ((is_over s.place ≡ true) ⊎ Ends s))
can_end {m} s k n = elim (Bool-cases m.quit) [
  | inl h ↦ inl h
  | inr h ↦ elim (Bool-cases s.sent) [
    | inr e ↦ inr (inl e)
    | inl e ↦ elim (Bool-cases (is_over s.place)) [
      | inl o ↦ inr (inr (inl o))
      | inr o ↦ inr (inr (inr (ends_at s.place s h e o n k)))
    ]
  ]
]

-- In every state that signal_suspend reaches when it is called with the mask `m`: outside `sigsuspend`,
-- from the first `sigprocmask` to the last, both signals are blocked, and the mask is `m` again in
-- `sigsuspend` and when the function returns; a round is run only while `sigquit` is 0, and the
-- function returns only when it is 1; the loop counts printed are 0, 1, 2 and so on. If a signal has
-- ended the process, no SIGQUIT has come behind the first `sigprocmask`. A SIGQUIT that has come there is
-- pending or noted in `sigquit`, never lost, and if `m` does not block it and the function is not over,
-- there is a run from here to its return.
pub quit_not_lost :
    {m : Signals} {s : System}
    → Reach m s
    → Masks m s.place s
      × Flag s.place s.sigquit_flag
      × (s.said ≡ lines_at s.place s.loop)
      × Kept s
      × ((m.quit ≡ true) ⊎ ((s.sent ≡ false) ⊎ ((is_over s.place ≡ true) ⊎ Ends s)))
quit_not_lost {s = s} r =
    let k = Reach-Keeps r in (k.masks, k.flag, k.lines, Reach-Kept r, can_end s k (Reach-Kept r))
