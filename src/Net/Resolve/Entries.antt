-- ===== src/Net/Resolve/Entries.antt =====
-- Which sockets the loop over the addresses leaves open.
use linuxapi.Base.{
  ℕ, ℤ, pos, ==ℤ_sound, ◌≡◌, ◌⊎◌, refl, ap, ◌∙◌, Bool, true, false, Bool-cases, inl, inr, List, [],
  ◌∷◌, ◌≤◌, length, if◌then◌else◌, arith,
}
use linuxapi.Posix.{
  Reply, fail, val, chunk, chunk_from, result, failed, ev, Trace, Outcome, ret, stop, Sys, pure,
  ◌>>=◌, ◌>>◌, call, emit,
}
use linuxapi.Posix.Rules.{call_rule}
use mathlib.Core.Bool.{not}
use linuxapi.Net.{Call, connect, socket, of_entry, sock_stream, close, err_msg}
use linuxapi.Net.Traffic.{open_fds}
use linuxapi.Posix.Held.{opened, opened_lem, erase-head}
use linuxapi.Net.Resolve.{Purpose, passive, active, use_socket, ok, try_entries}

opened-failed : (r : Reply) (fds : List ℤ) → failed r ≡ true → opened r fds ≡ fds
opened-failed (fail e) fds h = refl
opened-failed (val n) fds h = absurd (ground arith)
opened-failed (chunk d) fds h = absurd (ground arith)
opened-failed (chunk_from p d) fds h = absurd (ground arith)

-- The call that uses a socket has done so: `bind` with 0, `connect` with anything but -1.
abbrev pub Succeeded : Purpose → Reply → Type 0
Succeeded passive r = result r ≡ pos 0
Succeeded active r = failed r ≡ false

ok-Succeeded : (purpose : Purpose) (r : Reply) → ok purpose r ≡ true → Succeeded purpose r
ok-Succeeded passive r h = ==ℤ_sound (result r) (pos 0) h
ok-Succeeded active r h = elim (Bool-cases (failed r)) [
  | inl bad ↦ absurd (let d = ap not bad in cc)
  | inr good ↦ good
]

-- The loop has left by `break`: `fd` was used with success just now.
abbrev pub Won : Purpose → ℤ → Trace Call → Type 0
Won purpose fd log =
    (rp : ℕ) × (done : Reply) × (before : Trace Call) × (log
      ≡ ev (use_socket purpose fd rp) done ∷ before)
    × Succeeded purpose done

-- No `connect` so far has succeeded.
abbrev pub NoneConnected : Trace Call → Type 0
NoneConnected [] = Unit
NoneConnected (ev (connect fd a) r ∷ log) = (failed r ≡ true) × NoneConnected log
NoneConnected (ev _ r ∷ log) = NoneConnected log

lost-NoneConnected :
    (purpose : Purpose) (fd : ℤ) (rp : ℕ) (r : Reply) (log : Trace Call)
    → ok purpose r ≡ false
    → NoneConnected log
    → NoneConnected (ev (use_socket purpose fd rp) r ∷ log)
lost-NoneConnected passive fd rp r log h none_ = none_
lost-NoneConnected active fd rp r log h none_ = elim (Bool-cases (failed r)) [
  | inl bad ↦ (bad, none_)
  | inr good ↦ absurd (let d = ap not good in cc)
]

-- The loop leaves one more socket open, the one that it gives back, or none, and then no `connect` has
-- succeeded; it holds at most one more while it waits.
abbrev pub EntriesPost : Purpose → List ℤ → ℕ → Outcome Call ℤ → Type 0
EntriesPost purpose fds n (ret fd rs log) =
    (((open_fds log ≡ fd ∷ fds) × Won purpose fd log) ⊎ ((open_fds log ≡ fds) × NoneConnected log))
    × (length rs ≤ n)
EntriesPost purpose fds n (stop e log) =
    (open_fds log ≡ fds) ⊎ ((fd : ℤ) × (open_fds log ≡ fd ∷ fds))

use-open_fds :
    (purpose : Purpose) (fd : ℤ) (rp : ℕ) (r : Reply) (log : Trace Call)
    → open_fds (ev (use_socket purpose fd rp) r ∷ log) ≡ open_fds log
use-open_fds passive fd rp r log = refl
use-open_fds active fd rp r log = refl

module _ (purpose : Purpose) (fds : List ℤ) where
  retry :
      (loud : Bool) (n : ℕ) (s : ℤ) (next : Sys Call ℤ) (rs : List Reply) (log : Trace Call)
      → length rs ≤ n
      → open_fds log ≡ s ∷ fds
      → NoneConnected log
      → ((rs' : List Reply) (log' : Trace Call)
          → length rs' ≤ n
          → open_fds log' ≡ fds
          → NoneConnected log'
          → EntriesPost purpose fds n (next rs' log'))
      → EntriesPost purpose fds n
          ((do (if loud then emit (err_msg "bind()") else pure tt); call (close s); next) rs log)
  retry true n s next rs log le h none_ ih =
      call_rule (EntriesPost purpose fds n) (close s) _ rs _ (inr (s, h))
        (λ c rs' lt. ih rs' _ (omega arith) (rw (h, erase-head s fds) refl) none_)
  retry false n s next rs log le h none_ ih =
      call_rule (EntriesPost purpose fds n) (close s) _ rs _ (inr (s, h))
        (λ c rs' lt. ih rs' _ (omega arith) (rw (h, erase-head s fds) refl) none_)

  used :
      (loud : Bool) (n rp : ℕ) (rest : List ℕ) (s : Reply) (rs : List Reply) (log : Trace Call)
      → length rs ≤ n
      → open_fds log ≡ result s ∷ fds
      → NoneConnected log
      → ((rs' : List Reply) (log' : Trace Call)
          → length rs' ≤ n
          → open_fds log' ≡ fds
          → NoneConnected log'
          → EntriesPost purpose fds n (try_entries purpose loud rest (result s) rs' log'))
      → EntriesPost purpose fds n (
          (do
            done ← call (use_socket purpose (result s) rp)
            if ok purpose done then pure (result s) else (do
              (if loud then emit (err_msg "bind()") else pure tt)
              call (close (result s))
              try_entries purpose loud rest (result s)))
            rs log)
  used loud n rp rest s rs log le held none_ ih =
      call_rule (EntriesPost purpose fds n) (use_socket purpose (result s) rp) _ rs log
        (inr (result s, held))
        (λ done rs' lt. elim (Bool-cases (ok purpose done)) [
          | inl won ↦ rw won (
            inl (
              use-open_fds purpose (result s) rp done log ∙ held,
              (rp, done, log, refl, ok-Succeeded purpose done won),
            ),
            omega arith,
          )
          | inr lost ↦ rw lost (
              retry loud n (result s) (try_entries purpose loud rest (result s)) rs' _ (omega arith)
                (use-open_fds purpose (result s) rp done log ∙ held)
                (lost-NoneConnected purpose (result s) rp done log lost none_) ih)
        ])

  pub try_entries_lem :
      (loud : Bool) (n : ℕ) (rps : List ℕ) (fd : ℤ) (rs : List Reply) (log : Trace Call)
      → length rs ≤ n
      → open_fds log ≡ fds
      → NoneConnected log
      → EntriesPost purpose fds n (try_entries purpose loud rps fd rs log)
  unfolding try_entries
  try_entries_lem loud n [] fd rs log le h none_ = (inr (h, none_), le)
  try_entries_lem loud n (rp ∷ rest) fd rs log le h none_ =
      call_rule Q _ _ rs log (inl h) (λ s rs' lt. elim (Bool-cases (failed s)) [
        | inl bad ↦ rw bad (
            try_entries_lem loud n rest (result s) rs' _ (omega arith) (opened-failed s _ bad ∙ h)
              none_)
        | inr good ↦ rw good (
            used loud n rp rest s rs' (ev (socket (of_entry rp) sock_stream) s ∷ log) (omega arith)
              (opened_lem s _ good ∙ ap (λ l. result s ∷ l) h) none_
              (try_entries_lem loud n rest (result s)))
      ])
    where
      Q : Outcome Call ℤ → Type 0
      Q = EntriesPost purpose fds n
