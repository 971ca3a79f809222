-- ===== src/FileLock/Held.antt =====
-- What the programs ask for, and what they say of it.
use linuxapi.Base.{ℕ, ℤ, ◌≡◌, ◌≢◌, ap, refl, inl, inr, true, false, Bool-cases, List, [], ◌∷◌}
use linuxapi.Posix.{
  LastFailed, Errno, eagain, Reply, failed, result, ev, Trace, blocked, err_exit, fatal, Outcome,
  ret, stop,
}
use linuxapi.Posix.Rules.{call_rule, call_or_rule}
use linuxapi.FileLock.{
  Call, flock, sleep, print_acquired, errno, is_eagain, LockOption, lock_of, file_lock_flock,
  open_file,
}

-- The lock has been got for `fd`, and it is said that it was.
abbrev pub Holding : (fd : ℤ) (lock : ℕ) → Trace Call → Type 0
Holding fd lock (ev (print_acquired l) a ∷ ev (flock fd' k) r ∷ log) =
    (fd' ≡ fd) × (l ≡ lock) × (k ≡ lock) × (failed r ≡ false)
Holding fd lock log = ⊥

-- After ten seconds it has been given back.
abbrev pub Released : (lock : ℕ) → Trace Call → Type 0
Released lock (ev (flock fd k) r ∷ ev sleep a ∷ log) =
    (k ≡ 8) × (failed r ≡ false) × Holding fd lock log
Released lock log = ⊥

abbrev pub Refused : (lock : ℕ) → Trace Call → Type 0
Refused lock (ev (flock fd k) r ∷ log) =
    (k ≡ lock) × (errno (ev (flock fd k) r ∷ log) ≡ eagain) × (failed r ≡ true)
Refused lock log = ⊥

abbrev pub FlockPost : (lock : ℕ) → Outcome Call (Unit {0}) → Type 0
FlockPost lock (ret u rs log) = Released lock log
FlockPost lock (stop (blocked sleep) log) = (fd : ℤ) × Holding fd lock log
FlockPost lock (stop (blocked c) log) = Unit {0}
FlockPost lock (stop (fatal m) log) = Refused lock log
FlockPost lock (stop (err_exit m) log) = LastFailed log
FlockPost lock (stop e log) = ⊥

pub eagain_sound : (e : Errno) → is_eagain e ≡ true → e ≡ eagain
unfolding is_eagain
eagain_sound eagain h = refl
eagain_sound e h = absurd cc

pub eagain_complete : (e : Errno) → is_eagain e ≡ false → e ≢ eagain
unfolding is_eagain
eagain_complete eagain h d = absurd cc
eagain_complete e h d = absurd (let g = ap is_eagain d in cc)

-- The lock that an option asks for: a shared one is 1, an exclusive one 2, and without an option it is
-- what `lock` held before.
abbrev pub Wanted : (stale : ℕ) → LockOption → (lock : ℕ) → Type 0
Wanted stale LockOption.shared lock = lock ≡ 1
Wanted stale LockOption.exclusive lock = lock ≡ 2
Wanted stale LockOption.neither lock = lock ≡ stale

pub lock_of-Wanted : (stale : ℕ) (option : LockOption) → Wanted stale option (lock_of stale option)
lock_of-Wanted stale LockOption.shared = refl
lock_of-Wanted stale LockOption.exclusive = refl
lock_of-Wanted stale LockOption.neither = refl

pub flock_asked :
    (stale : ℕ) (option : LockOption) (rs : List Reply)
    → FlockPost (lock_of stale option) (file_lock_flock stale option rs [])
unfolding file_lock_flock
flock_asked stale option rs =
    call_or_rule Q _ _ _ rs [] tt (λ r bad. bad)
      (λ fd rs1 lt1 ok1. call_rule Q _ _ rs1 _ tt (λ r rs2 lt2. elim (Bool-cases (failed r)) [
        | inl bad ↦
            rw bad
              (elim (Bool-cases (
                is_eagain (
                  errno
                    (ev (flock (result fd) (lock_of stale option)) r ∷ ev open_file fd ∷ [])))) [
                      | inl again_ ↦ rw again_ (refl, eagain_sound _ again_, bad)
                      | inr more ↦ rw more bad
                    ])
        | inr good ↦ rw good (
            call_rule Q _ _ rs2 _ (result fd, (refl, refl, refl, good))
              (λ s rs3 lt3.
                call_or_rule Q _ _ _ rs3 _ tt (λ u bad. bad)
                  (λ u rs4 lt4 ok4. (refl, ok4, (refl, refl, refl, good)))))
      ]))
  where
    Q : Outcome Call (Unit {0}) → Type 0
    Q = FlockPost (lock_of stale option)
