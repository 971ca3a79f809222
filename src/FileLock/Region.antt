-- ===== src/FileLock/Region.antt =====
-- The lock on a region, and both programs together.
use linuxapi.Base.{
  ℕ, ℤ, ◌≢◌, pos, minus_one, ◌==ℤ◌, ◌∙◌, ==ℤ_sound, ◌==◌, ◌≡◌, ◌⊎◌, refl, inl, inr, Bool-cases,
  List, [], ◌∷◌, if◌then◌else◌,
}
use linuxapi.Posix.{
  LastFailed, eagain, Reply, payload, failed, result, ev, Trace, Stop, blocked, err_exit, Sys,
  Outcome, ret, stop, pure, ◌>>=◌, ◌>>◌, guard, emit, call,
}
use linuxapi.Posix.Rules.{call_or_rule, bind_rule}
use linuxapi.FileLock.Held.{
  FlockPost, Wanted, lock_of-Wanted, flock_asked, eagain_sound, eagain_complete,
}
use linuxapi.FileLock.{
  Call, Command, fcntl, pause, print_free, print_locked, print_locked_by, get_errno, errno,
  is_eagain, f_rdlck, f_wrlck, f_unlck, l_type, l_pid, LockOption, lock_of, file_lock_flock,
  lock_region, lock_region_nblock, lock_region_block, lock_region_is_locked, Argument, lock_by,
  RegionOption, file_lock_region, open_file,
}

-- What lock_region_is_locked makes of the answer to F_GETLK.
abbrev pub owner_of : Reply → ℤ
owner_of r =
    if failed r then minus_one else if l_type (payload r) == 2 then pos 0 else l_pid (payload r)

-- The region was asked about, and the answer is said: free, or the process that holds it.
abbrev pub Looked : (type : ℕ) (start len : ℤ) → Trace Call → Type 0
Looked type start len (ev print_free a ∷ ev (fcntl fd Command.getlk t s l) r ∷ log) =
    (owner_of r ≡ pos 0) × (t ≡ type) × (s ≡ start) × (l ≡ len)
Looked type start len (ev (print_locked_by p) a ∷ ev (fcntl fd Command.getlk t s l) r ∷ log) =
    (owner_of r ≡ p) × (t ≡ type) × (s ≡ start) × (l ≡ len)
Looked type start len log = ⊥

-- After the one call that asks for the lock.
abbrev pub Asked : Argument → (type : ℕ) (start len : ℤ) → Trace Call → Type 0
Asked Argument.blocking type start len
      (ev print_locked a ∷ ev (fcntl fd Command.setlkw t s l) r ∷ log) =
    (t ≡ type) × (s ≡ start) × (l ≡ len) × Looked type start len log
Asked Argument.nonblocking type start len (ev (fcntl fd Command.setlk t s l) r ∷ log) =
    (t ≡ type)
    × (s ≡ start)
    × (l ≡ len)
    × (errno (ev (fcntl fd Command.setlk t s l) r ∷ log) ≢ eagain)
    × Looked type start len log
Asked Argument.other_argument type start len log = Looked type start len log
Asked a type start len log = ⊥

abbrev pub LockedByOthers : Trace Call → Type 0
LockedByOthers (ev (fcntl fd Command.setlk t s l) r ∷ log) =
    errno (ev (fcntl fd Command.setlk t s l) r ∷ log) ≡ eagain
LockedByOthers log = ⊥

abbrev pub Chosen : RegionOption → (start len : ℤ) → Trace Call → Type 0
Chosen (RegionOption.write_lock a) start len log = Asked a 1 start len log
Chosen (RegionOption.read_lock a) start len log = Asked a 0 start len log
Chosen RegionOption.without start len (ev open_file r ∷ []) = Unit {0}
Chosen RegionOption.without start len log = ⊥

-- Where it pauses, or has paused.
abbrev pub RegionPost : RegionOption → (start len : ℤ) → Outcome Call (Unit {0}) → Type 0
RegionPost option start len (ret u rs (ev pause r ∷ log)) = Chosen option start len log
RegionPost option start len (ret u rs log) = ⊥
RegionPost option start len (stop (blocked pause) log) = Chosen option start len log
RegionPost option start len (stop (blocked c) log) = Unit {0}
RegionPost option start len (stop (err_exit m) log) = LastFailed log ⊎ LockedByOthers log
RegionPost option start len (stop e log) = ⊥

abbrev AskedPost : Argument → (type : ℕ) (start len : ℤ) → Outcome Call (Unit {0}) → Type 0
AskedPost a type start len (ret u rs log) = Asked a type start len log
AskedPost a type start len (stop (blocked pause) log) = ⊥
AskedPost a type start len (stop (blocked c) log) = Unit {0}
AskedPost a type start len (stop (err_exit m) log) = LastFailed log ⊎ LockedByOthers log
AskedPost a type start len (stop e log) = ⊥

module _ (fd : ℤ) (type : ℕ) (start len : ℤ) where
  -- The question, and what is said of the answer.
  look_rule :
      {B : Type 0} (Q : Outcome Call B → Type 0) (k : Unit {0} → Sys Call B) (rs : List Reply)
      (log : Trace Call)
      → Q (stop (blocked (fcntl fd Command.getlk type start len)) log)
      → ((rs' : List Reply) (log' : Trace Call) → Looked type start len log' → Q (k tt rs' log'))
      → Q (
          (lock_region_is_locked fd type start len >>= λ pid.
          (if pid ==ℤ pos 0 then emit print_free else emit (print_locked_by pid)) >>= k)
            rs log)
  unfolding lock_region_is_locked call
  look_rule Q k [] log pending next = pending
  look_rule {B} Q k (r ∷ rs) log pending next = elim (Bool-cases (failed r)) [
    | inl bad ↦ rw bad (said minus_one (rw bad refl))
    | inr good ↦ rw good (elim (Bool-cases (l_type (payload r) == f_unlck)) [
      | inl unlocked ↦ rw unlocked (said (pos 0) (rw (good, unlocked) refl))
      | inr locked ↦ rw locked (said (l_pid (payload r)) (rw (good, locked) refl))
    ])
  ]
    where
      log1 : Trace Call
      log1 = ev (fcntl fd Command.getlk type start len) r ∷ log

      said :
          (p : ℤ)
          → owner_of r ≡ p
          → Q (((if p ==ℤ pos 0 then emit print_free else emit (print_locked_by p)) >>= k) rs log1)
      said p e = elim (Bool-cases (p ==ℤ pos 0)) [
        | inl z ↦ rw z (next rs _ (e ∙ ==ℤ_sound p (pos 0) z, refl, refl, refl))
        | inr z ↦ rw z (next rs _ (e, refl, refl, refl))
      ]

  blocks :
      (rs : List Reply) (log : Trace Call)
      → Looked type start len log
      → AskedPost Argument.blocking type start len
          ((lock_region_block fd type start len >> emit print_locked) rs log)
  unfolding lock_region_block lock_region call
  blocks [] log looked = tt
  blocks (r ∷ rs) log looked = (refl, refl, refl, looked)

  asks_once :
      (rs : List Reply) (log : Trace Call)
      → Looked type start len log
      → AskedPost Argument.nonblocking type start len (
          (do
            lock_region_nblock fd type start len
            number ← get_errno
            guard (is_eagain number) (err_exit "region was locked by others.\n"))
            rs log)
  unfolding lock_region_nblock lock_region call guard
  asks_once [] log looked = tt
  asks_once (r ∷ rs) log looked =
      elim (Bool-cases (is_eagain (errno (ev (fcntl fd Command.setlk type start len) r ∷ log)))) [
        | inl others ↦ rw others (inr (eagain_sound _ others))
        | inr fine ↦ rw fine (refl, refl, refl, eagain_complete _ fine, looked)
      ]

  lock_by_lem :
      (a : Argument) (rs : List Reply) (log : Trace Call)
      → AskedPost a type start len (lock_by fd type start len a rs log)
  unfolding lock_by
  lock_by_lem Argument.blocking rs log =
      look_rule (AskedPost Argument.blocking type start len) _ rs log tt blocks
  lock_by_lem Argument.nonblocking rs log =
      look_rule (AskedPost Argument.nonblocking type start len) _ rs log tt asks_once
  lock_by_lem Argument.other_argument rs log =
      look_rule (AskedPost Argument.other_argument type start len) _ rs log tt
        (λ rs1 log1 looked. looked)

paused :
    (option : RegionOption) (start len : ℤ) (rs : List Reply) (log : Trace Call)
    → Chosen option start len log
    → RegionPost option start len ((call pause >> pure tt) rs log)
unfolding call
paused option start len [] log h = h
paused option start len (r ∷ rs) log h = h

halted :
    (o : RegionOption) (a : Argument) (type : ℕ) (start len : ℤ) (e : Stop Call) (log : Trace Call)
    → AskedPost a type start len (stop e log)
    → RegionPost o start len (stop e log)
halted o a type start len (blocked pause) log h = absurd h
halted o a type start len (blocked c) log h = tt
halted o a type start len (err_exit m) log h = h
halted o a type start len e log h = absurd h

region_asked :
    (option : RegionOption) (start len : ℤ) (rs : List Reply)
    → RegionPost option start len (file_lock_region option start len rs [])
unfolding file_lock_region
region_asked option start len rs =
    call_or_rule (RegionPost option start len) _ _ _ rs [] tt (λ r bad. inl bad)
      (λ fd rs1 lt1 ok1. by_option option fd rs1)
  where
    asked :
        (o : RegionOption) (a : Argument) (type : ℕ) (fd : Reply) (rs : List Reply)
        → ((log : Trace Call) → Asked a type start len log → Chosen o start len log)
        → RegionPost o start len (
            (lock_by (result fd) type start len a >> (call pause >> pure tt)) rs
              (ev open_file fd ∷ []))
    asked o a type fd rs chosen =
        bind_rule (AskedPost a type start len) (RegionPost o start len)
          (lock_by (result fd) type start len a rs (ev open_file fd ∷ []))
          (λ u. call pause >> pure tt) (lock_by_lem (result fd) type start len a rs _)
          (λ u rs1 log1 h. paused o start len rs1 log1 (chosen log1 h)) (halted o a type start len)

    by_option :
        (o : RegionOption) (fd : Reply) (rs1 : List Reply)
        → RegionPost o start len (
            ((elim o [
              | RegionOption.write_lock argument ↦ lock_by (result fd) f_wrlck start len argument
              | RegionOption.read_lock argument ↦ lock_by (result fd) f_rdlck start len argument
              | RegionOption.without ↦ pure tt
            ])
                >> (call pause >> pure tt))
              rs1
              (ev open_file fd ∷ []))
    by_option (RegionOption.write_lock a) fd rs1 =
        asked (RegionOption.write_lock a) a f_wrlck fd rs1 (λ log h. h)
    by_option (RegionOption.read_lock a) fd rs1 =
        asked (RegionOption.read_lock a) a f_rdlck fd rs1 (λ log h. h)
    by_option RegionOption.without fd rs1 = paused RegionOption.without start len rs1 _ tt

-- `file_lock_flock` and `file_lock_region`, whatever the kernel answers. The first says that it has the
-- lock only where `flock` has granted the one that the option asks for: a shared one, an exclusive
-- one, or without an option whatever `lock` held before; it then sleeps, and returns
-- when it has given it back; it ends by `fatal` only where the lock was refused with EWOULDBLOCK. The
-- second says who holds the region, as the kernel answers, and asks once: with "b" it says that the
-- region was locked, whatever the call answered; with "n" it pauses only where `errno` is not EAGAIN
-- then. `errExit` ends them only after a call that has failed, or with "n" where `errno` is EAGAIN.
pub locks_asked :
    (stale : ℕ) (flock_option : LockOption) (option : RegionOption) (start len : ℤ)
    (rs : List Reply)
    → ((lock : ℕ) × Wanted stale flock_option lock
        × FlockPost lock (file_lock_flock stale flock_option rs []))
      × RegionPost option start len (file_lock_region option start len rs [])
locks_asked stale flock_option option start len rs = (
  (
    lock_of stale flock_option,
    lock_of-Wanted stale flock_option,
    flock_asked stale flock_option rs,
  ),
  region_asked option start len rs,
)
