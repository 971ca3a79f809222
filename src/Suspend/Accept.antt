-- ===== src/Suspend/Accept.antt =====
-- LinuxAPI/signal_suspend_sync.c: a process with all signals blocked takes them one after the other
-- with `sigwaitinfo`, and says what it got, until SIGQUIT or SIGTERM. `sleep` changes nothing, and
-- `strsignal` is a name of the number that is printed.
use linuxapi.Base.{
  ℕ, ◌==◌, ℤ, pos, minus_one, ◌==ℤ◌, ◌≡◌, ◌≢◌, ◌⊎◌, inl, inr, refl, ap, Bool, true, false, ◌||◌,
  if◌then◌else◌, Option, none, some, List, [], ◌∷◌, ◌++◌, Bool-cases, ==ℤ_sound, ==ℤ_differs, arith,
}
use mathlib.Core.List.{map}

pub record SigInfo : Type 0 where
  pub si_code : ℤ
  pub sival_int : ℤ
  pub si_pid : ℤ
  pub si_uid : ℕ

-- An answer of `sigwaitinfo`: a signal with its `si`
pub record Received : Type 0 where
  pub sig : ℕ
  pub info : SigInfo

pub data Origin : Type 0 where
  user queue other_origin : Origin

-- All that is printed of one signal
pub record Report : Type 0 where
  pub signal : ℕ
  pub code : ℤ
  pub origin : Origin
  pub value : ℤ
  pub sender_pid : ℤ
  pub sender_uid : ℕ

-- `exit(EXIT_SUCCESS)`, `errExit`, or waiting for the next signal
pub data End : Type 0 where
  exits by_error waits : End

abbrev pub si_user : ℤ
si_user = pos 0

abbrev pub si_queue : ℤ
si_queue = minus_one

unfoldable pub origin_of : ℤ → Origin
origin_of code =
    if code ==ℤ si_user then user else if code ==ℤ si_queue then queue else other_origin

unfoldable pub report : Received → Report
report r = record {
  signal = r.sig;
  code = r.info.si_code;
  origin = origin_of r.info.si_code;
  value = r.info.sival_int;
  sender_pid = r.info.si_pid;
  sender_uid = r.info.si_uid;
}

-- SIGQUIT and SIGTERM
unfoldable pub is_last : ℕ → Bool
is_last sig = (sig == 3) || (sig == 15)

-- The loop, on the answers of `sigwaitinfo`, `none` where it gives -1
unfoldable pub accept_signals : List (Option Received) → List Report × End
accept_signals [] = ([], waits)
accept_signals (none ∷ rs) = ([], by_error)
accept_signals (some r ∷ rs) =
    let rest = accept_signals rs in
    if is_last r.sig then ([], exits) else (report r ∷ rest.0, rest.1)

-- `masked`: the call of `sigprocmask` succeeds.
unfoldable pub signal_suspend_sync : (masked : Bool) → List (Option Received) → List Report × End
signal_suspend_sync false rs = ([], by_error)
signal_suspend_sync true rs = accept_signals rs

-- What stands behind the signals that were reported, by how the program ends
abbrev pub Behind : End → List (Option Received) → Type 0
Behind waits rs = rs ≡ []
Behind by_error [] = ⊥
Behind by_error (r ∷ rs) = r ≡ none
Behind exits [] = ⊥
Behind exits (none ∷ rs) = ⊥
Behind exits (some r ∷ rs) = (r.sig ≡ 3) ⊎ (r.sig ≡ 15)

abbrev pub NoneLast : List Received → Type 0
NoneLast [] = Unit
NoneLast (r ∷ rs) = (r.sig ≢ 3) × (r.sig ≢ 15) × NoneLast rs

-- What the word for the origin of a signal says of its code
abbrev pub Names : Origin → ℤ → Type 0
Names user code = code ≡ pos 0
Names queue code = code ≡ minus_one
Names other_origin code = (code ≢ pos 0) × (code ≢ minus_one)

-- One report for each signal, in order
abbrev pub Tells : List Received → List Report → Type 0
Tells [] [] = Unit
Tells [] (l ∷ ls) = ⊥
Tells (r ∷ rs) [] = ⊥
Tells (r ∷ rs) (l ∷ ls) =
    (l.signal ≡ r.sig)
    × (l.code ≡ r.info.si_code)
    × Names l.origin r.info.si_code
    × (l.value ≡ r.info.sival_int)
    × (l.sender_pid ≡ r.info.si_pid)
    × (l.sender_uid ≡ r.info.si_uid)
    × Tells rs ls

abbrev pub Accepted : List (Option Received) → List Report × End → Type 0
Accepted rs o =
    (front : List Received) × (back : List (Option Received)) × (rs ≡ map some front ++ back)
    × NoneLast front
    × Tells front o.0
    × Behind o.1 back

origin-Names : (code : ℤ) → Names (origin_of code) code
unfolding origin_of
origin-Names code = elim (Bool-cases (code ==ℤ si_user)) [
  | inl u ↦ rw (u) (==ℤ_sound code si_user u)
  | inr n ↦ elim (Bool-cases (code ==ℤ si_queue)) [
    | inl q ↦ rw (n, q) (==ℤ_sound code si_queue q)
    | inr o ↦ rw (n, o) (==ℤ_differs code si_user n, ==ℤ_differs code si_queue o)
  ]
]

last_cases : (sig : ℕ) → is_last sig ≡ true → (sig ≡ 3) ⊎ (sig ≡ 15)
unfolding is_last
last_cases sig h = ground (arith, h)

not_last : (sig : ℕ) → is_last sig ≡ false → (sig ≢ 3) × (sig ≢ 15)
unfolding is_last
not_last sig h = ((λ e. ground (arith, h, e)), (λ e. ground (arith, h, e)))

accept_signals_lem : (rs : List (Option Received)) → Accepted rs (accept_signals rs)
unfolding accept_signals report
accept_signals_lem [] = ([], [], refl, tt, tt, refl)
accept_signals_lem (none ∷ rs) = ([], none ∷ rs, refl, tt, tt, refl)
accept_signals_lem (some r ∷ rs) = elim (Bool-cases (is_last r.sig)) [
  | inl l ↦ rw (l) ([], some r ∷ rs, refl, tt, tt, last_cases r.sig l)
  | inr g ↦
      let h = accept_signals_lem rs in
      let n = not_last r.sig g in
      rw (g) (
        r ∷ h.0,
        h.1,
        ap (λ x. some r ∷ x) h.2,
        (n.0, n.1, h.3),
        (refl, refl, origin-Names r.info.si_code, refl, refl, refl, h.4),
        h.5,
      )
]

-- `signal_suspend_sync`, whatever `sigwaitinfo` answers, reports the signals before the first SIGQUIT
-- or SIGTERM and before the first failure, all of them, in order, each with its number, its code, where
-- it comes from, and its sender; it exits at the first SIGQUIT or SIGTERM, ends by `errExit` where
-- `sigwaitinfo` fails, and otherwise waits. If `sigprocmask` fails, it reports nothing and ends by
-- `errExit`.
pub signals_reported :
    (rs : List (Option Received))
    → Accepted rs (signal_suspend_sync true rs) × (signal_suspend_sync false rs ≡ ([], by_error))
unfolding signal_suspend_sync
signals_reported rs = (accept_signals_lem rs, refl)
