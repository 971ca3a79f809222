-- ===== src/Suspend.antt =====
-- LinuxAPI/signal_suspend.c: a loop runs a critical section with SIGINT and SIGQUIT blocked, and waits
-- for a signal in `sigsuspend` between two rounds, until SIGQUIT has come. The two signals come at any
-- time; a handler is one step. No other signal is sent, and `loop` does not overflow.
mod Phases
pub mod Accept
mod Masked
mod Kept
pub mod Ends
mod Tests
use linuxapi.Base.{ℕ, suc, ◌≡◌, Bool, true, false, ◌&&◌, ◌||◌, if◌then◌else◌, List, [], ◌∷◌}

pub data Signal : Type 0 where
  sigint sigquit : Signal

-- A `sigset_t`, as far as the program looks into it
pub record Signals : Type 0 where
  pub int : Bool
  pub quit : Bool

abbrev pub none_of : Signals
none_of = record { int = false; quit = false }

abbrev pub both : Signals
both = record { int = true; quit = true }

abbrev pub has : Signal → Signals → Bool
has sigint m = m.int
has sigquit m = m.quit

-- `sigaddset`
abbrev pub add : Signal → Signals → Signals
add sigint m = record m { int = true }
add sigquit m = record m { quit = true }

abbrev pub remove : Signal → Signals → Signals
remove sigint m = record m { int = false }
remove sigquit m = record m { quit = false }

-- `SIG_BLOCK`
abbrev pub union : Signals → Signals → Signals
union a b = record { int = a.int || b.int; quit = a.quit || b.quit }

-- Where the process stands: before the first `sigprocmask`, the two calls of `sigaction`, the test of
-- `sigquit`, `printf` and `sleep`, `loop++`, `sigsuspend`; in `sigsuspend`, before any handler has run
-- and after one has; before the last `sigprocmask`; returned; ended by `errExit`, and by a signal.
pub data Place : Type 0 where
  block catch_int catch_quit test critical count suspend waiting woken restore : Place
  returned failed killed : Place

-- `sigquit_flag` is the variable `sigquit`; `saved` is the mask that `sigsuspend` puts back, `said` the
-- printed loop counts, newest first. `sent` notes that SIGQUIT has come since the first `sigprocmask`.
pub record System : Type 0 where
  pub originmask : Signals
  pub mask : Signals
  pub saved : Signals
  pub pending : Signals
  pub caught : Signals
  pub sigquit_flag : Bool
  pub loop : ℕ
  pub said : List ℕ
  pub place : Place
  pub sent : Bool

-- signal_suspend_handler
unfoldable pub signal_suspend_handler : Signal → Bool → Bool
signal_suspend_handler sigint flag = flag
signal_suspend_handler sigquit flag = true

abbrev blockmask : Signals
blockmask = add sigquit (add sigint none_of)

-- What the program does at each place, where its call succeeds
unfoldable pub signal_suspend : Place → System → System
signal_suspend Place.block s = record s {
  originmask = s.mask;
  mask = union blockmask s.mask;
  place = Place.catch_int;
}
signal_suspend Place.catch_int s = record s {
  caught = add sigint s.caught;
  place = Place.catch_quit;
}
signal_suspend Place.catch_quit s = record s { caught = add sigquit s.caught; place = Place.test }
signal_suspend Place.test s = record s {
  place = if s.sigquit_flag then Place.restore else Place.critical;
}
signal_suspend Place.critical s = record s { said = s.loop ∷ s.said; place = Place.count }
signal_suspend Place.count s = record s { loop = suc s.loop; place = Place.suspend }
signal_suspend Place.suspend s = record s {
  saved = s.mask;
  mask = s.originmask;
  place = Place.waiting;
}
signal_suspend Place.woken s = record s { mask = s.saved; place = Place.test }
signal_suspend Place.restore s = record s { mask = s.originmask; place = Place.returned }
signal_suspend p s = s

abbrev pub is_over : Place → Bool
is_over Place.returned = true
is_over Place.failed = true
is_over Place.killed = true
is_over p = false

abbrev pub is_waiting : Place → Bool
is_waiting Place.waiting = true
is_waiting p = false

-- The calls whose failure ends the program; `sigsuspend` fails with EINTR only.
pub data Fails : Place → Type 0 where
  block_fails : Fails Place.block
  catch_int_fails : Fails Place.catch_int
  catch_quit_fails : Fails Place.catch_quit
  restore_fails : Fails Place.restore

abbrev pub is_blocked : Place → Bool
is_blocked Place.block = false
is_blocked p = true

abbrev pub is_quit : Signal → Bool
is_quit sigint = false
is_quit sigquit = true

abbrev pub arrive : Signal → System → System
arrive g s = record s {
  pending = add g s.pending;
  sent = s.sent || (is_quit g && is_blocked s.place);
}

abbrev pub woken_by : Place → Place
woken_by Place.waiting = Place.woken
woken_by p = p

abbrev pub deliver : Signal → System → System
deliver g s = record s {
  pending = remove g s.pending;
  sigquit_flag = signal_suspend_handler g s.sigquit_flag;
  place = woken_by s.place;
}

pub data Step (s : System) : System → Type 0 where
  arrives : (g : Signal) → is_over s.place ≡ false → Step s (arrive g s)
  runs : is_waiting s.place ≡ false → is_over s.place ≡ false → Step s (signal_suspend s.place s)
  fails : Fails s.place → Step s (record s { place = Place.failed })
  -- A signal that is not blocked runs its handler, or ends a process that has none.
  handles :
      (g : Signal)
      → is_over s.place ≡ false
      → has g s.pending ≡ true
      → has g s.mask ≡ false
      → has g s.caught ≡ true
      → Step s (deliver g s)
  kills :
      (g : Signal)
      → is_over s.place ≡ false
      → has g s.pending ≡ true
      → has g s.mask ≡ false
      → has g s.caught ≡ false
      → Step s (record s { place = Place.killed })

-- The process as it calls signal_suspend, with the mask `m` and the signals `p` pending
abbrev pub begin : Signals → Signals → System
begin m p = record {
  originmask = none_of;
  mask = m;
  saved = none_of;
  pending = p;
  caught = none_of;
  sigquit_flag = false;
  loop = 0;
  said = [];
  place = Place.block;
  sent = false;
}

pub data Steps : System → System → Type 0 where
  stay : {s : System} → Steps s s
  go : {s t u : System} → Step s t → Steps t u → Steps s u

pub data Reach (m : Signals) : System → Type 0 where
  start : (p : Signals) → Reach m (begin m p)
  later : {s t : System} → Reach m s → Step s t → Reach m t
