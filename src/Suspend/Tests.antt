-- ===== src/Suspend/Tests.antt =====
-- Runs: SIGQUIT comes in the critical section of the first round; SIGINT and SIGTERM are accepted.
use linuxapi.Base.{pos, Option, some, List, ◌≡◌, ◌⊎◌, refl, true, false, [], ◌∷◌}
use linuxapi.Suspend.{
  sigquit, Signals, none_of, both, Place, System, signal_suspend, is_over, Reach, start, later,
  arrives, runs,
}
use linuxapi.Suspend.Phases.{Masks, Flag, lines_at}
use linuxapi.Suspend.Kept.{Kept}
use linuxapi.Suspend.Accept.{
  SigInfo, Received, user, exits, by_error, report, accept_signals, signal_suspend_sync, is_last,
  origin_of, Accepted, signals_reported,
}
use linuxapi.Suspend.Ends.{Ends, quit_not_lost}

abbrev quit_only : Signals
quit_only = record { int = false; quit = true }

abbrev interrupted : System
interrupted = record {
  originmask = none_of;
  mask = both;
  saved = none_of;
  pending = quit_only;
  caught = both;
  sigquit_flag = false;
  loop = 0;
  said = 0 ∷ [];
  place = Place.count;
  sent = true;
}

first_round : Reach none_of interrupted
unfolding signal_suspend
first_round =
    later
      (later
        (later
          (later (later (later (start none_of) (runs refl refl)) (runs refl refl)) (runs refl refl))
          (runs refl refl))
        (arrives sigquit refl))
      (runs refl refl)

quit_not_lost_example :
    Masks none_of interrupted.place interrupted
    × Flag interrupted.place interrupted.sigquit_flag
    × (interrupted.said ≡ lines_at interrupted.place interrupted.loop)
    × Kept interrupted
    × ((none_of.quit ≡ true)
        ⊎ ((interrupted.sent ≡ false) ⊎ ((is_over interrupted.place ≡ true) ⊎ Ends interrupted)))
quit_not_lost_example = quit_not_lost first_round

abbrev from_user : SigInfo
from_user = record { si_code = pos 0; sival_int = pos 0; si_pid = pos 7; si_uid = 1000 }

abbrev two_signals : List (Option Received)
two_signals =
    some (record { sig = 2; info = from_user }) ∷ some (record { sig = 15; info = from_user }) ∷ []

one_report : signal_suspend_sync true two_signals ≡ (
  record {
    signal = 2;
    code = pos 0;
    origin = user;
    value = pos 0;
    sender_pid = pos 7;
    sender_uid = 1000;
  }
      ∷ [],
  exits,
)
unfolding signal_suspend_sync accept_signals report is_last origin_of
one_report = refl

signals_reported_example :
    Accepted two_signals (signal_suspend_sync true two_signals)
    × (signal_suspend_sync false two_signals ≡ ([], by_error))
signals_reported_example = signals_reported two_signals
