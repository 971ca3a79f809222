-- ===== src/Suspend/Kept.antt =====
-- SIGQUIT is not missed.
use linuxapi.Base.{◌≡◌, ◌⊎◌, inl, inr, refl, true, false}
use linuxapi.Suspend.{
  Signal, sigint, sigquit, Signals, Place, System, signal_suspend_handler, signal_suspend, arrive,
  deliver, arrives, runs, fails, handles, kills, Reach, start, later,
}

-- A SIGQUIT that has come is pending or has been noted.
abbrev pub Kept : System → Type 0
Kept s = (s.sent ≡ false) ⊎ ((s.pending.quit ≡ true) ⊎ (s.sigquit_flag ≡ true))

runs-Kept : (p : Place) (s : System) → Kept s → Kept (signal_suspend p s)
unfolding signal_suspend
runs-Kept Place.block s k = k
runs-Kept Place.catch_int s k = k
runs-Kept Place.catch_quit s k = k
runs-Kept Place.test s k = k
runs-Kept Place.critical s k = k
runs-Kept Place.count s k = k
runs-Kept Place.suspend s k = k
runs-Kept Place.waiting s k = k
runs-Kept Place.woken s k = k
runs-Kept Place.restore s k = k
runs-Kept Place.returned s k = k
runs-Kept Place.failed s k = k
runs-Kept Place.killed s k = k

delivers-Kept : (g : Signal) (s : System) → Kept s → Kept (deliver g s)
unfolding signal_suspend_handler
delivers-Kept sigint s k = k
delivers-Kept sigquit s k = inr (inr refl)

arrives-Kept : (g : Signal) (s : System) → Kept s → Kept (arrive g s)
arrives-Kept sigint s (inl e) = inl (rw (e) refl)
arrives-Kept sigint s (inr k) = inr k
arrives-Kept sigquit s k = inr (inl refl)

pub Reach-Kept : {m : Signals} {s : System} → Reach m s → Kept s
Reach-Kept (start p) = inl refl
Reach-Kept (later {s} r (arrives g o)) = arrives-Kept g s (Reach-Kept r)
Reach-Kept (later {s} r (runs w o)) = runs-Kept s.place s (Reach-Kept r)
Reach-Kept (later r (fails f)) = Reach-Kept r
Reach-Kept (later {s} r (handles g o n h c)) = delivers-Kept g s (Reach-Kept r)
Reach-Kept (later r (kills g o n h c)) = Reach-Kept r
