-- ===== src/Suspend/Masked.antt =====
-- What holds at each place of signal_suspend, whatever signals come.
use linuxapi.Base.{◌≡◌, refl, true, false, ◌&&◌, ◌||◌}
use linuxapi.Suspend.{
  Signal, sigint, sigquit, Signals, none_of, both, has, Place, System, is_over, Fails, block_fails,
  catch_int_fails, catch_quit_fails, restore_fails, is_blocked, is_quit, arrive, woken_by, deliver,
  arrives, runs, fails, handles, kills, Reach, start, later,
}
use linuxapi.Suspend.Phases.{Keeps, runs-Keeps}

-- A signal that the masks keep out
blocked : (g : Signal) {m : Signals} → m ≡ both → has g m ≡ false → ⊥
blocked sigint e h = cc
blocked sigquit e h = cc

uncaught : (g : Signal) {c : Signals} → c ≡ none_of → has g c ≡ true → ⊥
uncaught sigint e h = cc
uncaught sigquit e h = cc

all_caught : (g : Signal) {c : Signals} → c ≡ both → has g c ≡ false → ⊥
all_caught sigint e h = cc
all_caught sigquit e h = cc

delivers-Keeps :
    {m : Signals} (g : Signal) (p : Place) (s : System)
    → is_over p ≡ false
    → has g s.mask ≡ false
    → has g s.caught ≡ true
    → Keeps m p s
    → Keeps m (woken_by p) (record (deliver g s) { place = woken_by p })
delivers-Keeps g Place.block s o h c k = absurd (uncaught g k.catches c)
delivers-Keeps g Place.catch_int s o h c k = absurd (blocked g k.masks.0 h)
delivers-Keeps g Place.catch_quit s o h c k = absurd (blocked g k.masks.0 h)
delivers-Keeps g Place.test s o h c k = absurd (blocked g k.masks.0 h)
delivers-Keeps g Place.critical s o h c k = absurd (blocked g k.masks.0 h)
delivers-Keeps g Place.count s o h c k = absurd (blocked g k.masks.0 h)
delivers-Keeps g Place.suspend s o h c k = absurd (blocked g k.masks.0 h)
delivers-Keeps g Place.waiting s o h c k = record {
  masks = k.masks;
  flag = tt;
  catches = k.catches;
  lines = k.lines;
}
delivers-Keeps g Place.woken s o h c k = record {
  masks = k.masks;
  flag = tt;
  catches = k.catches;
  lines = k.lines;
}
delivers-Keeps g Place.restore s o h c k = absurd (blocked g k.masks.0 h)
delivers-Keeps g Place.returned s o h c k = absurd cc
delivers-Keeps g Place.failed s o h c k = absurd cc
delivers-Keeps g Place.killed s o h c k = absurd cc

-- No signal ends the process behind the first `sigprocmask`.
kills-Keeps :
    {m : Signals} (g : Signal) (p : Place) (s : System)
    → is_over p ≡ false
    → has g s.mask ≡ false
    → has g s.caught ≡ false
    → Keeps m p s
    → Keeps m Place.killed (record s { place = Place.killed })
kills-Keeps g Place.block s o h c k = record {
  masks = k.masks.1;
  flag = k.flag;
  catches = tt;
  lines = k.lines;
}
kills-Keeps g Place.catch_int s o h c k = absurd (blocked g k.masks.0 h)
kills-Keeps g Place.catch_quit s o h c k = absurd (blocked g k.masks.0 h)
kills-Keeps g Place.test s o h c k = absurd (blocked g k.masks.0 h)
kills-Keeps g Place.critical s o h c k = absurd (blocked g k.masks.0 h)
kills-Keeps g Place.count s o h c k = absurd (blocked g k.masks.0 h)
kills-Keeps g Place.suspend s o h c k = absurd (blocked g k.masks.0 h)
kills-Keeps g Place.waiting s o h c k = absurd (all_caught g k.catches c)
kills-Keeps g Place.woken s o h c k = absurd (all_caught g k.catches c)
kills-Keeps g Place.restore s o h c k = absurd (blocked g k.masks.0 h)
kills-Keeps g Place.returned s o h c k = absurd cc
kills-Keeps g Place.failed s o h c k = absurd cc
kills-Keeps g Place.killed s o h c k = absurd cc

fails-Keeps :
    {m : Signals} {p : Place} {s : System}
    → Fails p
    → Keeps m p s
    → Keeps m Place.failed (record s { place = Place.failed })
fails-Keeps block_fails k = record { masks = tt; flag = tt; catches = tt; lines = k.lines }
fails-Keeps catch_int_fails k = record { masks = tt; flag = tt; catches = tt; lines = k.lines }
fails-Keeps catch_quit_fails k = record { masks = tt; flag = tt; catches = tt; lines = k.lines }
fails-Keeps restore_fails k = record { masks = tt; flag = tt; catches = tt; lines = k.lines }

arrives-Keeps :
    {m : Signals} (g : Signal) (p : Place) (s : System)
    → is_over p ≡ false
    → Keeps m p s
    → Keeps m p (record (arrive g s) { sent = s.sent || (is_quit g && is_blocked p); place = p })
arrives-Keeps sigint Place.block s o k = record {
  masks = (k.masks.0, rw (k.masks.1) refl);
  flag = k.flag;
  catches = k.catches;
  lines = k.lines;
}
arrives-Keeps sigquit Place.block s o k = record {
  masks = (k.masks.0, rw (k.masks.1) refl);
  flag = k.flag;
  catches = k.catches;
  lines = k.lines;
}
arrives-Keeps g Place.catch_int s o k = record {
  masks = k.masks;
  flag = k.flag;
  catches = k.catches;
  lines = k.lines;
}
arrives-Keeps g Place.catch_quit s o k = record {
  masks = k.masks;
  flag = k.flag;
  catches = k.catches;
  lines = k.lines;
}
arrives-Keeps g Place.test s o k = record {
  masks = k.masks;
  flag = k.flag;
  catches = k.catches;
  lines = k.lines;
}
arrives-Keeps g Place.critical s o k = record {
  masks = k.masks;
  flag = k.flag;
  catches = k.catches;
  lines = k.lines;
}
arrives-Keeps g Place.count s o k = record {
  masks = k.masks;
  flag = k.flag;
  catches = k.catches;
  lines = k.lines;
}
arrives-Keeps g Place.suspend s o k = record {
  masks = k.masks;
  flag = k.flag;
  catches = k.catches;
  lines = k.lines;
}
arrives-Keeps g Place.waiting s o k = record {
  masks = k.masks;
  flag = k.flag;
  catches = k.catches;
  lines = k.lines;
}
arrives-Keeps g Place.woken s o k = record {
  masks = k.masks;
  flag = k.flag;
  catches = k.catches;
  lines = k.lines;
}
arrives-Keeps g Place.restore s o k = record {
  masks = k.masks;
  flag = k.flag;
  catches = k.catches;
  lines = k.lines;
}
arrives-Keeps g Place.returned s o k = absurd cc
arrives-Keeps g Place.failed s o k = absurd cc
arrives-Keeps g Place.killed s o k = absurd cc

pub Reach-Keeps : {m : Signals} {s : System} → Reach m s → Keeps m s.place s
Reach-Keeps (start p) = record { masks = (refl, refl); flag = refl; catches = refl; lines = refl }
Reach-Keeps (later {s} r (arrives g o)) = arrives-Keeps g s.place s o (Reach-Keeps r)
Reach-Keeps (later {s} r (runs w o)) = runs-Keeps s.place s w o (Reach-Keeps r)
Reach-Keeps (later {s} r (fails f)) = fails-Keeps f (Reach-Keeps r)
Reach-Keeps (later {s} r (handles g o n h c)) = delivers-Keeps g s.place s o h c (Reach-Keeps r)
Reach-Keeps (later {s} r (kills g o n h c)) = kills-Keeps g s.place s o h c (Reach-Keeps r)
