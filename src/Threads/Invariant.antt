-- ===== src/Threads/Invariant.antt =====
-- What the threads keep to: one holds the mutex at most, the holder has loaded the current sum, and
-- the sum is that of the numbers that the threads have passed.
use linuxapi.Base.{ℕ, ◌+◌, ◌≡◌, refl, sym, ap, ◌∙◌, Bool, true, false, arith}
use linuxapi.Threads.{
  Shared, Thread, Runs, Main, System, MainMoves, Step, thread1, thread2, main_thread, begin, Reach,
  start, later,
}
use linuxapi.Threads.Views.{
  sum_below, holds, flag, added, InRange, Fresh, Beside, running, Runs-Beside, Runs-Fresh,
  Runs-running, created, Runs-created,
}

-- What the main thread knows of the others.
abbrev pub Known : System → Main → Type 0
Known s Main.create1 = (s.t1 ≡ Thread.absent) × (s.t2 ≡ Thread.absent)
Known s Main.create2 = (created s.t1 ≡ true) × (s.t2 ≡ Thread.absent)
Known s Main.join1 = (created s.t1 ≡ true) × (created s.t2 ≡ true)
Known s Main.join2 = (s.t1 ≡ Thread.returned) × (created s.t2 ≡ true)
Known s Main.destroy = (s.t1 ≡ Thread.returned) × (s.t2 ≡ Thread.returned)
Known s Main.print = (s.t1 ≡ Thread.returned) × (s.t2 ≡ Thread.returned)
Known s (Main.finished v) = (s.t1 ≡ Thread.returned) × (s.t2 ≡ Thread.returned) × (v ≡ s.mem.gsum)

pub record Inv (s : System) : Type 0 where
  pub one_holder : holds s.t1 + holds s.t2 ≡ flag s.mem.locked
  pub total : s.mem.gsum + sum_below 100 ≡ added 0 s.t1 + added 100 s.t2
  pub range1 : InRange 0 s.t1
  pub range2 : InRange 100 s.t2
  pub fresh1 : Fresh s.mem s.t1
  pub fresh2 : Fresh s.mem s.t2
  pub known : Known s s.main

-- A thread that has returned, or does not exist yet, makes no step: so the main thread knows the
-- same after a step of another one.
Known-thread1 :
    (s : System) (m' : Shared) (t' : Thread) (mn : Main)
    → running s.t1 ≡ true
    → created t' ≡ true
    → Known s mn
    → Known (record s { mem = m'; t1 = t' }) mn
Known-thread1 s m' t' Main.create1 go new k = absurd (cc (sym go ∙ ap running k.0))
Known-thread1 s m' t' Main.create2 go new k = (new, k.1)
Known-thread1 s m' t' Main.join1 go new k = (new, k.1)
Known-thread1 s m' t' Main.join2 go new k = absurd (cc (sym go ∙ ap running k.0))
Known-thread1 s m' t' Main.destroy go new k = absurd (cc (sym go ∙ ap running k.0))
Known-thread1 s m' t' Main.print go new k = absurd (cc (sym go ∙ ap running k.0))
Known-thread1 s m' t' (Main.finished v) go new k = absurd (cc (sym go ∙ ap running k.0))

Known-thread2 :
    (s : System) (m' : Shared) (t' : Thread) (mn : Main)
    → running s.t2 ≡ true
    → created t' ≡ true
    → Known s mn
    → Known (record s { mem = m'; t2 = t' }) mn
Known-thread2 s m' t' Main.create1 go new k = absurd (cc (sym go ∙ ap running k.1))
Known-thread2 s m' t' Main.create2 go new k = absurd (cc (sym go ∙ ap running k.1))
Known-thread2 s m' t' Main.join1 go new k = (k.0, new)
Known-thread2 s m' t' Main.join2 go new k = (k.0, new)
Known-thread2 s m' t' Main.destroy go new k = absurd (cc (sym go ∙ ap running k.1))
Known-thread2 s m' t' Main.print go new k = absurd (cc (sym go ∙ ap running k.1))
Known-thread2 s m' t' (Main.finished v) go new k = absurd (cc (sym go ∙ ap running k.1))

thread1-Inv :
    {checking : Bool} (s : System) {m' : Shared} {t' : Thread}
    → Runs checking 0 s.mem s.t1 m' t'
    → Inv s
    → Inv (record s { mem = m'; t1 = t' })
thread1-Inv s {m'} {t'} r inv = record {
  one_holder = b.0;
  total = b.1;
  range1 = b.2;
  range2 = inv.range2;
  fresh1 = b.3;
  fresh2 = Runs-Fresh s.t2 r inv.one_holder inv.fresh2;
  known = Known-thread1 s m' t' s.main (Runs-running r) (Runs-created r) inv.known;
}
  where
    b : Beside 0 (sum_below 100) (holds s.t2) (added 100 s.t2) m' t'
    b =
        Runs-Beside 0 (sum_below 100) (holds s.t2) (added 100 s.t2) r
          (inv.one_holder, inv.total, inv.range1, inv.fresh1)

thread2-Inv :
    {checking : Bool} (s : System) {m' : Shared} {t' : Thread}
    → Runs checking 100 s.mem s.t2 m' t'
    → Inv s
    → Inv (record s { mem = m'; t2 = t' })
thread2-Inv s {m'} {t'} r inv = record {
  one_holder = omega (arith, b.0);
  total = omega (arith, b.1);
  range1 = inv.range1;
  range2 = b.2;
  fresh1 = Runs-Fresh s.t1 r (omega (arith, inv.one_holder)) inv.fresh1;
  fresh2 = b.3;
  known = Known-thread2 s m' t' s.main (Runs-running r) (Runs-created r) inv.known;
}
  where
    b : Beside 100 (sum_below 100) (holds s.t1) (added 0 s.t1) m' t'
    b =
        Runs-Beside 100 (sum_below 100) (holds s.t1) (added 0 s.t1) r
          (omega (arith, inv.one_holder), omega (arith, inv.total), inv.range2, inv.fresh2)

abbrev exit : System → System
exit s = record s { mem = record s.mem { exited = true } }

Known-main : (s : System) (mn other : Main) → Known s mn → Known (record s { main = other }) mn
Known-main s Main.create1 other k = k
Known-main s Main.create2 other k = k
Known-main s Main.join1 other k = k
Known-main s Main.join2 other k = k
Known-main s Main.destroy other k = k
Known-main s Main.print other k = k
Known-main s (Main.finished v) other k = k

Known-exit : (s : System) (mn : Main) → Known s mn → Known (exit s) mn
Known-exit s Main.create1 k = k
Known-exit s Main.create2 k = k
Known-exit s Main.join1 k = k
Known-exit s Main.join2 k = k
Known-exit s Main.destroy k = k
Known-exit s Main.print k = k
Known-exit s (Main.finished v) k = k

-- Of the three threads only the main one moves.
at_main : (s : System) (mn : Main) → Known s mn → Inv s → Inv (record s { main = mn })
at_main s mn k inv = record {
  one_holder = inv.one_holder;
  total = inv.total;
  range1 = inv.range1;
  range2 = inv.range2;
  fresh1 = inv.fresh1;
  fresh2 = inv.fresh2;
  known = Known-main s mn mn k;
}

exit-Inv : (s : System) → Inv s → Inv (exit s)
exit-Inv s inv = record {
  one_holder = inv.one_holder;
  total = inv.total;
  range1 = inv.range1;
  range2 = inv.range2;
  fresh1 = exit-Fresh s.t1 inv.fresh1;
  fresh2 = exit-Fresh s.t2 inv.fresh2;
  known = Known-exit s s.main inv.known;
}
  where
    exit-Fresh : (t : Thread) → Fresh s.mem t → Fresh (record s.mem { exited = true }) t
    exit-Fresh (Thread.store i x) h = h
    exit-Fresh t h = tt

main-Inv :
    {checking : Bool} (s : System) {mn : Main} {t : System}
    → MainMoves checking s mn t
    → Known s mn
    → Inv s
    → Inv t
main-Inv s MainMoves.creates1 k inv = record {
  one_holder = ground (arith, inv.one_holder, ap holds k.0);
  total = ground (arith, inv.total, ap (added 0) k.0);
  range1 = omega arith;
  range2 = inv.range2;
  fresh1 = tt;
  fresh2 = inv.fresh2;
  known = (refl, k.1);
}
main-Inv s MainMoves.creates2 k inv = record {
  one_holder = ground (arith, inv.one_holder, ap holds k.1);
  total = ground (arith, inv.total, ap (added 100) k.1);
  range1 = inv.range1;
  range2 = omega arith;
  fresh1 = inv.fresh1;
  fresh2 = tt;
  known = (k.0, refl);
}
main-Inv s (MainMoves.joins1 e) k inv = at_main s Main.join2 (e, k.1) inv
main-Inv {checking = true} s (MainMoves.joins2 e) k inv = at_main s Main.destroy (k.0, e) inv
main-Inv {checking = false} s (MainMoves.joins2 e) k inv = at_main s Main.print (k.0, e) inv
main-Inv s MainMoves.destroys k inv = at_main s Main.print k inv
main-Inv s MainMoves.prints k inv = at_main s (Main.finished s.mem.gsum) (k.0, k.1, refl) inv
main-Inv s MainMoves.create1_fails k inv = exit-Inv s inv
main-Inv s MainMoves.create2_fails k inv = exit-Inv s inv

pub Step-Inv : {checking : Bool} {s t : System} → Step checking s t → Inv s → Inv t
Step-Inv {s = s} (thread1 on r) inv = thread1-Inv s r inv
Step-Inv {s = s} (thread2 on r) inv = thread2-Inv s r inv
Step-Inv {s = s} (main_thread on mv) inv = main-Inv s mv inv.known inv

begin-Inv : Inv begin
unfolding begin
begin-Inv = record {
  one_holder = refl;
  total = refl;
  range1 = tt;
  range2 = tt;
  fresh1 = tt;
  fresh2 = tt;
  known = (refl, refl);
}

pub Reach-Inv : {checking : Bool} {n : ℕ} {s : System} → Reach checking n s → Inv s
Reach-Inv start = begin-Inv
Reach-Inv (later r st) = Step-Inv st (Reach-Inv r)
