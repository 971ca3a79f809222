-- ===== src/Threads/Result.antt =====
-- What the program prints, and what the threads share on the way.
use linuxapi.Base.{ℕ, zero, suc, ◌+◌, ◌≤◌, ◌≡◌, refl, ap, Bool, true, false, arith}
use mathlib.Core.Path.{subst}
use linuxapi.Threads.{Thread, Main, System, Reach}
use linuxapi.Threads.Views.{sum_below, holds, flag, added, InRange, Fresh}
use linuxapi.Threads.Invariant.{Known, Inv, Reach-Inv}

sum_below_mono : (a b : ℕ) → a ≤ b → sum_below a ≤ sum_below b
sum_below_mono a zero le = ground arith
sum_below_mono zero (suc b) le = omega arith
sum_below_mono (suc a) (suc b) le = omega (arith, sum_below_mono a b (omega arith), le)

added-le : (from : ℕ) (t : Thread) → InRange from t → added from t ≤ sum_below (from + 100)
added-le from Thread.absent h = sum_below_mono from (from + 100) (omega arith)
added-le from Thread.returned h = omega arith
added-le from (Thread.test i) h = sum_below_mono i (from + 100) h
added-le from (Thread.lock i) h = sum_below_mono i (from + 100) (omega (arith, h))
added-le from (Thread.load i) h = sum_below_mono i (from + 100) (omega (arith, h))
added-le from (Thread.store i x) h = sum_below_mono i (from + 100) (omega (arith, h))
added-le from (Thread.unlock i) h = sum_below_mono (suc i) (from + 100) (omega (arith, h))

-- Whatever the order in which the three threads run, the program prints 19900, the sum of the
-- numbers from 0 to 199, if it prints at all; this holds with and without the tests of the mutex.
pub printed_sum :
    {checking : Bool} {n : ℕ} {s : System} (v : ℕ)
    → Reach checking n s
    → s.main ≡ Main.finished v
    → v ≡ 19900
printed_sum {s = s} v r e = omega (arith, inv.total, k.2, ap (added 0) k.0, ap (added 100) k.1)
  where
    inv : Inv s
    inv = Reach-Inv r

    k : Known s (Main.finished v)
    k = subst (Known s) e inv.known

-- In every reachable state `gsum` is at most 19900, so the `int` of the program does not overflow.
pub gsum_bounded : {checking : Bool} {n : ℕ} {s : System} → Reach checking n s → s.mem.gsum ≤ 19900
gsum_bounded {s = s} r =
    omega (arith, inv.total, added-le 0 s.t1 inv.range1, added-le 100 s.t2 inv.range2)
  where
    inv : Inv s
    inv = Reach-Inv r

-- No two threads are between `lock` and `unlock` at once, and what one of them has loaded there is
-- still the value of `gsum`.
pub additions_exclusive :
    {checking : Bool} {n : ℕ} {s : System}
    → Reach checking n s
    → (holds s.t1 + holds s.t2 ≤ 1) × Fresh s.mem s.t1 × Fresh s.mem s.t2
additions_exclusive {s = s} r =
    (omega (arith, inv.one_holder, flag-le s.mem.locked), inv.fresh1, inv.fresh2)
  where
    inv : Inv s
    inv = Reach-Inv r

    flag-le : (b : Bool) → flag b ≤ 1
    flag-le true = omega arith
    flag-le false = omega arith

-- When `pthread_mutex_destroy` is called, the mutex is free.
pub destroyed_free :
    {checking : Bool} {n : ℕ} {s : System}
    → Reach checking n s
    → s.main ≡ Main.destroy
    → s.mem.locked ≡ false
destroyed_free {s = s} r e =
    free s.mem.locked (omega (arith, inv.one_holder, ap holds k.0, ap holds k.1))
  where
    inv : Inv s
    inv = Reach-Inv r

    k : Known s Main.destroy
    k = subst (Known s) e inv.known

    free : (b : Bool) → flag b ≡ 0 → b ≡ false
    free true h = absurd (omega (arith, h))
    free false h = refl
