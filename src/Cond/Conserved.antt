-- ===== src/Cond/Conserved.antt =====
-- The works made against those counted and consumed.
use linuxapi.Base.{◌+◌, ◌≤◌, ◌≡◌, arith}
use linuxapi.Cond.{rounds, Producer, System, Reach}
use linuxapi.Cond.Views.{made, InRange}
use linuxapi.Cond.Invariant.{owed, Inv}
use linuxapi.Cond.Whole.{Reach-Inv}

made-le : (p : Producer) → InRange p → made p ≤ rounds
made-le Producer.absent h = omega arith
made-le Producer.detach h = omega arith
made-le Producer.returned h = omega arith
made-le (Producer.test i) h = h
made-le (Producer.nap i) h = omega (arith, h)
made-le (Producer.lock i) h = omega (arith, h)
made-le (Producer.load i) h = omega (arith, h)
made-le (Producer.store i x) h = omega (arith, h)
made-le (Producer.unlock i) h = omega (arith, h)
made-le (Producer.signal i) h = omega (arith, h)

-- In every reachable state the works that are counted, and those that are consumed, are together
-- the works that the two producers have made, but for one that the main thread is about to report;
-- and both counts are at most 2000, so no `int` overflows.
pub works_conserved :
    {s : System}
    → Reach s
    → (s.mem.work + (s.mem.consumed + owed s.main) ≡ made s.p1 + made s.p2)
      × (s.mem.work + s.mem.consumed ≤ 2000)
works_conserved {s} r =
    (inv.total, omega (arith, inv.total, made-le s.p1 inv.range1, made-le s.p2 inv.range2))
  where
    inv : Inv s
    inv = Reach-Inv r
