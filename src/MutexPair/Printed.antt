-- ===== src/MutexPair/Printed.antt =====
-- What the main thread knows of the others, and what it prints.
use linuxapi.Base.{ℕ, ◌+◌, ◌≡◌, refl, ap, sym, ◌∙◌, Bool, true, false, arith}
use mathlib.Core.Path.{subst}
use linuxapi.MutexPair.{
  Tdata, Routine, rounds, Adds, Cell, Caller, System, CallerMoves, Step, thread1, thread2, thread3,
  main_thread, fresh, Reach, start, later,
}
use linuxapi.MutexPair.Sums.{sum_below, gauss, holds, added, CellInv, first-CellInv, second-CellInv}

pub data Standing : Type 0 where
  not_yet some_place over : Standing

abbrev pub Stands : Standing → Routine → Type 0
Stands Standing.not_yet r = r ≡ Routine.absent
Stands Standing.some_place r = Unit {0}
Stands Standing.over r = r ≡ Routine.returned

abbrev pub standing1 : Caller → Standing
standing1 Caller.create1 = Standing.not_yet
standing1 Caller.create2 = Standing.some_place
standing1 Caller.create3 = Standing.some_place
standing1 Caller.join1 = Standing.some_place
standing1 Caller.died = Standing.some_place
standing1 c = Standing.over

abbrev pub standing2 : Caller → Standing
standing2 Caller.create1 = Standing.not_yet
standing2 Caller.create2 = Standing.not_yet
standing2 Caller.create3 = Standing.some_place
standing2 Caller.join1 = Standing.some_place
standing2 Caller.join2 = Standing.some_place
standing2 Caller.died = Standing.some_place
standing2 c = Standing.over

abbrev pub standing3 : Caller → Standing
standing3 Caller.create1 = Standing.not_yet
standing3 Caller.create2 = Standing.not_yet
standing3 Caller.create3 = Standing.not_yet
standing3 Caller.join1 = Standing.some_place
standing3 Caller.join2 = Standing.some_place
standing3 Caller.join3 = Standing.some_place
standing3 Caller.died = Standing.some_place
standing3 c = Standing.over

abbrev pub Printed : Caller → Type 0
Printed (Caller.print2 v) = v ≡ sum_below rounds
Printed (Caller.finished v w) = (v ≡ sum_below rounds) × (w ≡ sum_below rounds + sum_below rounds)
Printed c = Unit {0}

pub record Inv (s : System) : Type 0 where
  pub inv1 : CellInv s.cell1
  pub inv2 : CellInv s.cell2
  pub stands1 : Stands (standing1 s.caller) s.cell1.t
  pub stands2 : Stands (standing2 s.caller) s.cell2.t
  pub stands3 : Stands (standing3 s.caller) s.cell2.u
  pub alone : s.cell1.u ≡ Routine.absent
  pub printed : Printed s.caller

abbrev moves : Routine → Bool
moves Routine.absent = false
moves Routine.returned = false
moves r = true

Adds-moves : {d d' : Tdata} {r r' : Routine} → Adds d r d' r' → moves r ≡ true
Adds-moves (Adds.locks e) = refl
Adds-moves (Adds.goes_on e) = refl
Adds-moves Adds.loads = refl
Adds-moves Adds.stores = refl
Adds-moves (Adds.ends e) = refl
Adds-moves Adds.unlocks = refl

-- A thread that does not exist or has returned makes no step.
Adds-Stands :
    {d d' : Tdata} {r r' : Routine} (k : Standing) → Adds d r d' r' → Stands k r → Stands k r'
Adds-Stands Standing.some_place m h = tt
Adds-Stands Standing.not_yet m h = absurd (cc (sym (Adds-moves m) ∙ ap moves h))
Adds-Stands Standing.over m h = absurd (cc (sym (Adds-moves m) ∙ ap moves h))

-- A new thread holds nothing and has added nothing.
created-CellInv :
    (c : Cell) → c.t ≡ Routine.absent → CellInv c → CellInv (record c { t = Routine.lock })
created-CellInv c none_ inv = record {
  one_holder = omega (arith, inv.one_holder, ap holds none_);
  total = omega (arith, inv.total, ap added none_);
  range_t = tt;
  range_u = inv.range_u;
  fresh_t = tt;
  fresh_u = inv.fresh_u;
}

created_second-CellInv :
    (c : Cell) → c.u ≡ Routine.absent → CellInv c → CellInv (record c { u = Routine.lock })
created_second-CellInv c none_ inv = record {
  one_holder = omega (arith, inv.one_holder, ap holds none_);
  total = omega (arith, inv.total, ap added none_);
  range_t = inv.range_t;
  range_u = tt;
  fresh_t = inv.fresh_t;
  fresh_u = tt;
}

-- The invariant, with the place of the caller apart.
abbrev At : System → Caller → Type 0
At s c =
    Stands (standing1 c) s.cell1.t
    × Stands (standing2 c) s.cell2.t
    × Stands (standing3 c) s.cell2.u
    × Printed c

died_at :
    (s : System)
    → CellInv s.cell1
    → CellInv s.cell2
    → s.cell1.u ≡ Routine.absent
    → Inv (record s { caller = Caller.died })
died_at s i j a = record {
  inv1 = i;
  inv2 = j;
  stands1 = tt;
  stands2 = tt;
  stands3 = tt;
  alone = a;
  printed = tt;
}

caller-Inv :
    (s : System) {c : Caller} {s' : System}
    → CallerMoves s c s'
    → CellInv s.cell1
    → CellInv s.cell2
    → s.cell1.u ≡ Routine.absent
    → At s c
    → Inv s'
caller-Inv s CallerMoves.creates1 i j a k = record {
  inv1 = created-CellInv s.cell1 k.0 i;
  inv2 = j;
  stands1 = tt;
  stands2 = k.1;
  stands3 = k.2;
  alone = a;
  printed = tt;
}
caller-Inv s CallerMoves.creates2 i j a k = record {
  inv1 = i;
  inv2 = created-CellInv s.cell2 k.1 j;
  stands1 = tt;
  stands2 = tt;
  stands3 = k.2;
  alone = a;
  printed = tt;
}
caller-Inv s CallerMoves.creates3 i j a k = record {
  inv1 = i;
  inv2 = created_second-CellInv s.cell2 k.2 j;
  stands1 = tt;
  stands2 = tt;
  stands3 = tt;
  alone = a;
  printed = tt;
}
caller-Inv s CallerMoves.create1_fails i j a k = died_at s i j a
caller-Inv s CallerMoves.create2_fails i j a k = died_at s i j a
caller-Inv s CallerMoves.create3_fails i j a k = died_at s i j a
caller-Inv s (CallerMoves.joins1 e) i j a k = record {
  inv1 = i;
  inv2 = j;
  stands1 = e;
  stands2 = tt;
  stands3 = tt;
  alone = a;
  printed = tt;
}
caller-Inv s (CallerMoves.joins2 e) i j a k = record {
  inv1 = i;
  inv2 = j;
  stands1 = k.0;
  stands2 = e;
  stands3 = tt;
  alone = a;
  printed = tt;
}
caller-Inv s (CallerMoves.joins3 e) i j a k = record {
  inv1 = i;
  inv2 = j;
  stands1 = k.0;
  stands2 = k.1;
  stands3 = e;
  alone = a;
  printed = tt;
}
caller-Inv s CallerMoves.prints1 i j a k = record {
  inv1 = i;
  inv2 = j;
  stands1 = k.0;
  stands2 = k.1;
  stands3 = k.2;
  alone = a;
  printed = omega (arith, i.total, ap added k.0, ap added a);
}
caller-Inv s CallerMoves.prints2 i j a k = record {
  inv1 = i;
  inv2 = j;
  stands1 = k.0;
  stands2 = k.1;
  stands3 = k.2;
  alone = a;
  printed = (k.3, omega (arith, j.total, ap added k.1, ap added k.2));
}

Step-Inv : {s s' : System} → Step s s' → Inv s → Inv s'
Step-Inv {s = s} (thread1 on m) inv = record {
  inv1 = first-CellInv s.cell1 m inv.inv1;
  inv2 = inv.inv2;
  stands1 = Adds-Stands (standing1 s.caller) m inv.stands1;
  stands2 = inv.stands2;
  stands3 = inv.stands3;
  alone = inv.alone;
  printed = inv.printed;
}
Step-Inv {s = s} (thread2 on m) inv = record {
  inv1 = inv.inv1;
  inv2 = first-CellInv s.cell2 m inv.inv2;
  stands1 = inv.stands1;
  stands2 = Adds-Stands (standing2 s.caller) m inv.stands2;
  stands3 = inv.stands3;
  alone = inv.alone;
  printed = inv.printed;
}
Step-Inv {s = s} (thread3 on m) inv = record {
  inv1 = inv.inv1;
  inv2 = second-CellInv s.cell2 m inv.inv2;
  stands1 = inv.stands1;
  stands2 = inv.stands2;
  stands3 = Adds-Stands (standing3 s.caller) m inv.stands3;
  alone = inv.alone;
  printed = inv.printed;
}
Step-Inv {s = s} (main_thread at m) inv =
    caller-Inv s m inv.inv1 inv.inv2 inv.alone
      (subst (At s) at (inv.stands1, inv.stands2, inv.stands3, inv.printed))

fresh-CellInv : CellInv fresh
fresh-CellInv = record {
  one_holder = refl;
  total = refl;
  range_t = tt;
  range_u = tt;
  fresh_t = tt;
  fresh_u = tt;
}

Reach-Inv : {s : System} → Reach s → Inv s
Reach-Inv start = record {
  inv1 = fresh-CellInv;
  inv2 = fresh-CellInv;
  stands1 = refl;
  stands2 = refl;
  stands3 = refl;
  alone = refl;
  printed = tt;
}
Reach-Inv (later r st) = Step-Inv st (Reach-Inv r)

-- Whatever the order in which the threads run, `mutex_example`, if it prints both results, prints
-- 49995000 for `data1`, the sum of the numbers below 10000, and twice as much for `data2`.
pub sums_printed :
    {s : System} (v w : ℕ)
    → Reach s
    → s.caller ≡ Caller.finished v w
    → (v ≡ 49995000) × (w ≡ 99990000)
sums_printed v w r at =
    let k : Printed (Caller.finished v w) = subst Printed at (Reach-Inv r).printed in
    (omega (arith, k.0, gauss rounds), omega (arith, k.1, gauss rounds))
