-- ===== src/MutexPair/Sums.antt =====
-- What is in the data, and what is printed.
use linuxapi.Base.{ℕ, zero, suc, ◌+◌, ◌*◌, ◌≤◌, ◌<◌, ◌≡◌, refl, ap, Bool, true, false, arith}
use linuxapi.MutexPair.{Tdata, Routine, rounds, Adds, Cell}

-- 0 + 1 + ... + (n - 1)
abbrev pub sum_below : ℕ → ℕ
sum_below zero = 0
sum_below (suc n) = n + sum_below n

pub gauss : (n : ℕ) → sum_below n * 2 + n ≡ n * n
gauss zero = refl
gauss (suc n) = grind (arith, gauss n)

abbrev pub holds : Routine → ℕ
holds Routine.unlock = 1
holds (Routine.test i) = 1
holds (Routine.load i) = 1
holds (Routine.store i x) = 1
holds r = 0

abbrev pub flag : Bool → ℕ
flag true = 1
flag false = 0

-- What a thread has added.
abbrev pub added : Routine → ℕ
added Routine.absent = 0
added Routine.lock = 0
added Routine.unlock = sum_below rounds
added Routine.returned = sum_below rounds
added (Routine.test i) = sum_below i
added (Routine.load i) = sum_below i
added (Routine.store i x) = sum_below i

abbrev pub InRange : Routine → Type 0
InRange (Routine.test i) = i ≤ rounds
InRange (Routine.load i) = i < rounds
InRange (Routine.store i x) = i < rounds
InRange r = Unit {0}

abbrev pub Fresh : Tdata → Routine → Type 0
Fresh d (Routine.store i x) = x ≡ d.value
Fresh d r = Unit {0}

-- One thread beside another that holds the mutex `h` times and has added `c`.
abbrev pub Beside : (h c : ℕ) → Tdata → Routine → Type 0
Beside h c d r = (holds r + h ≡ flag d.locked) × (d.value ≡ added r + c) × InRange r × Fresh d r

Adds-Beside :
    (h c : ℕ) {d d' : Tdata} {r r' : Routine} → Adds d r d' r' → Beside h c d r → Beside h c d' r'
Adds-Beside h c (Adds.locks e) inv = ground arith
Adds-Beside h c (Adds.goes_on e) inv = ground arith
Adds-Beside h c Adds.loads inv = ground arith
Adds-Beside h c Adds.stores inv = ground arith
Adds-Beside h c (Adds.ends {i = i} e) inv =
    let last : i ≡ rounds = ground arith in ground (arith, ap sum_below last)
Adds-Beside h c Adds.unlocks inv = ground arith

Fresh-store : (d : Tdata) (v : ℕ) (q : Routine) → holds q ≡ 0 → Fresh (record d { value = v }) q
Fresh-store d v Routine.absent h = tt
Fresh-store d v Routine.lock h = tt
Fresh-store d v Routine.unlock h = tt
Fresh-store d v Routine.returned h = tt
Fresh-store d v (Routine.test i) h = tt
Fresh-store d v (Routine.load i) h = tt
Fresh-store d v (Routine.store i x) h = absurd (omega (arith, h))

flag-le : (b : Bool) → flag b ≤ 1
flag-le true = omega arith
flag-le false = omega arith

-- What the other thread has loaded is still there.
Adds-Fresh :
    {d d' : Tdata} {r r' : Routine} (q : Routine)
    → Adds d r d' r'
    → holds r + holds q ≡ flag d.locked
    → Fresh d q
    → Fresh d' q
Adds-Fresh {d = d} q Adds.stores one f = Fresh-store d _ q (omega (arith, one, flag-le d.locked))
Adds-Fresh q (Adds.locks e) one f = ground arith
Adds-Fresh q (Adds.goes_on e) one f = f
Adds-Fresh q Adds.loads one f = f
Adds-Fresh q (Adds.ends e) one f = f
Adds-Fresh q Adds.unlocks one f = ground arith

pub record CellInv (c : Cell) : Type 0 where
  pub one_holder : holds c.t + holds c.u ≡ flag c.shared.locked
  pub total : c.shared.value ≡ added c.t + added c.u
  pub range_t : InRange c.t
  pub range_u : InRange c.u
  pub fresh_t : Fresh c.shared c.t
  pub fresh_u : Fresh c.shared c.u

pub first-CellInv :
    (c : Cell) {d : Tdata} {r : Routine}
    → Adds c.shared c.t d r
    → CellInv c
    → CellInv (record c { shared = d; t = r })
first-CellInv c m inv =
    let b =
      Adds-Beside (holds c.u) (added c.u) m (inv.one_holder, inv.total, inv.range_t, inv.fresh_t) in
    record {
      one_holder = b.0;
      total = b.1;
      range_t = b.2;
      range_u = inv.range_u;
      fresh_t = b.3;
      fresh_u = Adds-Fresh c.u m inv.one_holder inv.fresh_u;
    }

pub second-CellInv :
    (c : Cell) {d : Tdata} {r : Routine}
    → Adds c.shared c.u d r
    → CellInv c
    → CellInv (record c { shared = d; u = r })
second-CellInv c m inv =
    let one : holds c.u + holds c.t ≡ flag c.shared.locked = omega (arith, inv.one_holder) in
    let b =
      Adds-Beside (holds c.t) (added c.t) m
        (one, omega (arith, inv.total), inv.range_u, inv.fresh_u) in
    record {
      one_holder = omega (arith, b.0);
      total = omega (arith, b.1);
      range_t = inv.range_t;
      range_u = b.2;
      fresh_t = Adds-Fresh c.t m one inv.fresh_t;
      fresh_u = b.3;
    }
