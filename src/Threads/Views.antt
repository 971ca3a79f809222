-- ===== src/Threads/Views.antt =====
-- What holds of one thread, and of a thread beside the other.
use linuxapi.Base.{ℕ, zero, suc, ◌+◌, ◌≤◌, ◌<◌, ◌≡◌, refl, ap, Bool, true, false, arith}
use linuxapi.Threads.{Shared, Thread, Runs}

-- 0 + 1 + ... + (n - 1)
abbrev pub sum_below : ℕ → ℕ
sum_below zero = 0
sum_below (suc n) = n + sum_below n

-- 1 for a thread between `lock` and `unlock`
abbrev pub holds : Thread → ℕ
holds (Thread.load i) = 1
holds (Thread.store i x) = 1
holds (Thread.unlock i) = 1
holds t = 0

abbrev pub flag : Bool → ℕ
flag true = 1
flag false = 0

-- The sum of the numbers that a thread has added, and of those below its first one.
abbrev pub added : (from : ℕ) → Thread → ℕ
added from Thread.absent = sum_below from
added from Thread.returned = sum_below (from + 100)
added from (Thread.test i) = sum_below i
added from (Thread.lock i) = sum_below i
added from (Thread.load i) = sum_below i
added from (Thread.store i x) = sum_below i
added from (Thread.unlock i) = sum_below (suc i)

-- `i` is in range.
abbrev pub InRange : (from : ℕ) → Thread → Type 0
InRange from (Thread.test i) = i ≤ from + 100
InRange from (Thread.lock i) = i < from + 100
InRange from (Thread.load i) = i < from + 100
InRange from (Thread.store i x) = i < from + 100
InRange from (Thread.unlock i) = i < from + 100
InRange from t = Unit

abbrev pub Fresh : Shared → Thread → Type 0
Fresh m (Thread.store i x) = x ≡ m.gsum
Fresh m t = Unit

-- One step of a thread beside another that holds the mutex `h` times and has added `c`.
abbrev pub Beside : (from base h c : ℕ) → Shared → Thread → Type 0
Beside from base h c m t =
    (holds t + h ≡ flag m.locked) × (m.gsum + base ≡ added from t + c) × InRange from t × Fresh m t

pub Runs-Beside :
    {checking : Bool} (from base h c : ℕ) {m m' : Shared} {t t' : Thread}
    → Runs checking from m t m' t'
    → Beside from base h c m t
    → Beside from base h c m' t'
Runs-Beside from base h c (Runs.goes_on e) inv = ground arith
Runs-Beside from base h c (Runs.ends {i = i} e) inv =
    let last : i ≡ from + 100 = ground arith in ground (arith, ap sum_below last)
Runs-Beside from base h c (Runs.acquire e) inv = ground arith
Runs-Beside from base h c Runs.loads inv = ground arith
Runs-Beside from base h c Runs.stores inv = ground arith
Runs-Beside from base h c Runs.unlocks inv = ground arith
Runs-Beside from base h c (Runs.lock_fails e) inv = ground arith
Runs-Beside from base h c (Runs.unlock_fails e) inv = ground arith

at_most_one : (b : Bool) → flag b ≤ 1
at_most_one true = omega arith
at_most_one false = omega arith

-- The value that another thread has loaded stays fresh.
Fresh-store : (m : Shared) (n : ℕ) (u : Thread) → 1 + holds u ≤ 1 → Fresh (record m { gsum = n }) u
Fresh-store m n (Thread.store i x) le = absurd (omega arith)
Fresh-store m n u le = tt

pub Runs-Fresh :
    {checking : Bool} {from : ℕ} {m m' : Shared} {t t' : Thread} (u : Thread)
    → Runs checking from m t m' t'
    → holds t + holds u ≡ flag m.locked
    → Fresh m u
    → Fresh m' u
Runs-Fresh {m = m} u Runs.stores one h =
    Fresh-store m _ u (omega (arith, one, at_most_one m.locked))
Runs-Fresh u (Runs.goes_on e) one h = h
Runs-Fresh u (Runs.ends e) one h = h
Runs-Fresh u (Runs.acquire e) one h = ground arith
Runs-Fresh u Runs.loads one h = h
Runs-Fresh u Runs.unlocks one h = ground arith
Runs-Fresh u (Runs.lock_fails e) one h = ground arith
Runs-Fresh u (Runs.unlock_fails e) one h = ground arith

abbrev pub running : Thread → Bool
running Thread.absent = false
running Thread.returned = false
running t = true

pub Runs-running :
    {checking : Bool} {from : ℕ} {m m' : Shared} {t t' : Thread}
    → Runs checking from m t m' t'
    → running t ≡ true
Runs-running (Runs.goes_on e) = refl
Runs-running (Runs.ends e) = refl
Runs-running (Runs.acquire e) = refl
Runs-running Runs.loads = refl
Runs-running Runs.stores = refl
Runs-running Runs.unlocks = refl
Runs-running (Runs.lock_fails e) = refl
Runs-running (Runs.unlock_fails e) = refl

abbrev pub created : Thread → Bool
created Thread.absent = false
created t = true

pub Runs-created :
    {checking : Bool} {from : ℕ} {m m' : Shared} {t t' : Thread}
    → Runs checking from m t m' t'
    → created t' ≡ true
Runs-created (Runs.goes_on e) = refl
Runs-created (Runs.ends e) = refl
Runs-created (Runs.acquire e) = refl
Runs-created Runs.loads = refl
Runs-created Runs.stores = refl
Runs-created Runs.unlocks = refl
Runs-created (Runs.lock_fails e) = refl
Runs-created (Runs.unlock_fails e) = refl
