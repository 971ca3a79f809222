-- ===== src/Cond/Views.antt =====
-- What holds of one producer, beside the others.
use linuxapi.Base.{ℕ, suc, ◌+◌, ◌≤◌, ◌<◌, ◌≡◌, ◌⊎◌, inl, inr, refl, Bool, true, false, arith}
use linuxapi.Cond.{Shared, rounds, Producer, Makes, Main}

-- 1 for a thread that holds the mutex
abbrev pub holds : Producer → ℕ
holds (Producer.load i) = 1
holds (Producer.store i x) = 1
holds (Producer.unlock i) = 1
holds p = 0

abbrev pub main_holds : Main → ℕ
main_holds Main.check = 1
main_holds Main.wait = 1
main_holds Main.drain = 1
main_holds Main.load = 1
main_holds (Main.store x) = 1
main_holds Main.report = 1
main_holds mn = 0

abbrev pub flag : Bool → ℕ
flag true = 1
flag false = 0

pub flag-le : (b : Bool) → flag b ≤ 1
flag-le true = omega arith
flag-le false = omega arith

-- The works that a producer has made.
abbrev pub made : Producer → ℕ
made Producer.absent = 0
made Producer.detach = rounds
made Producer.returned = rounds
made (Producer.test i) = i
made (Producer.nap i) = i
made (Producer.lock i) = i
made (Producer.load i) = i
made (Producer.store i x) = i
made (Producer.unlock i) = suc i
made (Producer.signal i) = suc i

abbrev pub InRange : Producer → Type 0
InRange (Producer.test i) = i ≤ rounds
InRange (Producer.nap i) = i < rounds
InRange (Producer.lock i) = i < rounds
InRange (Producer.load i) = i < rounds
InRange (Producer.store i x) = i < rounds
InRange (Producer.unlock i) = i < rounds
InRange (Producer.signal i) = i < rounds
InRange p = Unit

abbrev pub Fresh : Shared → Producer → Type 0
Fresh m (Producer.store i x) = x ≡ m.work
Fresh m p = Unit

-- A producer that has made a work and not signalled it yet.
abbrev pub pending : Producer → ℕ
pending (Producer.unlock i) = 1
pending (Producer.signal i) = 1
pending p = 0

-- A producer beside others that hold the mutex `h` times and have made `c`, `k` of all works being
-- consumed.
abbrev pub Beside : (h c k : ℕ) → Shared → Producer → Type 0
Beside h c k m p = (holds p + h ≡ flag m.locked) × (m.work + k ≡ made p + c) × InRange p × Fresh m p

pub Makes-Beside :
    (h c k : ℕ) {m m' : Shared} {p p' : Producer}
    → Makes m p m' p'
    → Beside h c k m p
    → Beside h c k m' p'
Makes-Beside h c k (Makes.goes_on e) inv = ground arith
Makes-Beside h c k (Makes.ends e) inv = ground arith
Makes-Beside h c k Makes.wakes inv = ground arith
Makes-Beside h c k (Makes.acquire e) inv = ground arith
Makes-Beside h c k Makes.loads inv = ground arith
Makes-Beside h c k Makes.stores inv = ground arith
Makes-Beside h c k Makes.unlocks inv = ground arith
Makes-Beside h c k Makes.detaches inv = ground arith

-- What a step of a producer does to the rest of the memory: `work` changes only under the mutex, by
-- a producer that will signal it.
pub Makes-work :
    {m m' : Shared} {p p' : Producer}
    → Makes m p m' p'
    → (m'.consumed ≡ m.consumed)
      × (m'.exited ≡ m.exited)
      × (pending p ≤ pending p')
      × ((m'.work ≡ m.work) ⊎ ((pending p' ≡ 1) × (holds p ≡ 1)))
Makes-work (Makes.goes_on e) = (refl, refl, omega arith, inl refl)
Makes-work (Makes.ends e) = (refl, refl, omega arith, inl refl)
Makes-work Makes.wakes = (refl, refl, omega arith, inl refl)
Makes-work (Makes.acquire e) = (refl, refl, omega arith, inl refl)
Makes-work Makes.loads = (refl, refl, omega arith, inl refl)
Makes-work Makes.stores = (refl, refl, omega arith, inr (refl, refl))
Makes-work Makes.unlocks = (refl, refl, omega arith, inl refl)
Makes-work Makes.detaches = (refl, refl, omega arith, inl refl)

abbrev pub running : Producer → Bool
running Producer.absent = false
running Producer.returned = false
running p = true

abbrev pub created : Producer → Bool
created Producer.absent = false
created p = true

pub Makes-running :
    {m m' : Shared} {p p' : Producer} → Makes m p m' p' → (running p ≡ true) × (created p' ≡ true)
Makes-running (Makes.goes_on e) = (refl, refl)
Makes-running (Makes.ends e) = (refl, refl)
Makes-running Makes.wakes = (refl, refl)
Makes-running (Makes.acquire e) = (refl, refl)
Makes-running Makes.loads = (refl, refl)
Makes-running Makes.stores = (refl, refl)
Makes-running Makes.unlocks = (refl, refl)
Makes-running Makes.detaches = (refl, refl)
