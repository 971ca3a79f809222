-- ===== src/PosixSem/Refines.antt =====
-- The semaphore program, seen as the program with an error-checking mutex, which is locked where the
-- semaphore is 0.
use linuxapi.Base.{
  ℕ, zero, suc, ◌≤◌, ◌==◌, ◌≡◌, refl, sym, ap, Bool, true, false, Option, none, some, arith,
}
use mathlib.Core.Path.{subst}
use linuxapi.Threads
use linuxapi.Threads.{Thread, Runs}
use linuxapi.Threads.Views.{holds, flag}
use linuxapi.Threads.Invariant.{Inv, Known, Reach-Inv}
use linuxapi.Threads.Result.{printed_sum}
use linuxapi.PosixSem.{
  Memory, Adds, Caller, Process, CallerMoves, Goes, thread1, thread2, main_thread, fresh_process,
  Run, started, then,
}

abbrev pub is_taken : Option ℕ → Bool
is_taken none = false
is_taken (some v) = v == 0

abbrev pub mutex_of : Memory → Threads.Shared
mutex_of m = record { gsum = m.gsum; locked = is_taken m.sem; exited = m.exited }

-- The mutex is not initialised by a call; it is destroyed behind the joins.
abbrev pub main_of : Caller → Threads.Main
main_of Caller.init = Threads.Main.create1
main_of Caller.create1 = Threads.Main.create1
main_of Caller.create2 = Threads.Main.create2
main_of Caller.join1 = Threads.Main.join1
main_of Caller.join2 = Threads.Main.join2
main_of Caller.print = Threads.Main.destroy
main_of (Caller.finished v) = Threads.Main.finished v

abbrev pub view : Process → Threads.System
view s = record { mem = mutex_of s.mem; t1 = s.t1; t2 = s.t2; main = main_of s.caller }

-- 0 or 1
abbrev pub Binary : Option ℕ → Type 0
Binary none = Unit {0}
Binary (some v) = v ≤ 1

-- A step of a thread is one over the mutex, if a thread that holds the semaphore has taken it.
Adds-Runs :
    {from : ℕ} {m m' : Memory} {t t' : Thread}
    → Adds from m t m' t'
    → Binary m.sem
    → holds t ≤ flag (is_taken m.sem)
    → Runs true from (mutex_of m) t (mutex_of m') t' × Binary m'.sem
Adds-Runs (Adds.goes_on e) b h = (Runs.goes_on e, b)
Adds-Runs (Adds.ends e) b h = (Runs.ends e, b)
Adds-Runs (Adds.waits {v = zero} e) b h = (Runs.acquire (ap is_taken e), omega arith)
Adds-Runs (Adds.waits {v = suc v} e) b h = absurd (omega (arith, subst Binary e b))
Adds-Runs Adds.loads b h = (Runs.loads, b)
Adds-Runs Adds.stores b h = (Runs.stores, b)
Adds-Runs (Adds.posts {v = zero} e) b h = (Runs.unlocks, omega arith)
Adds-Runs (Adds.posts {v = suc v} e) b h =
    absurd (let taken = subst (λ o. 1 ≤ flag (is_taken o)) e h in ground arith)
Adds-Runs Adds.wait_fails b h = (Runs.lock_fails refl, b)
Adds-Runs Adds.post_fails b h = (Runs.unlock_fails refl, b)

-- What the abstract state knows of the holders.
held :
    (s : Process)
    → Inv (view s)
    → (holds s.t1 ≤ flag (is_taken s.mem.sem)) × (holds s.t2 ≤ flag (is_taken s.mem.sem))
held s inv = (omega (arith, inv.one_holder), omega (arith, inv.one_holder))

abbrev pub Matched : Process → Type 0
Matched s = ((n : ℕ) × Threads.Reach true n (view s)) × Binary s.mem.sem

main_step :
    (s : Process) {n : ℕ} {c : Caller} {t : Threads.System}
    → s.mem.exited ≡ false
    → s.caller ≡ c
    → Threads.MainMoves true (view s) (main_of c) t
    → Threads.Reach true n (view s)
    → Threads.Reach true (suc n) t
main_step s {t = t} on at m r =
    Threads.later r (
      Threads.main_thread on
        (subst (λ c. Threads.MainMoves true (view s) (main_of c) t) (sym at) m))

-- Before the threads exist, the mutex is free.
unlocked_first : (s : Process) → s.caller ≡ Caller.init → Inv (view s) → is_taken s.mem.sem ≡ false
unlocked_first s at inv =
    let k : Known (view s) Threads.Main.create1 =
      subst (λ c. Known (view s) (main_of c)) at inv.known in
    ground (arith, inv.one_holder, ap holds k.0, ap holds k.1)

-- One step of the caller is none, one or two of the main thread.
caller-Matched :
    (s : Process) {c : Caller} {t : Process}
    → s.mem.exited ≡ false
    → s.caller ≡ c
    → CallerMoves s c t
    → Matched s
    → Matched t
caller-Matched s on at CallerMoves.inits ((n, r), b) = (
  (
    n,
    subst
        (λ k. Threads.Reach true n (record (view s) {
          mem = record (mutex_of s.mem) { locked = k };
          main = Threads.Main.create1;
        }))
        (unlocked_first s at (Reach-Inv r))
        (subst (λ c. Threads.Reach true n (record (view s) { main = main_of c })) at r),
  ),
  omega arith,
)
caller-Matched s on at CallerMoves.creates1 ((n, r), b) =
    ((suc n, main_step s on at Threads.MainMoves.creates1 r), b)
caller-Matched s on at CallerMoves.creates2 ((n, r), b) =
    ((suc n, main_step s on at Threads.MainMoves.creates2 r), b)
caller-Matched s on at (CallerMoves.joins1 e) ((n, r), b) =
    ((suc n, main_step s on at (Threads.MainMoves.joins1 e) r), b)
caller-Matched s on at (CallerMoves.joins2 e) ((n, r), b) =
    ((suc n, main_step s on at (Threads.MainMoves.joins2 e) r), b)
caller-Matched s on at CallerMoves.prints ((n, r), b) = (
  (
    suc (suc n),
    Threads.later (main_step s on at Threads.MainMoves.destroys r)
        (Threads.main_thread on Threads.MainMoves.prints),
  ),
  b,
)
caller-Matched s on at CallerMoves.init_fails ((n, r), b) =
    ((suc n, main_step s on at Threads.MainMoves.create1_fails r), b)
caller-Matched s on at CallerMoves.create1_fails ((n, r), b) =
    ((suc n, main_step s on at Threads.MainMoves.create1_fails r), b)
caller-Matched s on at CallerMoves.create2_fails ((n, r), b) =
    ((suc n, main_step s on at Threads.MainMoves.create2_fails r), b)

Goes-Matched : {s t : Process} → Goes s t → Matched s → Matched t
Goes-Matched {s = s} (thread1 on a) ((n, r), b) =
    let step = Adds-Runs a b (held s (Reach-Inv r)).0 in
    ((suc n, Threads.later r (Threads.thread1 on step.0)), step.1)
Goes-Matched {s = s} (thread2 on a) ((n, r), b) =
    let step = Adds-Runs a b (held s (Reach-Inv r)).1 in
    ((suc n, Threads.later r (Threads.thread2 on step.0)), step.1)
Goes-Matched {s = s} (main_thread on m) h = caller-Matched s on refl m h

-- Every reachable state of `ipc_posix_unnamed_sem` is, seen through `view`, a reachable state of
-- `pthread_sync_error_checking_mutex`, and the semaphore has never been above 1.
pub refines_mutex : {s : Process} → Run s → Matched s
unfolding Threads.begin fresh_process
refines_mutex started = ((0, Threads.start), tt)
refines_mutex (then r step) = Goes-Matched step (refines_mutex r)

-- What is printed at the end is 0 + 1 + ... + 199.
pub printed_result : {s : Process} (v : ℕ) → Run s → s.caller ≡ Caller.finished v → v ≡ 19900
printed_result v r e = printed_sum v (refines_mutex r).0.1 (ap main_of e)
