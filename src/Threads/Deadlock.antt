-- ===== src/Threads/Deadlock.antt =====
-- Who can go on.
use linuxapi.Base.{
  ℕ, ◌+◌, ◌≤◌, ltb, ◌≡◌, ◌⊎◌, refl, sym, ap, inl, inr, Bool, true, false, Bool-cases, arith,
}
use mathlib.Core.Path.{subst}
use linuxapi.Threads.{
  Shared, Thread, Runs, Main, System, MainMoves, Step, thread1, thread2, main_thread, Reach,
}
use linuxapi.Threads.Progress.{bound_of, run_length}
use linuxapi.Threads.Views.{holds, flag, running, created}
use linuxapi.Threads.Invariant.{Known, Inv, Reach-Inv}

-- A step that does not end the process.
abbrev pub Continues : Bool → System → Type 0
Continues checking s = (t : System) × Step checking s t × (t.mem.exited ≡ false)

abbrev Moves : Bool → ℕ → Shared → Thread → Type 0
Moves checking from m t =
    (m' : Shared) × (t' : Thread) × Runs checking from m t m' t' × (m'.exited ≡ false)

-- A thread can go on, or waits for the mutex.
running-Moves :
    (checking : Bool) (from : ℕ) (m : Shared) (t : Thread)
    → m.exited ≡ false
    → running t ≡ true
    → Moves checking from m t ⊎ ((m.locked ≡ true) × (holds t ≡ 0))
running-Moves checking from m Thread.absent on go = absurd (ground arith)
running-Moves checking from m Thread.returned on go = absurd (ground arith)
running-Moves checking from m (Thread.test i) on go = elim (Bool-cases (ltb i (from + 100))) [
  | inl e ↦ inl (_, _, Runs.goes_on e, on)
  | inr e ↦ inl (_, _, Runs.ends e, on)
]
running-Moves checking from m (Thread.lock i) on go = elim (Bool-cases m.locked) [
  | inl e ↦ inr (e, refl)
  | inr e ↦ inl (_, _, Runs.acquire e, on)
]
running-Moves checking from m (Thread.load i) on go = inl (_, _, Runs.loads, on)
running-Moves checking from m (Thread.store i x) on go = inl (_, _, Runs.stores, on)
running-Moves checking from m (Thread.unlock i) on go = inl (_, _, Runs.unlocks, on)

holder-Moves :
    (checking : Bool) (from : ℕ) (m : Shared) (t : Thread)
    → m.exited ≡ false
    → holds t ≡ 1
    → Moves checking from m t
holder-Moves checking from m Thread.absent on h = absurd (omega (arith, h))
holder-Moves checking from m Thread.returned on h = absurd (omega (arith, h))
holder-Moves checking from m (Thread.test i) on h = absurd (omega (arith, h))
holder-Moves checking from m (Thread.lock i) on h = absurd (omega (arith, h))
holder-Moves checking from m (Thread.load i) on h = (_, _, Runs.loads, on)
holder-Moves checking from m (Thread.store i x) on h = (_, _, Runs.stores, on)
holder-Moves checking from m (Thread.unlock i) on h = (_, _, Runs.unlocks, on)

returned_or_running : (t : Thread) → created t ≡ true → (t ≡ Thread.returned) ⊎ (running t ≡ true)
returned_or_running Thread.absent c = absurd (ground arith)
returned_or_running Thread.returned c = inl refl
returned_or_running (Thread.test i) c = inr refl
returned_or_running (Thread.lock i) c = inr refl
returned_or_running (Thread.load i) c = inr refl
returned_or_running (Thread.store i x) c = inr refl
returned_or_running (Thread.unlock i) c = inr refl

module _ {checking : Bool} (s : System) (on : s.mem.exited ≡ false) (inv : Inv s) where
  abbrev by1 : Moves checking 0 s.mem s.t1 → Continues checking s
  by1 mv = (_, thread1 on mv.2, mv.3)

  abbrev by2 : Moves checking 100 s.mem s.t2 → Continues checking s
  by2 mv = (_, thread2 on mv.2, mv.3)

  by_main : {mn : Main} {t : System} → s.main ≡ mn → MainMoves checking s mn t → Step checking s t
  by_main {t = t} e mv = main_thread on (subst (λ x. MainMoves checking s x t) (sym e) mv)

  wait_join1 : s.main ≡ Main.join1 → Known s Main.join1 → Continues checking s
  wait_join1 e k = elim (returned_or_running s.t1 k.0) [
    | inl done ↦ (_, by_main e (MainMoves.joins1 done), on)
    | inr go ↦ elim (running-Moves checking 0 s.mem s.t1 on go) [
      | inl mv ↦ by1 mv
      | inr held ↦ by2 (
          holder-Moves checking 100 s.mem s.t2 on
            (omega (arith, inv.one_holder, ap flag held.0, held.1)))
    ]
  ]

  wait_join2 : s.main ≡ Main.join2 → Known s Main.join2 → Continues checking s
  wait_join2 e k = elim (returned_or_running s.t2 k.1) [
    | inl done ↦ (_, by_main e (MainMoves.joins2 done), on)
    | inr go ↦ elim (running-Moves checking 100 s.mem s.t2 on go) [
      | inl mv ↦ by2 mv
      | inr held ↦ absurd (omega (arith, inv.one_holder, ap flag held.0, held.1, ap holds k.0))
    ]
  ]

  continues_at :
      (mn : Main)
      → s.main ≡ mn
      → Known s mn
      → ((v : ℕ) × (s.main ≡ Main.finished v)) ⊎ Continues checking s
  continues_at Main.create1 e k = inr (_, by_main e MainMoves.creates1, on)
  continues_at Main.create2 e k = inr (_, by_main e MainMoves.creates2, on)
  continues_at Main.join1 e k = inr (wait_join1 e k)
  continues_at Main.join2 e k = inr (wait_join2 e k)
  continues_at Main.destroy e k = inr (_, by_main e MainMoves.destroys, on)
  continues_at Main.print e k = inr (_, by_main e MainMoves.prints, on)
  continues_at (Main.finished v) e k = inl (v, e)

-- There is no deadlock: in every reachable state of a process that has not exited, the result has
-- been printed, or one of the three threads can make a step that does not end the process.
pub never_stuck :
    {checking : Bool} {n : ℕ} {s : System}
    → Reach checking n s
    → s.mem.exited ≡ false
    → ((v : ℕ) × (s.main ≡ Main.finished v)) ⊎ Continues checking s
never_stuck {s = s} r on = continues_at s on (Reach-Inv r) s.main refl (Reach-Inv r).known

-- The program comes to its result: in every state of a process that has not exited and that is reached
-- in `n` steps, the result has been printed, or one of the three threads can make a step that does not
-- end the process; and `n`, with the bound on the steps that are left, is at most 1011, in whatever order
-- the threads run.
pub always_ends :
    {checking : Bool} {n : ℕ} {s : System}
    → Reach checking n s
    → s.mem.exited ≡ false
    → (((v : ℕ) × (s.main ≡ Main.finished v)) ⊎ Continues checking s) × (n + bound_of s ≤ 1011)
always_ends r on = (never_stuck r on, run_length r)
