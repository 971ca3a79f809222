-- ===== src/Cond/Wakeup.antt =====
-- Who can go on, and whom a sleeping main thread waits for.
use linuxapi.Base.{
  ℕ, zero, suc, ◌+◌, ltb, ◌==◌, ◌≤◌, ◌<◌, ◌≡◌, ◌⊎◌, inl, inr, refl, sym, ap, ◌∙◌, true, false,
  Bool-cases, arith,
}
use mathlib.Core.Path.{subst}
use linuxapi.Cond.{
  Shared, rounds, Producer, Makes, Main, System, MainMoves, Moves, makes1, makes2, signals1,
  signals2, main_thread, Reach,
}
use linuxapi.Cond.Views.{holds, main_holds, flag, made, pending, running, created}
use linuxapi.Cond.Invariant.{Known, Local, owed, Inv}
use linuxapi.Cond.Conserved.{works_conserved}
use linuxapi.Cond.Whole.{Reach-Inv}

-- In every reachable state in which the main thread sleeps on the condition variable while there is
-- work, one of the producers is about to signal it.
pub no_lost_wakeup :
    {s : System} → Reach s → s.main ≡ Main.asleep → 0 < s.mem.work → 1 ≤ pending s.p1 + pending s.p2
no_lost_wakeup {s} r e =
    subst (Local s.mem.work (pending s.p1 + pending s.p2)) e (Reach-Inv r).local

-- A step of one of the threads that does not end the process.
abbrev pub Continues : System → Type 0
Continues s = (t : System) × Moves s t × (t.mem.exited ≡ false)

-- Everything is made and consumed, and the main thread sleeps for ever.
abbrev pub Finished : System → Type 0
Finished s =
    (s.main ≡ Main.asleep)
    × (s.p1 ≡ Producer.returned)
    × (s.p2 ≡ Producer.returned)
    × (s.mem.work ≡ 0)
    × (s.mem.consumed ≡ 2000)

-- What a producer can do: a step of its own, a signal, or wait for the mutex.
abbrev Can : Shared → Producer → Type 0
Can m p =
    ((m' : Shared) × (p' : Producer) × Makes m p m' p' × (m'.exited ≡ false))
    ⊎ ((i : ℕ) × (p ≡ Producer.signal i))

running-Can :
    (m : Shared) (p : Producer)
    → m.exited ≡ false
    → running p ≡ true
    → Can m p ⊎ ((m.locked ≡ true) × (holds p ≡ 0))
running-Can m Producer.absent on go = absurd (ground arith)
running-Can m Producer.returned on go = absurd (ground arith)
running-Can m Producer.detach on go = inl (inl (_, _, Makes.detaches, on))
running-Can m (Producer.test i) on go = elim (Bool-cases (ltb i rounds)) [
  | inl e ↦ inl (inl (_, _, Makes.goes_on e, on))
  | inr e ↦ inl (inl (_, _, Makes.ends e, on))
]
running-Can m (Producer.nap i) on go = inl (inl (_, _, Makes.wakes, on))
running-Can m (Producer.lock i) on go = elim (Bool-cases m.locked) [
  | inl e ↦ inr (e, refl)
  | inr e ↦ inl (inl (_, _, Makes.acquire e, on))
]
running-Can m (Producer.load i) on go = inl (inl (_, _, Makes.loads, on))
running-Can m (Producer.store i x) on go = inl (inl (_, _, Makes.stores, on))
running-Can m (Producer.unlock i) on go = inl (inl (_, _, Makes.unlocks, on))
running-Can m (Producer.signal i) on go = inl (inr (i, refl))

one_of : (a b : ℕ) → a + b ≡ 1 → (a ≡ 1) ⊎ (b ≡ 1)
one_of zero b h = inr (omega (arith, h))
one_of (suc zero) b h = inl refl
one_of (suc (suc a)) b h = absurd (omega (arith, h))

holder-running : (p : Producer) → holds p ≡ 1 → running p ≡ true
holder-running Producer.absent h = absurd (omega (arith, h))
holder-running Producer.returned h = absurd (omega (arith, h))
holder-running p h = refl

returned_or_running :
    (p : Producer) → created p ≡ true → (p ≡ Producer.returned) ⊎ (running p ≡ true)
returned_or_running Producer.absent c = absurd (ground arith)
returned_or_running Producer.returned c = inl refl
returned_or_running p c = inr refl

module _ (s : System) (on : s.mem.exited ≡ false) (inv : Inv s) where
  by1 : Can s.mem s.p1 → Continues s
  by1 (inl (m', p', r, on')) = (_, makes1 r, on')
  by1 (inr (i, e)) = (_, signals1 e, on)

  by2 : Can s.mem s.p2 → Continues s
  by2 (inl (m', p', r, on')) = (_, makes2 r, on')
  by2 (inr (i, e)) = (_, signals2 e, on)

  by_main : {mn : Main} {t : System} → s.main ≡ mn → MainMoves s mn t → Moves s t
  by_main {t = t} e mv = main_thread (subst (λ x. MainMoves s x t) (sym e) mv)

  holder1 : holds s.p1 ≡ 1 → Continues s
  holder1 h = elim (running-Can s.mem s.p1 on (holder-running s.p1 h)) [
    | inl c ↦ by1 c
    | inr w ↦ absurd (omega (arith, h, w.1))
  ]

  holder2 : holds s.p2 ≡ 1 → Continues s
  holder2 h = elim (running-Can s.mem s.p2 on (holder-running s.p2 h)) [
    | inl c ↦ by2 c
    | inr w ↦ absurd (omega (arith, h, w.1))
  ]

  -- If the main thread does not hold the mutex, it is free or its holder can go on.
  mutex : (mn : Main) → s.main ≡ mn → main_holds mn ≡ 0 → (s.mem.locked ≡ false) ⊎ Continues s
  mutex mn e none = elim (Bool-cases s.mem.locked) [
    | inr free ↦ inl free
    | inl held ↦
        inr
          (elim (one_of (holds s.p1) (holds s.p2)
            (omega (arith, inv.one_holder, ap main_holds e, none, ap flag held))) [
              | inl h ↦ holder1 h
              | inr h ↦ holder2 h
            ])
  ]

  sleeping : s.main ≡ Main.asleep → Known s.p1 s.p2 Main.asleep → Finished s ⊎ Continues s
  sleeping e k = elim (mutex Main.asleep e refl) [
    | inr c ↦ inr c
    | inl free ↦ elim (returned_or_running s.p1 k.0) [
      | inr go ↦ inr (free_goes1 free go)
      | inl over1 ↦ elim (returned_or_running s.p2 k.1) [
        | inr go ↦ inr (free_goes2 free go)
        | inl over2 ↦ inl (all_done over1 over2)
      ]
    ]
  ]
    where
      free_goes1 : s.mem.locked ≡ false → running s.p1 ≡ true → Continues s
      free_goes1 free go = elim (running-Can s.mem s.p1 on go) [
        | inl c ↦ by1 c
        | inr w ↦ absurd (cc (sym free ∙ w.0))
      ]

      free_goes2 : s.mem.locked ≡ false → running s.p2 ≡ true → Continues s
      free_goes2 free go = elim (running-Can s.mem s.p2 on go) [
        | inl c ↦ by2 c
        | inr w ↦ absurd (cc (sym free ∙ w.0))
      ]

      none : (w a : ℕ) → a ≡ 0 → (0 < w → 1 ≤ a) → w ≡ 0
      none w a z l = ground arith

      all_done : s.p1 ≡ Producer.returned → s.p2 ≡ Producer.returned → Finished s
      all_done over1 over2 =
          let z =
            none s.mem.work (pending s.p1 + pending s.p2)
              (omega (arith, ap pending over1, ap pending over2))
              (subst (Local s.mem.work (pending s.p1 + pending s.p2)) e inv.local) in
          (e, over1, over2, z, omega (arith, inv.total, ap made over1, ap made over2, ap owed e, z))

  goes_on_at : (mn : Main) → s.main ≡ mn → Known s.p1 s.p2 mn → Finished s ⊎ Continues s
  goes_on_at Main.create1 e k = inr (_, by_main e MainMoves.creates1, on)
  goes_on_at Main.create2 e k = inr (_, by_main e MainMoves.creates2, on)
  goes_on_at Main.lock e k = elim (mutex Main.lock e refl) [
    | inl free ↦ inr (_, by_main e (MainMoves.locks free), on)
    | inr c ↦ inr c
  ]
  goes_on_at Main.woken e k = elim (mutex Main.woken e refl) [
    | inl free ↦ inr (_, by_main e (MainMoves.relocks free), on)
    | inr c ↦ inr c
  ]
  goes_on_at Main.check e k = elim (Bool-cases (s.mem.work == 0)) [
    | inl z ↦ inr (_, by_main e (MainMoves.finds_none z), on)
    | inr z ↦ inr (_, by_main e (MainMoves.finds_some z), on)
  ]
  goes_on_at Main.wait e k = inr (_, by_main e MainMoves.sleeps, on)
  goes_on_at Main.asleep e k = sleeping e k
  goes_on_at Main.drain e k = elim (Bool-cases (ltb 0 s.mem.work)) [
    | inl z ↦ inr (_, by_main e (MainMoves.takes z), on)
    | inr z ↦ inr (_, by_main e (MainMoves.drained z), on)
  ]
  goes_on_at Main.load e k = inr (_, by_main e MainMoves.loads, on)
  goes_on_at (Main.store x) e k = inr (_, by_main e MainMoves.stores, on)
  goes_on_at Main.report e k = inr (_, by_main e MainMoves.reports, on)

-- The program stops only when it is through: in every reachable state of a process that has not
-- exited, one of the three threads can make a step that does not end the process, no wakeup without
-- a signal counted; or both producers have returned, all 2000 works are consumed, and the main
-- thread waits for more.
pub stops_when_consumed : {s : System} → Reach s → s.mem.exited ≡ false → Finished s ⊎ Continues s
stops_when_consumed {s} r on = goes_on_at s on (Reach-Inv r) s.main refl (Reach-Inv r).known

-- The program stops only when it is through: in every reachable state of a process that has not
-- exited, one of the three threads can make a step that does not end the process, no wakeup without a
-- signal counted; or both producers have returned, all 2000 works are consumed, and the main thread
-- waits for more. The works that are counted, and those that are consumed, are together the works
-- that the two producers have made, but for one that the main thread is about to report; and both
-- counts are at most 2000, so no `int` overflows.
pub works_consumed :
    {s : System}
    → Reach s
    → s.mem.exited ≡ false
    → (Finished s ⊎ Continues s)
      × (s.mem.work + (s.mem.consumed + owed s.main) ≡ made s.p1 + made s.p2)
      × (s.mem.work + s.mem.consumed ≤ 2000)
works_consumed r on = let total = works_conserved r in (stops_when_consumed r on, total.0, total.1)
