-- ===== src/Cond/Preserved.antt =====
-- Every step keeps the invariant.
use linuxapi.Base.{ℕ, suc, ◌+◌, ◌≤◌, ◌≡◌, ◌⊎◌, inl, inr, refl, ap, Bool, arith}
use mathlib.Core.Path.{subst}
use linuxapi.Cond.{Shared, Producer, Makes, Main, wake, System}
use linuxapi.Cond.Views.{
  holds, main_holds, flag, flag-le, made, InRange, pending, Beside, Makes-Beside, Makes-work,
  running, Makes-running,
}
use linuxapi.Cond.Invariant.{
  Known, Local, owed, Inv, Known-step1, Known-step2, Local-step, Fresh-step,
}

-- What a producer changes, as the others see it.
others :
    (m m' : Shared) (p p' : Producer) (h : ℕ) (b : Bool)
    → holds p + h ≡ flag b
    → ((m'.work ≡ m.work) ⊎ ((pending p' ≡ 1) × (holds p ≡ 1)))
    → (m'.work ≡ m.work) ⊎ ((pending p' ≡ 1) × (h ≡ 0))
others m m' p p' h b one (inl same) = inl same
others m m' p p' h b one (inr w) = inr (w.0, omega (arith, one, w.1, flag-le b))

pub makes1-Inv :
    (s : System) {m' : Shared} {p' : Producer}
    → Makes s.mem s.p1 m' p'
    → Inv s
    → Inv (record s { mem = m'; p1 = p' })
makes1-Inv s {m'} {p'} r inv = record {
  one_holder = omega (arith, b.0);
  total = omega (arith, b.1, w.0);
  range1 = b.2;
  range2 = inv.range2;
  fresh1 = b.3;
  fresh2 =
      Fresh-step s.mem m' s.p2 (elim o [ inl same ↦ inl same | inr c ↦ inr (omega (arith, c.1)) ])
        inv.fresh2;
  known = Known-step1 s.p1 p' s.p2 s.main (Makes-running r).0 (Makes-running r).1 inv.known;
  local =
      Local-step s.mem.work m'.work (pending s.p1 + pending s.p2) (pending p' + pending s.p2) s.main
        (omega (arith, w.2))
        (elim o [ inl same ↦ inl same | inr c ↦ inr (omega (arith, c.0), omega (arith, c.1)) ])
        inv.local;
}
  where
    b : Beside (holds s.p2 + main_holds s.main) (made s.p2) (s.mem.consumed + owed s.main) m' p'
    b =
        Makes-Beside (holds s.p2 + main_holds s.main) (made s.p2) (s.mem.consumed + owed s.main) r
          (omega (arith, inv.one_holder), inv.total, inv.range1, inv.fresh1)

    w :
        (m'.consumed ≡ s.mem.consumed)
        × (m'.exited ≡ s.mem.exited)
        × (pending s.p1 ≤ pending p')
        × ((m'.work ≡ s.mem.work) ⊎ ((pending p' ≡ 1) × (holds s.p1 ≡ 1)))
    w = Makes-work r

    o : (m'.work ≡ s.mem.work) ⊎ ((pending p' ≡ 1) × (holds s.p2 + main_holds s.main ≡ 0))
    o =
        others s.mem m' s.p1 p' (holds s.p2 + main_holds s.main) s.mem.locked
          (omega (arith, inv.one_holder)) w.3

pub makes2-Inv :
    (s : System) {m' : Shared} {p' : Producer}
    → Makes s.mem s.p2 m' p'
    → Inv s
    → Inv (record s { mem = m'; p2 = p' })
makes2-Inv s {m'} {p'} r inv = record {
  one_holder = omega (arith, b.0);
  total = omega (arith, b.1, w.0);
  range1 = inv.range1;
  range2 = b.2;
  fresh1 =
      Fresh-step s.mem m' s.p1 (elim o [ inl same ↦ inl same | inr c ↦ inr (omega (arith, c.1)) ])
        inv.fresh1;
  fresh2 = b.3;
  known = Known-step2 s.p1 s.p2 p' s.main (Makes-running r).0 (Makes-running r).1 inv.known;
  local =
      Local-step s.mem.work m'.work (pending s.p1 + pending s.p2) (pending s.p1 + pending p') s.main
        (omega (arith, w.2))
        (elim o [ inl same ↦ inl same | inr c ↦ inr (omega (arith, c.0), omega (arith, c.1)) ])
        inv.local;
}
  where
    b : Beside (holds s.p1 + main_holds s.main) (made s.p1) (s.mem.consumed + owed s.main) m' p'
    b =
        Makes-Beside (holds s.p1 + main_holds s.main) (made s.p1) (s.mem.consumed + owed s.main) r
          (omega (arith, inv.one_holder), omega (arith, inv.total), inv.range2, inv.fresh2)

    w :
        (m'.consumed ≡ s.mem.consumed)
        × (m'.exited ≡ s.mem.exited)
        × (pending s.p2 ≤ pending p')
        × ((m'.work ≡ s.mem.work) ⊎ ((pending p' ≡ 1) × (holds s.p2 ≡ 1)))
    w = Makes-work r

    o : (m'.work ≡ s.mem.work) ⊎ ((pending p' ≡ 1) × (holds s.p1 + main_holds s.main ≡ 0))
    o =
        others s.mem m' s.p2 p' (holds s.p1 + main_holds s.main) s.mem.locked
          (omega (arith, inv.one_holder)) w.3

-- A thread that is woken knows as much, holds no mutex and owes nothing.
abbrev Awake : (p1 p2 : Producer) (w a : ℕ) → Main → Type 0
Awake p1 p2 w a mn =
    Known p1 p2 (wake mn)
    × Local w a (wake mn)
    × (main_holds (wake mn) ≡ main_holds mn)
    × (owed (wake mn) ≡ owed mn)

wake-Awake :
    (p1 p2 : Producer) (w a a' : ℕ) (mn : Main)
    → Known p1 p2 mn
    → Local w a mn
    → Awake p1 p2 w a' mn
wake-Awake p1 p2 w a a' Main.asleep k l = (k, tt, refl, refl)
wake-Awake p1 p2 w a a' mn k l = (k, l, refl, refl)

pub signal1-Inv :
    (s : System) (i : ℕ)
    → s.p1 ≡ Producer.signal i
    → Inv s
    → Inv (record s { p1 = Producer.test (suc i); main = wake s.main })
signal1-Inv s i e inv = record {
  one_holder = omega (arith, inv.one_holder, ap holds e, k.2);
  total = omega (arith, inv.total, ap made e, k.3);
  range1 = subst InRange e inv.range1;
  range2 = inv.range2;
  fresh1 = tt;
  fresh2 = inv.fresh2;
  known = k.0;
  local = k.1;
}
  where
    k : Awake (Producer.test (suc i)) s.p2 s.mem.work (0 + pending s.p2) s.main
    k =
        wake-Awake (Producer.test (suc i)) s.p2 s.mem.work (pending s.p1 + pending s.p2)
          (0 + pending s.p2) s.main
          (Known-step1 s.p1 (Producer.test (suc i)) s.p2 s.main (ap running e) refl inv.known)
          inv.local

pub signal2-Inv :
    (s : System) (i : ℕ)
    → s.p2 ≡ Producer.signal i
    → Inv s
    → Inv (record s { p2 = Producer.test (suc i); main = wake s.main })
signal2-Inv s i e inv = record {
  one_holder = omega (arith, inv.one_holder, ap holds e, k.2);
  total = omega (arith, inv.total, ap made e, k.3);
  range1 = inv.range1;
  range2 = subst InRange e inv.range2;
  fresh1 = inv.fresh1;
  fresh2 = tt;
  known = k.0;
  local = k.1;
}
  where
    k : Awake s.p1 (Producer.test (suc i)) s.mem.work (pending s.p1 + 0) s.main
    k =
        wake-Awake s.p1 (Producer.test (suc i)) s.mem.work (pending s.p1 + pending s.p2)
          (pending s.p1 + 0) s.main
          (Known-step2 s.p1 s.p2 (Producer.test (suc i)) s.main (ap running e) refl inv.known)
          inv.local
