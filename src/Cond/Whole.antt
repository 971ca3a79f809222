-- ===== src/Cond/Whole.antt =====
-- Every step of the main thread, and so every step, keeps the invariant.
use linuxapi.Base.{suc, ◌+◌, ◌-◌, ◌≡◌, ◌⊎◌, inl, inr, refl, ap, true, false, arith}
use mathlib.Core.Path.{subst}
use linuxapi.Cond.{
  Shared, Main, System, MainMoves, makes1, makes2, signals1, signals2, main_thread, Step, moves,
  spurious, begin, Reach, start, later,
}
use linuxapi.Cond.Views.{holds, main_holds, flag, flag-le, made, pending}
use linuxapi.Cond.Invariant.{Known, Local, owed, Inv, Fresh-step}
use linuxapi.Cond.Preserved.{makes1-Inv, makes2-Inv, signal1-Inv, signal2-Inv}

-- The main thread moves from `mn` and may change `work` if it holds the mutex.
main_moves :
    (s : System) {mn : Main} (m' : Shared) (mn' : Main)
    → s.main ≡ mn
    → main_holds mn' + flag s.mem.locked ≡ flag m'.locked + main_holds mn
    → m'.work + (m'.consumed + owed mn') ≡ s.mem.work + (s.mem.consumed + owed mn)
    → ((m'.work ≡ s.mem.work) ⊎ (main_holds mn ≡ 1))
    → Known s.p1 s.p2 mn'
    → Local m'.work (pending s.p1 + pending s.p2) mn'
    → Inv s
    → Inv (record s { mem = m'; main = mn' })
main_moves s {mn} m' mn' e lock sum store k l inv = record {
  one_holder = omega (arith, one, lock);
  total = omega (arith, inv.total, ap owed e, sum);
  range1 = inv.range1;
  range2 = inv.range2;
  fresh1 =
      Fresh-step s.mem m' s.p1
        (elim store [
          | inl same ↦ inl same
          | inr held ↦ inr (omega (arith, held, one, flag-le s.mem.locked))
        ])
        inv.fresh1;
  fresh2 =
      Fresh-step s.mem m' s.p2
        (elim store [
          | inl same ↦ inl same
          | inr held ↦ inr (omega (arith, held, one, flag-le s.mem.locked))
        ])
        inv.fresh2;
  known = k;
  local = l;
}
  where
    one : holds s.p1 + holds s.p2 + main_holds mn ≡ flag s.mem.locked
    one = omega (arith, inv.one_holder, ap main_holds e)

exit-Inv : (s : System) → Inv s → Inv (record s { mem = record s.mem { exited = true } })
exit-Inv s inv =
    main_moves s (record s.mem { exited = true }) s.main refl (omega arith) refl (inl refl)
      inv.known inv.local inv

main-Inv :
    (s : System) {mn : Main} {t : System}
    → s.main ≡ mn
    → MainMoves s mn t
    → Known s.p1 s.p2 mn
    → Local s.mem.work (pending s.p1 + pending s.p2) mn
    → Inv s
    → Inv t
main-Inv s e MainMoves.creates1 k l inv = record {
  one_holder = omega (arith, inv.one_holder, ap holds k.0, ap main_holds e);
  total = omega (arith, inv.total, ap made k.0, ap owed e);
  range1 = omega arith;
  range2 = inv.range2;
  fresh1 = tt;
  fresh2 = inv.fresh2;
  known = (refl, k.1);
  local = tt;
}
main-Inv s e MainMoves.creates2 k l inv = record {
  one_holder = omega (arith, inv.one_holder, ap holds k.1, ap main_holds e);
  total = omega (arith, inv.total, ap made k.1, ap owed e);
  range1 = inv.range1;
  range2 = omega arith;
  fresh1 = inv.fresh1;
  fresh2 = tt;
  known = (k.0, refl);
  local = tt;
}
main-Inv s e MainMoves.create1_fails k l inv = exit-Inv s inv
main-Inv s e MainMoves.create2_fails k l inv = exit-Inv s inv
main-Inv s e (MainMoves.locks free) k l inv =
    main_moves s (record s.mem { locked = true }) Main.check e (omega (arith, ap flag free)) refl
      (inl refl) k tt inv
main-Inv s e (MainMoves.finds_none z) k l inv =
    main_moves s s.mem Main.wait e (omega arith) refl (inl refl) k (ground (arith, z)) inv
main-Inv s e (MainMoves.finds_some z) k l inv =
    main_moves s s.mem Main.drain e (omega arith) refl (inl refl) k tt inv
main-Inv s e MainMoves.sleeps k l inv =
    main_moves s (record s.mem { locked = false }) Main.asleep e (omega (arith, one)) refl
      (inl refl) k (λ some. absurd (omega (arith, l))) inv
  where
    one : flag s.mem.locked ≡ 1
    one = omega (arith, inv.one_holder, ap main_holds e, flag-le s.mem.locked)
main-Inv s e (MainMoves.relocks free) k l inv =
    main_moves s (record s.mem { locked = true }) Main.check e (omega (arith, ap flag free)) refl
      (inl refl) k tt inv
main-Inv s e (MainMoves.takes z) k l inv =
    main_moves s s.mem Main.load e (omega arith) refl (inl refl) k (ground (arith, z)) inv
main-Inv s e (MainMoves.drained z) k l inv =
    main_moves s s.mem Main.check e (omega arith) refl (inl refl) k tt inv
main-Inv s e MainMoves.loads k l inv =
    main_moves s s.mem (Main.store s.mem.work) e (omega arith) refl (inl refl) k (refl, l) inv
main-Inv s e (MainMoves.stores {loaded = x}) k l inv =
    main_moves s (record s.mem { work = x - 1 }) Main.report e (omega arith)
      (omega (arith, l.0, l.1)) (inr refl) k tt inv
main-Inv s e MainMoves.reports k l inv =
    main_moves s (record s.mem { consumed = suc s.mem.consumed }) Main.drain e (omega arith)
      (omega arith) (inl refl) k tt inv

Step-Inv : {s t : System} → Step s t → Inv s → Inv t
Step-Inv {s} (moves on (makes1 r)) inv = makes1-Inv s r inv
Step-Inv {s} (moves on (makes2 r)) inv = makes2-Inv s r inv
Step-Inv {s} (moves on (signals1 {i = i} e)) inv = signal1-Inv s i e inv
Step-Inv {s} (moves on (signals2 {i = i} e)) inv = signal2-Inv s i e inv
Step-Inv {s} (moves on (main_thread mv)) inv = main-Inv s refl mv inv.known inv.local inv
Step-Inv {s} (spurious on e) inv =
    main_moves s s.mem Main.woken e (omega arith) refl (inl refl)
      (subst (Known s.p1 s.p2) e inv.known) tt inv

begin-Inv : Inv begin
unfolding begin
begin-Inv = record {
  one_holder = refl;
  total = refl;
  range1 = tt;
  range2 = tt;
  fresh1 = tt;
  fresh2 = tt;
  known = (refl, refl);
  local = tt;
}

pub Reach-Inv : {s : System} → Reach s → Inv s
Reach-Inv start = begin-Inv
Reach-Inv (later r st) = Step-Inv st (Reach-Inv r)
