-- ===== src/Reap/Result.antt =====
-- What the parent has reaped at its end, and whether it can go on.
use linuxapi.Base.{◌+◌, ◌≤◌, ◌≡◌, ◌≢◌, inl, inr, sym, ap, ◌∙◌, Bool, true, false, arith}
use mathlib.Core.Path.{subst}
use linuxapi.Reap.{World, Parent, System, Moves, parent, Reach}
use linuxapi.Reap.Invariant.{Started, ended, Reach-Inv}

-- When the parent returns, all five children have ended and been waited for: none runs, none is a
-- zombie.
pub children_reaped :
    {s : System}
    → Reach s
    → s.parent ≡ Parent.finished
    → (s.world.running ≡ 0) × (s.world.zombies ≡ 0) × (s.world.child_cnt ≡ 0)
children_reaped {s} r e = (omega (arith, k.0), omega (arith, k.0), k.1)
  where
    k : Started (s.world.running + s.world.zombies) s.world.child_cnt Parent.finished
    k =
        subst (Started (s.world.running + s.world.zombies) s.world.child_cnt) e
          (Reach-Inv r).started

-- The handler runs at most five times, as signals that are pending together count once.
pub signals_bounded : {s : System} → Reach s → s.parent ≢ Parent.died → s.world.sig_cnt ≤ 5
signals_bounded {s} r alive = elim (Reach-Inv r).signals [
  | inl d ↦ absurd (alive d)
  | inr h ↦ omega (arith, h, ended-le s.world s.parent (Reach-Inv r).started)
]
  where
    ended-le :
        (w : World) (p : Parent) → Started (w.running + w.zombies) w.child_cnt p → ended w p ≤ 5
    ended-le w (Parent.fork i) k = ground arith
    ended-le w p k = ground arith

abbrev pub is_dead : Parent → Bool
is_dead Parent.died = true
is_dead p = false

-- Something goes on without an error: a step of the parent or the end of a child.
abbrev pub Continues : System → Type 0
Continues s = (t : System) × Moves s t × (t.parent ≢ Parent.died)

alive : {p : Parent} → is_dead p ≡ false → p ≢ Parent.died
alive h e = cc (sym h ∙ ap is_dead e)
