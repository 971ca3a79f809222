-- ===== src/Reap/Invariant.antt =====
-- How the children are counted, and when a signal is pending.
use linuxapi.Base.{ℕ, suc, ◌+◌, ◌-◌, ◌≤◌, ◌<◌, ◌≡◌, ◌⊎◌, Bool, true, false, arith}
use linuxapi.Reap.{
  World, children, Parent, ParentMoves, Fails, System, parent, child_exits, Step, moves, dies,
  begin, Reach, start, later,
}

abbrev pub flag : Bool → ℕ
flag true = 1
flag false = 0

-- The children that have been started, as the place of the parent tells.
abbrev pub Started : (existing child_cnt : ℕ) → Parent → Type 0
Started existing child_cnt Parent.install = (existing ≡ 0) × (child_cnt ≡ children)
Started existing child_cnt Parent.block = (existing ≡ 0) × (child_cnt ≡ children)
Started existing child_cnt (Parent.fork i) =
    (existing ≡ i) × (child_cnt ≡ children) × (i ≤ children)
Started existing child_cnt Parent.restore = (existing ≡ 0) × (child_cnt ≡ 0)
Started existing child_cnt Parent.finished = (existing ≡ 0) × (child_cnt ≡ 0)
Started existing child_cnt Parent.died = Unit
Started existing child_cnt Parent.suspend =
    (existing ≡ child_cnt) × (child_cnt ≤ children) × (0 < child_cnt)
Started existing child_cnt p = (existing ≡ child_cnt) × (child_cnt ≤ children)

-- A child that has ended is about to be reaped, or the signal that tells of it is pending.
abbrev pub Told : (zombies : ℕ) → Bool → Parent → Type 0
Told zombies pending Parent.reap = Unit
Told zombies pending p = 0 < zombies → pending ≡ true

-- The children that have ended in all: those not started yet count as running.
abbrev pub ended : World → Parent → ℕ
ended w (Parent.fork i) = i - w.running
ended w Parent.install = 0
ended w Parent.block = 0
ended w p = children - w.running

pub record Inv (s : System) : Type 0 where
  pub started : Started (s.world.running + s.world.zombies) s.world.child_cnt s.parent
  pub told : Told s.world.zombies s.world.pending s.parent
  pub signals :
      (s.parent ≡ Parent.died) ⊎ (s.world.sig_cnt + flag s.world.pending ≤ ended s.world s.parent)

parent-Inv :
    {w w' : World} {p p' : Parent}
    → ParentMoves w p w' p'
    → Inv (record { world = w; parent = p })
    → Inv (record { world = w'; parent = p' })
parent-Inv ParentMoves.installs inv = ground arith
parent-Inv ParentMoves.blocks inv = ground arith
parent-Inv (ParentMoves.forks e) inv = ground arith
parent-Inv (ParentMoves.forked e) inv = ground arith
parent-Inv (ParentMoves.goes_on e) inv = ground arith
parent-Inv (ParentMoves.ends e) inv = ground arith
parent-Inv (ParentMoves.handles e) inv = ground arith
parent-Inv (ParentMoves.reaps e) inv = ground arith
parent-Inv (ParentMoves.reaped e) inv = ground arith
parent-Inv ParentMoves.restores inv = ground arith
parent-Inv (ParentMoves.handles_late e) inv = ground arith

abbrev ended_child : World → (n : ℕ) → World
ended_child w n = record w { running = n; zombies = suc w.zombies; pending = true }

child-Inv :
    (w : World) (n : ℕ) (p : Parent)
    → w.running ≡ suc n
    → Inv (record { world = w; parent = p })
    → Inv (record { world = ended_child w n; parent = p })
child-Inv w n Parent.install e inv = ground arith
child-Inv w n Parent.block e inv = ground arith
child-Inv w n (Parent.fork i) e inv = ground arith
child-Inv w n Parent.test e inv = ground arith
child-Inv w n Parent.suspend e inv = ground arith
child-Inv w n Parent.reap e inv = ground arith
child-Inv w n Parent.restore e inv = ground arith
child-Inv w n Parent.finished e inv = ground arith
child-Inv w n Parent.died e inv = ground arith

died-Inv :
    (w : World) (p : Parent)
    → Fails p
    → Inv (record { world = w; parent = p })
    → Inv (record { world = w; parent = Parent.died })
died-Inv w p Fails.install_fails inv = ground arith
died-Inv w p Fails.block_fails inv = ground arith
died-Inv w p (Fails.fork_fails e) inv = ground arith
died-Inv w p Fails.suspend_fails inv = ground arith
died-Inv w p Fails.restore_fails inv = ground arith

Step-Inv : {s t : System} → Step s t → Inv s → Inv t
Step-Inv (moves (parent mv)) inv = parent-Inv mv inv
Step-Inv {s} (moves (child_exits {n = n} e)) inv = child-Inv s.world n s.parent e inv
Step-Inv {s} (dies f) inv = died-Inv s.world s.parent f inv

begin-Inv : Inv begin
unfolding begin
begin-Inv = ground arith

pub Reach-Inv : {s : System} → Reach s → Inv s
Reach-Inv start = begin-Inv
Reach-Inv (later r st) = Step-Inv st (Reach-Inv r)
