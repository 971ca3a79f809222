-- ===== src/Sync/Order.antt =====
-- The order of the jobs, and who can go on.
use linuxapi.Base.{◌≡◌, ◌≢◌, ◌⊎◌, inl, inr, refl, ◌∙◌, Bool, true, false}
use linuxapi.Sync.{
  World, Parent, Child, System, ParentMoves, ChildMoves, Moves, parent_moves, child_moves, Reach,
}
use mathlib.Core.Path.{subst}
use linuxapi.Sync.Masked.{Masks, Ordered, Inv, Reach-Inv}

-- A step of one of the processes that does not end the parent.
abbrev pub is_ended : Parent → Bool
is_ended Parent.died = true
is_ended Parent.killed = true
is_ended p = false

abbrev pub Continues : System → Type 0
Continues s = (t : System) × Moves s t × (is_ended t.parent ≡ false)

waiting_goes_on :
    (w : World) (c : Child)
    → Inv (record { world = w; parent = Parent.waiting; child = c })
    → Continues (record { world = w; parent = Parent.waiting; child = c })
waiting_goes_on w Child.absent i = absurd (i.signals.0 refl)
waiting_goes_on w Child.job i = (_, child_moves ChildMoves.works, refl)
waiting_goes_on w Child.rest i = (_, child_moves ChildMoves.rests, refl)
waiting_goes_on w Child.notify i = (_, child_moves ChildMoves.notifies, refl)
waiting_goes_on w Child.ended i =
    (_, parent_moves (ParentMoves.handles refl i.signals.1 i.masks.0 i.masks.2), refl)

goes_on_at :
    (w : World) (p : Parent) (c : Child)
    → Inv (record { world = w; parent = p; child = c })
    → p ≢ Parent.died
    → (p ≡ Parent.finished) ⊎ Continues (record { world = w; parent = p; child = c })
goes_on_at w Parent.block c i a = inr (_, parent_moves ParentMoves.blocks, refl)
goes_on_at w Parent.install c i a = inr (_, parent_moves ParentMoves.installs, refl)
goes_on_at w Parent.fork c i a = inr (_, parent_moves ParentMoves.forks, refl)
goes_on_at w Parent.announce c i a = inr (_, parent_moves ParentMoves.announces, refl)
goes_on_at w Parent.suspend c i a = inr (_, parent_moves ParentMoves.suspends, refl)
goes_on_at w Parent.waiting c i a = inr (waiting_goes_on w c i)
goes_on_at w Parent.job c i a = inr (_, parent_moves ParentMoves.works, refl)
goes_on_at w Parent.restore c i a = inr (_, parent_moves ParentMoves.restores, refl)
goes_on_at w Parent.finished c i a = inl refl
goes_on_at w Parent.died c i a = absurd (a refl)
goes_on_at w Parent.killed c i a = absurd i.masks

never_killed : (p : Parent) (s : System) → s.parent ≡ p → Inv s → p ≢ Parent.killed
never_killed p s e i k = subst (λ q. Masks q s.world) (e ∙ k) i.masks

-- The signal is not missed, also if it comes before the parent waits, and whatever the mask was at
-- first: in every reachable state in which the parent has not been ended by an error, no signal has ended
-- it, and it is through, or one of the processes can go on without ending it. Every line of the parent's
-- job on the terminal comes after a line of the child's job.
pub signal_not_missed :
    {s : System}
    → Reach s
    → s.parent ≢ Parent.died
    → (s.parent ≢ Parent.killed)
      × ((s.parent ≡ Parent.finished) ⊎ Continues s)
      × Ordered s.world.out
signal_not_missed {s} r a =
    let i = Reach-Inv r in
    (never_killed s.parent s refl i, goes_on_at s.world s.parent s.child i a, i.ordered)
