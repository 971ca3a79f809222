-- ===== src/Sync/Tests.antt =====
-- A run in which the signal comes before the parent waits for it.
use linuxapi.Base.{[], ◌∷◌, ◌≡◌, ◌≢◌, ◌⊎◌, refl, true, false}
use linuxapi.Sync.{
  child_job, parent_waits, signaled, parent_job, Parent, Child, System, ParentMoves, ChildMoves,
  parent_moves, child_moves, moves, begin, Reach, start, later,
}
use linuxapi.Sync.Masked.{Ordered}
use linuxapi.Sync.Order.{Continues, signal_not_missed}

-- The signal is pending, and the parent is about to wait for it.
abbrev early_signal : System
early_signal = record {
  world = record {
    pending = true;
    masked = true;
    originmask = false;
    saved = false;
    caught = true;
    out = parent_waits ∷ child_job ∷ [];
  };
  parent = Parent.suspend;
  child = Child.ended;
}

early_signal-Reach : Reach early_signal
unfolding begin
early_signal-Reach =
    later
      (later
        (later
          (later
            (later
              (later (later (start false) (moves (parent_moves ParentMoves.blocks)))
                (moves (parent_moves ParentMoves.installs)))
              (moves (parent_moves ParentMoves.forks)))
            (moves (child_moves ChildMoves.works)))
          (moves (child_moves ChildMoves.rests)))
        (moves (child_moves ChildMoves.notifies)))
      (moves (parent_moves ParentMoves.announces))

signal_not_missed_example :
    (early_signal.parent ≢ Parent.killed)
    × ((early_signal.parent ≡ Parent.finished) ⊎ Continues early_signal)
    × Ordered early_signal.world.out
signal_not_missed_example = signal_not_missed early_signal-Reach (λ e. cc)

-- The handler runs in `sigsuspend`, and then the parent does its job.
in_order :
    (s : System) × Reach s × (s.world.out ≡ parent_job ∷ signaled ∷ parent_waits ∷ child_job ∷ [])
in_order = (
  _,
  later
      (later (later early_signal-Reach (moves (parent_moves ParentMoves.suspends)))
        (moves (parent_moves (ParentMoves.handles refl refl refl refl))))
      (moves (parent_moves ParentMoves.works)),
  refl,
)
