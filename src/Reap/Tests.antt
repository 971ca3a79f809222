-- ===== src/Reap/Tests.antt =====
-- A run in which all children end before the parent looks: one signal, and five are reaped.
use linuxapi.Base.{ℕ, refl, Bool, true, false}
use linuxapi.Reap.{
  Parent, ParentMoves, System, parent, child_exits, moves, begin, Reach, start, later,
}

abbrev at : (child_cnt sig_cnt running zombies : ℕ) → Bool → Parent → System
at child_cnt sig_cnt running zombies pending p = record {
  world = record {
    child_cnt = child_cnt;
    sig_cnt = sig_cnt;
    running = running;
    zombies = zombies;
    pending = pending;
  };
  parent = p;
}

-- Five children have been started.
five-Reach : Reach (at 5 0 5 0 false (Parent.fork 5))
unfolding begin
five-Reach =
    later
      (later
        (later
          (later
            (later
              (later (later start (moves (parent ParentMoves.installs)))
                (moves (parent ParentMoves.blocks)))
              (moves (parent (ParentMoves.forks refl))))
            (moves (parent (ParentMoves.forks refl))))
          (moves (parent (ParentMoves.forks refl))))
        (moves (parent (ParentMoves.forks refl))))
      (moves (parent (ParentMoves.forks refl)))

-- They have all ended, and the parent sleeps.
abbrev all_ended : System
all_ended = at 5 0 0 5 true Parent.suspend

all_ended-Reach : Reach all_ended
all_ended-Reach =
    later
      (later
        (later
          (later
            (later
              (later (later five-Reach (moves (parent (ParentMoves.forked refl))))
                (moves (parent (ParentMoves.goes_on refl))))
              (moves (child_exits {n = 4} refl)))
            (moves (child_exits {n = 3} refl)))
          (moves (child_exits {n = 2} refl)))
        (moves (child_exits {n = 1} refl)))
      (moves (child_exits {n = 0} refl))

abbrev over : System
over = at 0 1 0 0 false Parent.finished

over-Reach : Reach over
over-Reach =
    later
      (later
        (later
          (later
            (later
              (later
                (later
                  (later (later all_ended-Reach (moves (parent (ParentMoves.handles refl))))
                    (moves (parent (ParentMoves.reaps {z = 4} refl))))
                  (moves (parent (ParentMoves.reaps {z = 3} refl))))
                (moves (parent (ParentMoves.reaps {z = 2} refl))))
              (moves (parent (ParentMoves.reaps {z = 1} refl))))
            (moves (parent (ParentMoves.reaps {z = 0} refl))))
          (moves (parent (ParentMoves.reaped refl))))
        (moves (parent (ParentMoves.ends refl))))
      (moves (parent ParentMoves.restores))
