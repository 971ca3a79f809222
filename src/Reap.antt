-- ===== src/Reap.antt =====
-- LinuxAPI/process_wait_by_signal.c: a parent starts five children and reaps them in its handler of
-- SIGCHLD. The signal is blocked but inside `sigsuspend`; a blocked signal is pending once, however
-- many children have ended. Any interleaving of the parent and the children is a run. Output is
-- left out.
pub mod Invariant
pub mod Result
mod Tests
use linuxapi.Base.{ℕ, zero, suc, ◌+◌, ◌-◌, ltb, ◌≡◌, Bool, true, false}

-- The variables `child_cnt` and `sig_cnt`; the children that run and those that have ended and are
-- not waited for; and whether SIGCHLD is pending.
pub record World : Type 0 where
  pub child_cnt : ℕ
  pub sig_cnt : ℕ
  pub running : ℕ
  pub zombies : ℕ
  pub pending : Bool

abbrev pub children : ℕ
children = 5

-- Where the parent stands: before `sigaction`, `sigprocmask`, the `i`th round of the loop that
-- forks, the test `child_cnt > 0`, `sigsuspend`, the `waitpid` of the handler, and the last
-- `sigprocmask`; behind it; or ended by `errExit`.
pub data Parent : Type 0 where
  install block test suspend reap restore finished died : Parent
  fork : (i : ℕ) → Parent

pub data ParentMoves (w : World) : Parent → World → Parent → Type 0 where
  installs : ParentMoves w Parent.install w Parent.block
  blocks : ParentMoves w Parent.block w (Parent.fork 0)
  forks :
      {i : ℕ}
      → ltb i children ≡ true
      → ParentMoves w (Parent.fork i) (record w { running = suc w.running }) (Parent.fork (suc i))
  forked : {i : ℕ} → ltb i children ≡ false → ParentMoves w (Parent.fork i) w Parent.test
  goes_on : ltb 0 w.child_cnt ≡ true → ParentMoves w Parent.test w Parent.suspend
  ends : ltb 0 w.child_cnt ≡ false → ParentMoves w Parent.test w Parent.restore
  -- The signal is delivered, and the handler starts.
  handles :
      w.pending ≡ true
      → ParentMoves w Parent.suspend
          (record w { pending = false; sig_cnt = suc w.sig_cnt })
          Parent.reap
  -- `waitpid` gives a child that has ended, or none; then the handler and `sigsuspend` return.
  reaps :
      {z : ℕ}
      → w.zombies ≡ suc z
      → ParentMoves w Parent.reap
          (record w { zombies = z; child_cnt = w.child_cnt - 1 })
          Parent.reap
  reaped : w.zombies ≡ 0 → ParentMoves w Parent.reap w Parent.test
  restores : ParentMoves w Parent.restore w Parent.finished
  -- A signal that was pending at the end runs the handler once more, with no child left.
  handles_late :
      w.pending ≡ true
      → ParentMoves w Parent.finished
          (record w { pending = false; sig_cnt = suc w.sig_cnt })
          Parent.finished

-- The calls whose failure ends the parent.
pub data Fails : Parent → Type 0 where
  install_fails : Fails Parent.install
  block_fails : Fails Parent.block
  fork_fails : {i : ℕ} → ltb i children ≡ true → Fails (Parent.fork i)
  suspend_fails : Fails Parent.suspend
  restore_fails : Fails Parent.restore

pub record System : Type 0 where
  pub world : World
  pub parent : Parent

-- A step of the parent that does not end it, or the end of a child.
pub data Moves (s : System) : System → Type 0 where
  parent :
      {w : World} {p : Parent}
      → ParentMoves s.world s.parent w p
      → Moves s (record { world = w; parent = p })
  child_exits :
      {n : ℕ}
      → s.world.running ≡ suc n
      → Moves s (record s {
        world = record s.world { running = n; zombies = suc s.world.zombies; pending = true };
      })

pub data Step (s : System) : System → Type 0 where
  moves : {t : System} → Moves s t → Step s t
  dies : Fails s.parent → Step s (record s { parent = Parent.died })

pub begin : System
begin = record {
  world = record { child_cnt = children; sig_cnt = 0; running = 0; zombies = 0; pending = false };
  parent = Parent.install;
}

pub data Reach : System → Type 0 where
  start : Reach begin
  later : {s t : System} → Reach s → Step s t → Reach t
