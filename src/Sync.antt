-- ===== src/Sync.antt =====
-- LinuxAPI/process_sync_by_signal.c: a parent waits in `sigsuspend` for SIGUSR1 of its child before
-- it goes on. The signal is blocked before the `fork`, so it can come before the parent waits. Any
-- interleaving of the two processes is a run.
mod Masked
pub mod Order
mod Tests
use linuxapi.Base.{List, [], ◌∷◌, ◌≡◌, Bool, true, false}

-- What the two processes print, in a word each.
pub data Line : Type 0 where
  child_job parent_waits signaled parent_job : Line

-- Whether SIGUSR1 waits for the parent, is in its mask, in `originmask` and in the mask that
-- `sigsuspend` puts back, and has a handler; and the terminal, newest line first.
pub record World : Type 0 where
  pub pending : Bool
  pub masked : Bool
  pub originmask : Bool
  pub saved : Bool
  pub caught : Bool
  pub out : List Line

-- The parent: before `sigprocmask`, `sigaction`, `fork`, the first `printf` and `sigsuspend`, in
-- `sigsuspend`, before the second `printf` and the last `sigprocmask`, and behind it; or ended by
-- `errExit`, or by the signal.
pub data Parent : Type 0 where
  block install fork announce suspend waiting job restore finished died killed : Parent

-- The child: not there yet; before its `printf`, `sleep` and `kill`; ended.
pub data Child : Type 0 where
  absent job rest notify ended : Child

pub record System : Type 0 where
  pub world : World
  pub parent : Parent
  pub child : Child

abbrev pub is_over : Parent → Bool
is_over Parent.finished = true
is_over Parent.died = true
is_over Parent.killed = true
is_over p = false

-- A handler that has run lets `sigsuspend` return, with EINTR and the old mask; elsewhere the parent
-- goes on where it stood.
abbrev pub behind_handler : Parent → Parent
behind_handler Parent.waiting = Parent.job
behind_handler p = p

abbrev pub mask_behind : Parent → World → Bool
mask_behind Parent.waiting w = w.saved
mask_behind p w = w.masked

pub data ParentMoves (w : World) (c : Child) : Parent → World → Child → Parent → Type 0 where
  blocks :
      ParentMoves w c Parent.block
        (record w { originmask = w.masked; masked = true })
        c
        Parent.install
  installs : ParentMoves w c Parent.install (record w { caught = true }) c Parent.fork
  forks : ParentMoves w c Parent.fork w Child.job Parent.announce
  announces :
      ParentMoves w c Parent.announce (record w { out = parent_waits ∷ w.out }) c Parent.suspend
  suspends :
      ParentMoves w c Parent.suspend
        (record w { saved = w.masked; masked = false })
        c
        Parent.waiting
  works : ParentMoves w c Parent.job (record w { out = parent_job ∷ w.out }) c Parent.restore
  restores : ParentMoves w c Parent.restore (record w { masked = w.originmask }) c Parent.finished
  -- A signal that is not blocked runs its handler, which prints, or ends a process without one.
  handles :
      {p : Parent}
      → is_over p ≡ false
      → w.pending ≡ true
      → w.masked ≡ false
      → w.caught ≡ true
      → ParentMoves w c p
          (record w { pending = false; masked = mask_behind p w; out = signaled ∷ w.out })
          c
          (behind_handler p)
  kills :
      {p : Parent}
      → is_over p ≡ false
      → w.pending ≡ true
      → w.masked ≡ false
      → w.caught ≡ false
      → ParentMoves w c p (record w { pending = false }) c Parent.killed

pub data ChildMoves (w : World) : Child → World → Child → Type 0 where
  works : ChildMoves w Child.job (record w { out = child_job ∷ w.out }) Child.rest
  rests : ChildMoves w Child.rest w Child.notify
  notifies : ChildMoves w Child.notify (record w { pending = true }) Child.ended

pub data Fails : Parent → Type 0 where
  block_fails : Fails Parent.block
  install_fails : Fails Parent.install
  fork_fails : Fails Parent.fork
  suspend_fails : Fails Parent.suspend
  restore_fails : Fails Parent.restore

pub data Moves (s : System) : System → Type 0 where
  parent_moves :
      {w : World} {c : Child} {p : Parent}
      → ParentMoves s.world s.child s.parent w c p
      → Moves s (record { world = w; parent = p; child = c })
  child_moves :
      {w : World} {c : Child}
      → ChildMoves s.world s.child w c
      → Moves s (record { world = w; parent = s.parent; child = c })

pub data Step (s : System) : System → Type 0 where
  moves : {t : System} → Moves s t → Step s t
  dies : Fails s.parent → Step s (record s { parent = Parent.died })

-- `inherited` tells whether the process starts with the signal in its mask.
pub begin : (inherited : Bool) → System
begin inherited = record {
  world = record {
    pending = false;
    masked = inherited;
    originmask = false;
    saved = false;
    caught = false;
    out = [];
  };
  parent = Parent.block;
  child = Child.absent;
}

pub data Reach : System → Type 0 where
  start : (inherited : Bool) → Reach (begin inherited)
  later : {s t : System} → Reach s → Step s t → Reach t
