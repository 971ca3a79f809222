-- ===== src/FileLock/Tests.antt =====
-- A run: an exclusive lock, and a region that is locked by process 9 and then not got.
use linuxapi.Base.{ℕ, pos, List, [], ◌∷◌}
use linuxapi.Posix.{Reply, val, chunk, fail, eagain}
use linuxapi.FileLock.{LockOption, Argument, RegionOption, file_lock_flock, file_lock_region}
use linuxapi.FileLock.Held.{FlockPost, Wanted}
use linuxapi.FileLock.Region.{RegionPost, locks_asked}

abbrev answers : List Reply
answers = val 3 ∷ chunk (1 ∷ 9 ∷ []) ∷ fail eagain ∷ val 0 ∷ []

locks_asked_example :
    ((lock : ℕ) × Wanted 0 LockOption.exclusive lock
      × FlockPost lock (file_lock_flock 0 LockOption.exclusive answers []))
    × RegionPost (RegionOption.write_lock Argument.nonblocking) (pos 0) (pos 10) (
        file_lock_region (RegionOption.write_lock Argument.nonblocking) (pos 0) (pos 10) answers [])
locks_asked_example =
    locks_asked 0 LockOption.exclusive (RegionOption.write_lock Argument.nonblocking) (pos 0)
      (pos 10) answers
