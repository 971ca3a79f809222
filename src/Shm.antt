-- ===== src/Shm.antt =====
-- LinuxAPI2/ipc_systemv_shm_writer.c and LinuxAPI2/ipc_systemv_shm/ipc_systemv_shm_reader.c: two
-- processes pass blocks of standard input through one segment of shared memory, in turns that two
-- semaphores give out. Each step is one call or one access to shared memory; any interleaving of
-- the two processes is a run. The reader is taken to start after the writer has set the semaphores;
-- the count `bytes`, which nothing reads, is left out.
pub mod Invariant
pub mod Terminal
pub mod Transfer
pub mod Liveness
mod Tests
use linuxapi.Base.{
  ℕ, zero, suc, ◌+◌, pos, ◌==ℤ◌, ◌≡◌, Bool, true, false, Option, none, some, List, [], ◌∷◌,
}
use linuxapi.Posix.{Reply, result}

-- The semaphores WRITE_SEM and READ_SEM, `struct shmmsg` with the answer to `read` that it holds
-- (nothing before the first), what standard input will still give, what has been read from it and
-- handed to `write`, the newest block first, and what each `write` has answered.
pub record Mem : Type 0 where
  pub write_sem : ℕ
  pub read_sem : ℕ
  pub block : Option Reply
  pub input : List Reply
  pub sent : List Reply
  pub out : List Reply
  pub answers : List Reply

-- `shmp->cnt == 0`
abbrev pub at_end : Option Reply → Bool
at_end none = false
at_end (some r) = result r ==ℤ pos 0

-- Where the writer stands: before the first `semop` of a round, before `read`, before the second
-- `semop`, before the test for the end, before the `semop` after the loop, before the three calls
-- that remove the semaphores and the segment, and behind them. `errExit` ends it with `n` turns
-- taken along.
pub data Writer : Type 0 where
  reserve fill publish test_end confirm cleanup finished : Writer
  died : (n : ℕ) → Writer

-- The reader: before `semop`, before the test for the end, before `write`, before the `semop` that
-- frees the segment, before `shmdt`, before the last `semop`, and behind it.
pub data Reader : Type 0 where
  await check print release detach notify finished : Reader
  died : (n : ℕ) → Reader

pub data Writes (m : Mem) : Writer → Mem → Writer → Type 0 where
  take_write :
      {n : ℕ}
      → m.write_sem ≡ suc n
      → Writes m Writer.reserve (record m { write_sem = n }) Writer.fill
  load :
      {r : Reply} {rest : List Reply}
      → m.input ≡ r ∷ rest
      → Writes m Writer.fill
          (record m { block = some r; input = rest; sent = r ∷ m.sent })
          Writer.publish
  post_read : Writes m Writer.publish (record m { read_sem = m.read_sem + 1 }) Writer.test_end
  more : at_end m.block ≡ false → Writes m Writer.test_end m Writer.reserve
  last : at_end m.block ≡ true → Writes m Writer.test_end m Writer.confirm
  take_last :
      {n : ℕ}
      → m.write_sem ≡ suc n
      → Writes m Writer.confirm (record m { write_sem = n }) Writer.cleanup
  remove : Writes m Writer.cleanup m Writer.finished
  reserve_fails : Writes m Writer.reserve m (Writer.died 0)
  publish_fails : Writes m Writer.publish m (Writer.died 1)
  confirm_fails : Writes m Writer.confirm m (Writer.died 0)
  cleanup_fails : Writes m Writer.cleanup m (Writer.died 1)

pub data Reads (m : Mem) : Reader → Mem → Reader → Type 0 where
  take_read :
      {n : ℕ} → m.read_sem ≡ suc n → Reads m Reader.await (record m { read_sem = n }) Reader.check
  goes_on : at_end m.block ≡ false → Reads m Reader.check m Reader.print
  ends : at_end m.block ≡ true → Reads m Reader.check m Reader.detach
  -- Whatever `write` answers, also where it was short or has failed, the reader goes on.
  show :
      {r : Reply} (w : Reply)
      → m.block ≡ some r
      → Reads m Reader.print (record m { out = r ∷ m.out; answers = w ∷ m.answers }) Reader.release
  post_write : Reads m Reader.release (record m { write_sem = m.write_sem + 1 }) Reader.await
  unmap : Reads m Reader.detach m Reader.notify
  post_last : Reads m Reader.notify (record m { write_sem = m.write_sem + 1 }) Reader.finished
  await_fails : Reads m Reader.await m (Reader.died 0)
  release_fails : Reads m Reader.release m (Reader.died 1)
  detach_fails : Reads m Reader.detach m (Reader.died 1)
  notify_fails : Reads m Reader.notify m (Reader.died 1)

pub record System : Type 0 where
  pub mem : Mem
  pub writer : Writer
  pub reader : Reader

pub data Step (s : System) : System → Type 0 where
  by_writer :
      {m : Mem} {w : Writer}
      → Writes s.mem s.writer m w
      → Step s (record { mem = m; writer = w; reader = s.reader })
  by_reader :
      {m : Mem} {r : Reader}
      → Reads s.mem s.reader m r
      → Step s (record { mem = m; writer = s.writer; reader = r })

-- The two `semctl` calls of the writer, whatever the semaphores held before.
pub setup : (input : List Reply) → System
setup input = record {
  mem = record {
    write_sem = 1;
    read_sem = 0;
    block = none;
    input = input;
    sent = [];
    out = [];
    answers = [];
  };
  writer = Writer.reserve;
  reader = Reader.await;
}

pub data Reach (input : List Reply) : System → Type 0 where
  start : Reach input (setup input)
  later : {s t : System} → Reach input s → Step s t → Reach input t
