-- ===== src/Shm/Invariant.antt =====
-- There is one turn in the system: in a semaphore, or with one of the processes. Who has it says
-- how far the calls of `write` are behind standard input.
use linuxapi.Base.{ℕ, ◌+◌, ◌≡◌, refl, ap, Bool, true, false, some, List, ◌∷◌, arith}
use linuxapi.Posix.{Reply}
use linuxapi.Shm.{
  Mem, at_end, Writer, Reader, Writes, Reads, System, Step, by_writer, by_reader, setup, Reach,
  start, later,
}

abbrev pub writer_turn : Writer → ℕ
writer_turn Writer.fill = 1
writer_turn Writer.publish = 1
writer_turn Writer.cleanup = 1
writer_turn Writer.finished = 1
writer_turn (Writer.died n) = n
writer_turn _ = 0

abbrev pub reader_turn : Reader → ℕ
reader_turn Reader.await = 0
reader_turn Reader.finished = 0
reader_turn (Reader.died n) = n
reader_turn _ = 1

-- All blocks have been handed to `write`, or all but the one in the segment.
abbrev pub Level : Mem → Type 0
Level m = m.sent ≡ m.out

abbrev pub Behind : Mem → Type 0
Behind m = (r : Reply) × (m.block ≡ some r) × (m.sent ≡ r ∷ m.out)

abbrev pub WriterView : Writer → Mem → Type 0
WriterView Writer.reserve m = at_end m.block ≡ false
WriterView Writer.fill m = Level m × (at_end m.block ≡ false)
WriterView Writer.publish m = Behind m
WriterView Writer.test_end m = Unit
WriterView (Writer.died n) m = Unit
WriterView _ m = at_end m.block ≡ true

abbrev pub ReaderView : Reader → Mem → Type 0
ReaderView Reader.await m = Unit
ReaderView Reader.check m = Behind m
ReaderView Reader.print m = Behind m × (at_end m.block ≡ false)
ReaderView Reader.release m = Level m × (at_end m.block ≡ false)
ReaderView Reader.finished m = Behind m × (at_end m.block ≡ true) × (m.read_sem ≡ 0)
ReaderView (Reader.died n) m = Unit
ReaderView _ m = Behind m × (at_end m.block ≡ true)

-- A free segment: nothing waits in it, unless the reader is through.
abbrev pub FreeView : Reader → Mem → Type 0
FreeView Reader.finished m = Unit
FreeView r m = Level m × (at_end m.block ≡ false)

abbrev pub gone : Reader → Bool
gone Reader.finished = true
gone r = false

-- The reader leaves last but for the writer's cleaning up.
abbrev pub Phase : Writer → Reader → Type 0
Phase Writer.publish r = gone r ≡ false
Phase Writer.cleanup r = gone r ≡ true
Phase Writer.finished r = gone r ≡ true
Phase w r = Unit

pub record Inv (s : System) : Type 0 where
  pub turns : s.mem.write_sem + s.mem.read_sem + writer_turn s.writer + reader_turn s.reader ≡ 1
  pub written : s.mem.read_sem ≡ 1 → Behind s.mem
  pub free : s.mem.write_sem ≡ 1 → FreeView s.reader s.mem
  pub writer_view : WriterView s.writer s.mem
  pub phase : Phase s.writer s.reader
  pub reader_view : ReaderView s.reader s.mem

setup-Inv : (input : List Reply) → Inv (setup input)
unfolding setup
setup-Inv input = record {
  turns = refl;
  written = λ h. absurd (omega arith);
  free = λ h. (refl, refl);
  phase = tt;
  writer_view = refl;
  reader_view = tt;
}

-- While the writer fills the segment, the reader waits for its turn or has died.
load-ReaderView :
    {m : Mem} (m' : Mem) (r : Reader)
    → Inv (record { mem = m; writer = Writer.fill; reader = r })
    → ReaderView r m'
load-ReaderView m' Reader.await inv = tt
load-ReaderView m' (Reader.died n) inv = tt
load-ReaderView m' Reader.finished inv = absurd (ground (arith, inv.writer_view, inv.reader_view))
load-ReaderView m' Reader.check inv = absurd (omega (arith, inv.turns))
load-ReaderView m' Reader.print inv = absurd (omega (arith, inv.turns))
load-ReaderView m' Reader.release inv = absurd (omega (arith, inv.turns))
load-ReaderView m' Reader.detach inv = absurd (omega (arith, inv.turns))
load-ReaderView m' Reader.notify inv = absurd (omega (arith, inv.turns))

load-gone :
    {m : Mem} (r : Reader)
    → Inv (record { mem = m; writer = Writer.fill; reader = r })
    → gone r ≡ false
load-gone Reader.await inv = refl
load-gone Reader.finished inv = absurd (ground (arith, inv.writer_view, inv.reader_view))
load-gone r inv = refl

Writes-Inv :
    {m m' : Mem} {w w' : Writer} (r : Reader)
    → Writes m w m' w'
    → Inv (record { mem = m; writer = w; reader = r })
    → Inv (record { mem = m'; writer = w'; reader = r })
Writes-Inv r (Writes.take_write e) inv = ground arith
Writes-Inv r (Writes.load {r = b} e) inv = record {
  turns = inv.turns;
  written = λ h. absurd (omega (arith, inv.turns));
  free = λ h. absurd (omega (arith, inv.turns));
  writer_view = (b, refl, ap (λ l. b ∷ l) inv.writer_view.0);
  phase = load-gone r inv;
  reader_view = load-ReaderView _ r inv;
}
Writes-Inv r Writes.post_read inv = ground arith
Writes-Inv r (Writes.more e) inv = ground arith
Writes-Inv r (Writes.last e) inv = ground arith
Writes-Inv r (Writes.take_last e) inv = ground arith
Writes-Inv r Writes.remove inv = ground arith
Writes-Inv r Writes.reserve_fails inv = ground arith
Writes-Inv r Writes.publish_fails inv = ground arith
Writes-Inv r Writes.confirm_fails inv = ground arith
Writes-Inv r Writes.cleanup_fails inv = ground arith

WriterView-read_sem :
    (w : Writer) (m : Mem) (n : ℕ) → WriterView w m → WriterView w (record m { read_sem = n })
WriterView-read_sem Writer.reserve m n h = h
WriterView-read_sem w m n h = h

Reads-Inv :
    {m m' : Mem} {r r' : Reader} (w : Writer)
    → Reads m r m' r'
    → Inv (record { mem = m; writer = w; reader = r })
    → Inv (record { mem = m'; writer = w; reader = r' })
Reads-Inv w (Reads.take_read e) inv = record {
  turns = omega (arith, inv.turns, e);
  written = λ h. absurd (omega (arith, inv.turns, e));
  free = λ h. absurd (omega (arith, inv.turns, e));
  phase = ground (arith, inv.phase);
  writer_view = WriterView-read_sem w _ _ inv.writer_view;
  reader_view = inv.written (omega (arith, inv.turns, e));
}
Reads-Inv w (Reads.goes_on e) inv = record {
  turns = inv.turns;
  written = inv.written;
  free = inv.free;
  phase = ground (arith, inv.phase);
  writer_view = inv.writer_view;
  reader_view = (inv.reader_view, e);
}
Reads-Inv w (Reads.ends e) inv = record {
  turns = inv.turns;
  written = inv.written;
  free = inv.free;
  phase = ground (arith, inv.phase);
  writer_view = inv.writer_view;
  reader_view = (inv.reader_view, e);
}
Reads-Inv w (Reads.show x e) inv = ground arith
Reads-Inv w Reads.post_write inv = ground arith
Reads-Inv w Reads.unmap inv = ground arith
Reads-Inv w Reads.post_last inv = ground arith
Reads-Inv w Reads.await_fails inv = ground arith
Reads-Inv w Reads.release_fails inv = ground arith
Reads-Inv w Reads.detach_fails inv = ground arith
Reads-Inv w Reads.notify_fails inv = ground arith

pub Step-Inv : {s t : System} → Step s t → Inv s → Inv t
Step-Inv {s} (by_writer mv) inv = Writes-Inv s.reader mv inv
Step-Inv {s} (by_reader mv) inv = Reads-Inv s.writer mv inv

pub Reach-Inv : {input : List Reply} {s : System} → Reach input s → Inv s
Reach-Inv {input} start = setup-Inv input
Reach-Inv (later r st) = Step-Inv st (Reach-Inv r)
