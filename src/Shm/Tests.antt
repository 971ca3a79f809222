-- ===== src/Shm/Tests.antt =====
-- A run of the two processes with one block and the end of file, and the theorems at its states.
use linuxapi.Base.{ℕ, pos, ◌≡◌, refl, Option, none, some, List, [], ◌∷◌, ◌++◌}
use linuxapi.Posix.{Reply, val, chunk, result}
use linuxapi.Shm.{
  Writer, Reader, Writes, Reads, System, by_writer, by_reader, setup, Reach, start, later,
}
use linuxapi.Shm.Terminal.{OnTerminal}
use linuxapi.Shm.Transfer.{shown_blocks, removed_after_reader}
use linuxapi.Shm.Liveness.{NotStuck, transfer_goes_on}

abbrev block : Reply
block = chunk (104 ∷ 105 ∷ [])

abbrev eof : Reply
eof = chunk []

abbrev blocks : List Reply
blocks = block ∷ eof ∷ []

-- Every `write` has taken the two bytes of its block.
abbrev answered : List Reply → List Reply
answered [] = []
answered (b ∷ bs) = val 2 ∷ answered bs

abbrev at : (w r : ℕ) → Option Reply → (input sent out : List Reply) → Writer → Reader → System
at w r b input sent out writer reader = record {
  mem = record {
    write_sem = w;
    read_sem = r;
    block = b;
    input = input;
    sent = sent;
    out = out;
    answers = answered out;
  };
  writer = writer;
  reader = reader;
}

-- The writer is about to fill the segment for the first time, and for the second time.
abbrev first_fill : System
first_fill = at 0 0 none blocks [] [] Writer.fill Reader.await

first_fill-Reach : Reach blocks first_fill
unfolding setup
first_fill-Reach = later start (by_writer (Writes.take_write {n = 0} refl))

abbrev second_fill : System
second_fill = at 0 0 (some block) (eof ∷ []) (block ∷ []) (block ∷ []) Writer.fill Reader.await

-- The reader shows the first block while the writer waits.
abbrev printed : System
printed = at 0 0 (some block) (eof ∷ []) (block ∷ []) (block ∷ []) Writer.reserve Reader.release

printed-Reach : Reach blocks printed
printed-Reach =
    later
      (later
        (later
          (later
            (later (later first_fill-Reach (by_writer (Writes.load refl)))
              (by_writer Writes.post_read))
            (by_writer (Writes.more refl)))
          (by_reader (Reads.take_read {n = 0} refl)))
        (by_reader (Reads.goes_on refl)))
      (by_reader (Reads.show (val 2) refl))

second_fill-Reach : Reach blocks second_fill
second_fill-Reach =
    later (later printed-Reach (by_reader Reads.post_write))
      (by_writer (Writes.take_write {n = 0} refl))

abbrev done : System
done = at 0 0 (some eof) [] (eof ∷ block ∷ []) (block ∷ []) Writer.finished Reader.finished

done-Reach : Reach blocks done
done-Reach =
    later
      (later
        (later
          (later
            (later
              (later
                (later
                  (later (later second_fill-Reach (by_writer (Writes.load refl)))
                    (by_writer Writes.post_read))
                  (by_writer (Writes.last refl)))
                (by_reader (Reads.take_read {n = 0} refl)))
              (by_reader (Reads.ends refl)))
            (by_reader Reads.unmap))
          (by_reader Reads.post_last))
        (by_writer (Writes.take_last {n = 0} refl)))
      (by_writer Writes.remove)

removed_after_reader_example :
    (done.reader ≡ Reader.finished)
    × ((last : Reply) × (rest : List Reply) × (result last ≡ pos 0)
        × (blocks ≡ shown_blocks done.mem ++ last ∷ rest))
    × OnTerminal done.mem
removed_after_reader_example = removed_after_reader done-Reach refl

transfer_goes_on_example :
    NotStuck printed
    × ((rest : List Reply) × (blocks ≡ shown_blocks printed.mem ++ rest))
    × OnTerminal printed.mem
transfer_goes_on_example = transfer_goes_on printed-Reach (tt, tt)
