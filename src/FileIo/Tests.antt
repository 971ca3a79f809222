-- ===== src/FileIo/Tests.antt =====
-- Runs: a file of two bytes with an interrupted read, a file that fills the buffer, and a line.
use linuxapi.Base.{◌≡◌, refl, pos, List, [], ◌∷◌}
use linuxapi.Posix.{Reply, fail, val, chunk, eintr, enoent, call, call_or, guard, trace_of}
use linuxapi.Posix.Loop.{repeat}
use linuxapi.FileIo.{
  Choice, fileio_read_write, fileio_stdio_read, read_file, end_and_print, read_round, is_interrupt,
}
use linuxapi.FileIo.WholeFile.{texts}
use linuxapi.FileIo.FirstLine.{stream, reads_first_line}

abbrev answers : List Reply
answers = val 3 ∷ val 0 ∷ fail eintr ∷ chunk (72 ∷ 105 ∷ []) ∷ val 0 ∷ val 0 ∷ []

two_bytes : texts (trace_of (fileio_read_write (pos 0) Choice.r answers [])) ≡ (72 ∷ 105 ∷ []) ∷ []
unfolding fileio_read_write read_file end_and_print read_round is_interrupt call call_or guard
    repeat
two_bytes = refl

abbrev input_answers : List Reply
input_answers = val 3 ∷ chunk (72 ∷ 105 ∷ []) ∷ val 0 ∷ val 2 ∷ val 0 ∷ val 0 ∷ []

reads_first_line_example :
    texts (trace_of (fileio_stdio_read (val 1 ∷ stream (72 ∷ 105 ∷ 10 ∷ 33 ∷ []) enoent []) []))
    ≡ (72 ∷ 105 ∷ []) ∷ []
reads_first_line_example = reads_first_line (val 1) (72 ∷ 105 ∷ 10 ∷ 33 ∷ []) enoent [] refl
