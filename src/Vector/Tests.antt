-- ===== src/Vector/Tests.antt =====
-- Runs: a file of twelve bytes is copied and scattered, and two short lines come back.
use linuxapi.Base.{◌≡◌, refl, ℕ, List, [], ◌∷◌}
use linuxapi.Posix.{Reply, val, chunk, call, call_or, guard, trace_of}
use linuxapi.Net.FileCopy
use linuxapi.Net.FileCopy.{file_open_read_write}
use linuxapi.Vector.{file_scatter_gather, write_strs, is_short, scatter, fileio_readv_writev}
use linuxapi.Vector.Scatter.{ScatterPost, offered}
use linuxapi.Vector.Lines.{printed, good_answers, bytes_moved}

abbrev short_file : List Reply
short_file = val 3 ∷ chunk (104 ∷ 105 ∷ []) ∷ val 4 ∷ val 18 ∷ val 0 ∷ val 0 ∷ val 0 ∷ []

-- Two buffers of two bytes.
abbrev strs : List (List ℕ)
strs = (1 ∷ 2 ∷ []) ∷ (3 ∷ 4 ∷ []) ∷ []

-- "hi\n" and "o\n"
abbrev two_lines : List (List ℕ)
two_lines = (104 ∷ 105 ∷ 10 ∷ []) ∷ (111 ∷ 10 ∷ []) ∷ []

abbrev arrays : List (List ℕ)
arrays = (9 ∷ 9 ∷ 9 ∷ 9 ∷ []) ∷ (9 ∷ 9 ∷ 9 ∷ []) ∷ []

-- A short read: the second buffer is written as it was.
stale_written : offered (trace_of (file_scatter_gather strs short_file [])) ≡ 104 ∷ 105 ∷ 3 ∷ 4 ∷ []
unfolding file_scatter_gather write_strs is_short scatter call call_or guard
stale_written = refl

bytes_moved_example :
    FileCopy.FilePost (file_open_read_write 1000 short_file [])
    × ScatterPost strs (file_scatter_gather strs short_file [])
    × (printed
          (trace_of (fileio_readv_writev two_lines arrays (good_answers 3 7 0 3 0 two_lines) []))
        ≡ two_lines)
bytes_moved_example =
    bytes_moved 1000 strs short_file two_lines arrays 3 7 0 3 0
      (((λ e. cc), ((λ e. cc), ((λ e. cc), tt))), (((λ e. cc), ((λ e. cc), tt)), tt))
      (refl, (refl, tt))
