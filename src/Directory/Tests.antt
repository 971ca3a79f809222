-- ===== src/Directory/Tests.antt =====
-- A run on a directory with one file beside "." and "..".
use linuxapi.Base.{◌≡◌, refl, ℕ, List, [], ◌∷◌}
use linuxapi.Posix.{Reply, fail, val, chunk, chunk_from, other, call, call_or, guard, trace_of}
use linuxapi.Posix.Loop.{repeat}
use linuxapi.Directory.{
  Visit, dirfunc, dirfuncs, attempt, is_dots, read_entry, path_parts, base_offset, has_slash,
  dir_part, use_directory, make_and_use, directory_link,
}
use linuxapi.Directory.Listing.{LinkPost, listed, directory_listed}

-- "file1"
abbrev file1 : List ℕ
file1 = 102 ∷ 105 ∷ 108 ∷ 101 ∷ 49 ∷ []

-- The answers up to `opendir`, the entries, and the rest.
abbrev answers : List Reply
answers =
    val 3
    ∷ val 0
    ∷ val 0
    ∷ val 0
    ∷ val 0
    ∷ val 8
    ∷ chunk file1
    ∷ chunk file1
    ∷ val 0
    ∷ val 0
    ∷ val 1
    ∷ chunk_from 7 (46 ∷ [])
    ∷ chunk_from 9 file1
    ∷ chunk_from 8 (46 ∷ 46 ∷ [])
    ∷ fail (other 0)
    ∷ val 0
    ∷ val 0
    ∷ val 4
    ∷ val 5
    ∷ val 6
    ∷ val 100
    ∷ val 200
    ∷ []

abbrev one_visit : List Visit
one_visit = record { pathname = file1; base = 0; st_mode = 33188; st_ino = 9 } ∷ []

one_listed : listed (trace_of (directory_link [] one_visit answers [])) ≡ (9, file1) ∷ []
unfolding directory_link make_and_use use_directory attempt read_entry is_dots dirfuncs dirfunc
    path_parts base_offset has_slash dir_part repeat call call_or guard
one_listed = refl

directory_listed_example : LinkPost one_visit (directory_link [] one_visit answers [])
directory_listed_example = directory_listed [] one_visit answers
