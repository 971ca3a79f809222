-- ===== src/Modes/Tests.antt =====
-- A file with the mode 0100644, and 0100446 after chn_access.
use linuxapi.Base.{◌≡◌, ◌%◌, refl, some, [], ◌∷◌}
use linuxapi.Modes.{Stat, get_stat, kind_of, letters}
use linuxapi.Modes.Permissions.{mode_of, shown, with_others, new_mode, permissions_shown}

abbrev file : Stat
file = record {
  st_size = 10;
  maj = 8;
  min = 1;
  st_ino = 77;
  st_mode = 33188;
  st_nlink = 1;
  st_uid = 1000;
  st_gid = 1000;
  st_blksize = 4096;
  st_blocks = 8;
  st_atim = 1;
  st_mtim = 2;
  st_ctim = 3;
}

-- rw-r--r--
file_letters : letters 33188 ≡ 114 ∷ 119 ∷ 45 ∷ 114 ∷ 45 ∷ 45 ∷ 114 ∷ 45 ∷ 45 ∷ []
file_letters = refl

permissions_shown_example :
    (mode_of 256 (shown (get_stat (some file))) ≡ 33188 % 512)
    × (kind_of (new_mode file) ≡ kind_of 33188)
    × (shown (get_stat (some (record file { st_mode = new_mode file })))
        ≡ with_others (shown (get_stat (some file))))
permissions_shown_example = permissions_shown file
