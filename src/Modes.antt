-- ===== src/Modes.antt =====
-- api3/file_directory.c: get_stat shows what `stat` gives for a file, its kind and permissions among
-- it, and chn_access takes the right to write from the owner and gives it to the others.
pub mod Permissions
mod Tests
use linuxapi.Base.{
  ℕ, zero, suc, ◌+◌, ◌-◌, ◌/◌, ◌%◌, ◌==◌, String, Bool, true, false, Option, none, some, List, [],
  ◌∷◌, ◌++◌, has_bit, set_bit, clear_bit, if◌then◌else◌,
}

-- The fields of `struct stat` that are used; `maj` and `min` are what the macros give for `st_dev`.
pub record Stat : Type 0 where
  pub st_size : ℕ
  pub maj : ℕ
  pub min : ℕ
  pub st_ino : ℕ
  pub st_mode : ℕ
  pub st_nlink : ℕ
  pub st_uid : ℕ
  pub st_gid : ℕ
  pub st_blksize : ℕ
  pub st_blocks : ℕ
  pub st_atim : ℕ
  pub st_mtim : ℕ
  pub st_ctim : ℕ

pub data StatLine : Type 0 where
  number : (title : String) → ℕ → StatLine
  device : (maj min : ℕ) → StatLine
  kind : String → StatLine
  -- the nine characters, as their codes
  permissions : List ℕ → StatLine

-- The types of <sys/stat.h> with what is printed for them, in the order of the cases.
abbrev pub file_types : List (ℕ × String)
file_types =
    (6, "block device node")
    ∷ (2, "chracter device node")
    ∷ (4, "directory")
    ∷ (1, "FIFO")
    ∷ (10, "symbolic link")
    ∷ (8, "regular file")
    ∷ (12, "socket")
    ∷ []

-- `switch(sb.st_mode & S_IFMT)`
unfoldable pub case_of : List (ℕ × String) → (type : ℕ) → List StatLine
case_of [] type = []
case_of ((t, name) ∷ rest) type = if type == t then kind name ∷ [] else case_of rest type

unfoldable pub kind_of : (mode : ℕ) → List StatLine
kind_of mode = case_of file_types ((mode / 4096) % 16)

-- `(mode & bit) ? letter : "-"`
abbrev pub permission : (mode bit letter : ℕ) → ℕ
permission mode bit letter = if has_bit mode bit then letter else 45

abbrev pub letters : (mode : ℕ) → List ℕ
letters mode =
    permission mode 256 114
    ∷ permission mode 128 119
    ∷ permission mode 64 120
    ∷ permission mode 32 114
    ∷ permission mode 16 119
    ∷ permission mode 8 120
    ∷ permission mode 4 114
    ∷ permission mode 2 119
    ∷ permission mode 1 120
    ∷ []

-- What is printed, where `stat` does not fail.
unfoldable pub get_stat : Option Stat → Option (List StatLine)
get_stat none = none
get_stat (some sb) = some (
    (number "file size" sb.st_size ∷ device sb.maj sb.min ∷ number "inode" sb.st_ino ∷ [])
    ++ (kind_of sb.st_mode
        ++ (permissions (letters sb.st_mode)
            ∷ number "hard link" sb.st_nlink
            ∷ number "uid" sb.st_uid
            ∷ number "gid" sb.st_gid
            ∷ number "block size" sb.st_blksize
            ∷ number "block count" sb.st_blocks
            ∷ number "access time" sb.st_atim
            ∷ number "modified time" sb.st_mtim
            ∷ number "correct time" sb.st_ctim
            ∷ [])))

abbrev pub s_iwoth : ℕ
s_iwoth = 2

abbrev pub s_iwusr : ℕ
s_iwusr = 128

-- The mode that `chmod` gets, where `stat` does not fail.
unfoldable pub chn_access : Option Stat → Option ℕ
chn_access none = none
chn_access (some sb) = some (clear_bit (set_bit sb.st_mode s_iwoth) s_iwusr)
