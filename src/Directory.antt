-- ===== src/Directory.antt =====
-- LinuxAPI/directory_link.c: links, a directory that is made, listed and walked through, and the parts
-- of a path. `readdir` answers with the inode number and the name of an entry; what `nftw` visits is an
-- argument of the program.
pub mod Listing
mod Tests
use linuxapi.Base.{
  ℕ, zero, suc, ◌/◌, ◌%◌, ◌==◌, ◌&&◌, ◌||◌, Bool, true, false, String, List, [], ◌∷◌, ◌-◌, take,
  drop, if◌then◌else◌,
}
use mathlib.Core.Bool.{not}
use linuxapi.Posix.{
  Reply, sender, payload, failed, err_exit, overrun, Sys, pure, halt, ◌>>=◌, ◌>>◌, call, call_or,
  guard, emit,
}
use linuxapi.Posix.Loop.{Next, again, leave, repeat}

-- What `dirfunc` prints.
pub data Line : Type 0 where
  labelled : String → Line
  numbered : ℕ → Line
  named : List ℕ → Line

pub data Call : Type 0 where
  open_create link unlink rename symlink readlink realpath getcwd mkdir system : Call
  opendir readdir closedir nftw open_directory : Call
  openat : String → Call
  err_msg : String → Call
  print_path print_cwd print_dirname print_basename : List ℕ → Call
  print_entry : (inode : ℕ) → List ℕ → Call
  print_line : Line → Call
  strdup free_cwd free_path free_name : Call

-- What `nftw` hands to `dirfunc`; `base` is the offset of the name in the path.
pub record Visit : Type 0 where
  pub pathname : List ℕ
  pub base : ℕ
  pub st_mode : ℕ
  pub st_ino : ℕ

-- `switch(sbuf->st_mode & S_IFMT)`
unfoldable pub type_label : (st_mode : ℕ) → String
type_label st_mode =
    let t = (st_mode / 4096) % 16 in
    if t == 8
    then "file: "
    else if t == 4
    then "directory: "
    else if t == 2
    then "chracter device: "
    else if t == 6
    then "block device: "
    else if t == 10
    then "symbolic link: "
    else "---"

unfoldable pub dirfunc : Visit → Sys Call (Unit {0})
dirfunc v = do
  emit (print_line (labelled (type_label v.st_mode)))
  emit (print_line (numbered v.st_ino))
  emit (print_line (named (drop v.base v.pathname)))

unfoldable pub dirfuncs : List Visit → Sys Call (Unit {0})
dirfuncs [] = pure tt
dirfuncs (v ∷ vs) = do dirfunc v; dirfuncs vs

-- `if(c == -1) errMsg(msg)`
unfoldable pub attempt : Call → String → Sys Call Reply
attempt c msg = do r ← call c; if failed r then emit (err_msg msg) else pure tt; pure r

-- "." and ".."
unfoldable pub is_dots : List ℕ → Bool
is_dots (a ∷ []) = a == 46
is_dots (a ∷ b ∷ []) = a == 46 && b == 46
is_dots s = false

unfoldable pub read_entry : Unit {0} → Sys Call (Next (Unit {0}) (Unit {0}))
read_entry _ = do
  dir_entry ← call readdir
  if failed dir_entry
      then pure (leave tt)
      else (if is_dots (payload dir_entry)
          then pure (again tt)
          else (do emit (print_entry (sender dir_entry) (payload dir_entry)); pure (again tt)))

-- `basename`: the offset of what follows the last slash, in the array that it is given; `dirname`: what
-- stands before that slash.
unfoldable pub has_slash : List ℕ → Bool
has_slash [] = false
has_slash (c ∷ s) = c == 47 || has_slash s

unfoldable pub base_offset : List ℕ → ℕ
base_offset [] = 0
base_offset (c ∷ s) = if has_slash s then suc (base_offset s) else if c == 47 then 1 else 0

unfoldable pub dir_part : List ℕ → List ℕ
dir_part s = if base_offset s == 0 then 46 ∷ [] else take (base_offset s - 1) s

-- The path and the name of `fullpath`. Where there is no memory for a copy, both are ".", which is no
-- block; and `name` points into its block, which `free` must not be given.
unfoldable pub path_parts : (fullpath : List ℕ) → Sys Call (Unit {0})
path_parts fullpath = do
  path ← call strdup
  copy ← call strdup
  emit (print_dirname (if failed path then 46 ∷ [] else dir_part fullpath))
  emit (print_basename (if failed copy then 46 ∷ [] else drop (base_offset fullpath) fullpath))
  guard (failed path) overrun
  emit free_path
  guard (failed copy || not (base_offset fullpath == 0)) overrun
  emit free_name

-- "/usr/include/glib-2.0/glib.h"
abbrev pub full_path : List ℕ
full_path =
    47 ∷ 117 ∷ 115 ∷ 114 ∷ 47 ∷ 105 ∷ 110 ∷ 99 ∷ 108 ∷ 117 ∷ 100 ∷ 101 ∷ 47 ∷ 103 ∷ 108 ∷ 105 ∷ 98
    ∷ 45 ∷ 50 ∷ 46 ∷ 48 ∷ 47 ∷ 103 ∷ 108 ∷ 105 ∷ 98 ∷ 46 ∷ 104 ∷ []

-- Behind `opendir`. `nftw` calls `dirfunc` for what it visits, and answers then.
unfoldable pub use_directory : List Visit → Sys Call (Unit {0})
use_directory visited = do
  repeat read_entry tt
  attempt closedir "closedir()"
  dirfuncs visited
  attempt nftw "nftw()"
  call_or open_directory (err_exit "open()")
  call_or (openat "file1") (err_exit "openat()")
  call_or (openat "file4") (err_exit "openat()")
  path_parts full_path

unfoldable pub make_and_use : List Visit → Sys Call (Unit {0})
make_and_use visited = do
  attempt mkdir "mkdir()"
  call system
  dir_stream ← attempt opendir "opendir()"
  if failed dir_stream then pure tt else use_directory visited

-- `stale` is what `buf` holds where `realpath` has failed; a NULL text is read by `printf`.
unfoldable pub directory_link : (stale : List ℕ) → List Visit → Sys Call (Unit {0})
directory_link stale visited = do
  call_or open_create (err_exit "open()")
  attempt link "link()"
  attempt unlink "unlink()"
  attempt rename "rename()"
  attempt symlink "symlink()"
  attempt readlink "readlink()"
  path ← attempt realpath "readpath()"
  emit (print_path (if failed path then stale else payload path))
  currentdir ← attempt getcwd "getcwd()"
  guard (failed currentdir) overrun
  emit (print_cwd (payload currentdir))
  emit free_cwd
  make_and_use visited
