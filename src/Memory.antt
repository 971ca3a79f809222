-- ===== src/Memory.antt =====
-- api3/mem_alloc.c: blocks from the heap and from the kernel, and paths built on the stack. What the
-- allocator answers is a list, as for the kernel; a pointer that is NULL is a failed answer.
pub mod Owned
pub mod Paths
mod Tests
use linuxapi.Base.{
  ℕ, zero, suc, ◌+◌, ltb, ◌==◌, ℤ, Bool, true, false, List, [], ◌∷◌, ◌++◌, length, String,
}
use mathlib.Core.Bool.{not}
use linuxapi.Posix.{
  Reply, result, payload, failed, Stop, err_exit, overrun, Sys, pure, halt, ◌>>=◌, ◌>>◌, call,
  call_or, guard, emit,
}

pub data Call : Type 0 where
  calloc malloc_stats mallinfo mallopt getpagesize : Call
  -- the block that is resized, and the new size
  realloc : ℤ → ℕ → Call
  -- with a NULL block
  realloc_null : ℕ → Call
  posix_memalign : ℤ → ℕ → Call
  free : ℤ → Call
  mmap : ℕ → Call
  munmap : ℤ → ℕ → Call
  alloca : ℕ → Call
  strdupa strdup : List ℕ → Call
  open_file : List ℕ → Call
  print_pointer : String → ℤ → Call
  print_minfo : (field : String) → List ℕ → Call
  print_fd : ℤ → Call
  print_text : String → ℤ → List ℕ → Call

-- The three parts of mem_alloc.
unfoldable pub zeroed_block : Sys Call (Unit {0})
zeroed_block = do
  x ← call_or calloc (err_exit "calloc")
  emit (print_pointer "allocated" (result x))
  emit (free (result x))

unfoldable pub resize_block : Sys Call (Unit {0})
resize_block = do
  y ← call_or (realloc_null 20) (err_exit "calloc")
  emit (print_pointer "allocated" (result y))
  re_y ← call_or (realloc (result y) 196608) (err_exit "calloc")
  emit (print_pointer "re-allocated" (result re_y))
  emit (free (result re_y))

unfoldable pub align_block : Sys Call (Unit {0})
align_block = do
  page ← call getpagesize
  buf ← call_or (posix_memalign (result page) 1024) (err_exit "posix_memalign")
  emit (print_pointer "aligned allocated" (result buf))
  emit (free (result buf))

unfoldable pub mem_alloc : Sys Call (Unit {0})
mem_alloc = do zeroed_block; resize_block; align_block

unfoldable pub mem_anonymous_mmap : Sys Call (Unit {0})
mem_anonymous_mmap = do
  p ← call_or (mmap 8192) (err_exit "mmap")
  emit (print_pointer "allocated anonymous memory map" (result p))
  call_or (munmap (result p) 8192) (err_exit "munmap")
  pure tt

unfoldable pub mem_alloc_control : Sys Call (Unit {0})
mem_alloc_control = do
  call_or mallopt (err_exit "mallopt")
  y ← call_or calloc (err_exit "calloc")
  emit (print_pointer "allocated" (result y))
  minfo ← call mallinfo
  emit (print_minfo "arena" (payload minfo))
  emit (print_minfo "hblks" (payload minfo))
  emit (print_minfo "hblkhd" (payload minfo))
  emit malloc_stats
  emit (free (result y))

-- `strcpy` and `strcat` into a buffer of `size` bytes: a text takes one byte more than it has.
unfoldable pub strcpy : (size : ℕ) (s : List ℕ) → Sys Call (List ℕ)
strcpy size s = do guard (not (ltb (length s) size)) overrun; pure s

unfoldable pub strcat : (size : ℕ) (s t : List ℕ) → Sys Call (List ℕ)
strcat size s t = do guard (not (ltb (length s + length t) size)) overrun; pure (s ++ t)

-- "/etc/"
abbrev pub etc : List ℕ
etc = 47 ∷ 101 ∷ 116 ∷ 99 ∷ 47 ∷ []

-- The size of `name`, and what the two copies put into it.
abbrev pub name_size : (argv1 : List ℕ) → ℕ
name_size argv1 = length etc + length argv1 + 1

unfoldable pub etc_path : (argv1 : List ℕ) → Sys Call (List ℕ)
etc_path argv1 = do name ← strcpy (name_size argv1) etc; strcat (name_size argv1) name argv1

-- `printf` of a text that is NULL reads where nothing is.
unfoldable pub mem_alloca : (argv1 test : List ℕ) → Sys Call (Unit {0})
mem_alloca argv1 test = do
  call_or (alloca (name_size argv1)) (err_exit "alloca")
  name ← etc_path argv1
  fd ← call_or (open_file name) (err_exit "open")
  emit (print_fd (result fd))
  str_s ← call (strdupa test)
  str_h ← call (strdup test)
  guard (failed str_s) overrun
  emit (print_text "stack" (result str_s) test)
  guard (failed str_h) overrun
  emit (print_text "heap" (result str_h) test)
  emit (free (result str_h))

unfoldable pub mem_variable_len_array : (argv1 : List ℕ) → Sys Call (Unit {0})
mem_variable_len_array argv1 = do
  name ← etc_path argv1
  fd ← call_or (open_file name) (err_exit "open")
  emit (print_fd (result fd))
