-- ===== src/Vector.antt =====
-- file_scatter_gather of LinuxAPI/file_io.c and api3/fileio_readv_writev.c: bytes that are read into
-- several buffers, and written from several. `readv` fills a buffer before it goes on to the next.
pub mod Scatter
pub mod Lines
mod Tests
use linuxapi.Base.{
  ℕ, zero, suc, ◌+◌, ltb, ℤ, pos, minus_one, Bool, true, false, List, [], ◌∷◌, ◌++◌, length, take,
  drop, if◌then◌else◌, String,
}
use linuxapi.Posix.{
  Reply, fail, payload, result, count, failed, err_exit, Sys, pure, ◌>>=◌, ◌>>◌, call, call_or,
  emit,
}
use linuxapi.FileIo.{text}

pub data Call : Type 0 where
  open_read open_write : Call
  readv : (fd : ℤ) (sizes : List ℕ) → Call
  writev : (fd : ℤ) → List (List ℕ) → Call
  close : (fd : ℤ) → Call
  print_short print_short_write : Call
  print_written : (bytes : ℤ) → Call
  print : List ℕ → Call

abbrev pub sizes : List (List ℕ) → List ℕ
sizes [] = []
sizes (b ∷ bs) = length b ∷ sizes bs

-- What buffers hold after `readv`, if they held `b ∷ bs` and `d` has been read.
unfoldable pub scatter : List (List ℕ) → (d : List ℕ) → List (List ℕ)
scatter [] d = []
scatter (b ∷ bs) d = (take (length b) d ++ drop (length d) b) ∷ scatter bs (drop (length b) d)

-- `num < total_required`, where -1 is less
unfoldable pub is_short : Reply → (total : ℕ) → Bool
is_short (fail e) total = true
is_short r total = ltb (count r) total

-- `str1`, `str2` and `str3`, and 10, 5 and 3 bytes of them.
abbrev pub total_required : ℕ
total_required = 18

-- The part that writes, with what the buffers hold.
unfoldable pub write_strs : (strs : List (List ℕ)) → Sys Call ℕ
write_strs strs = do
  write_fd ← call_or open_write (err_exit "open(): write")
  num_write ← call (writev (result write_fd) strs)
  if is_short num_write total_required then emit print_short_write else pure tt
  pure 0

unfoldable pub file_scatter_gather : (strs : List (List ℕ)) → Sys Call ℕ
file_scatter_gather strs = do
  read_fd ← call_or open_read (err_exit "open(): read")
  num_read ← call_or (readv (result read_fd) (sizes strs)) (err_exit "num_read()")
  if is_short num_read total_required then emit print_short else pure tt
  write_strs (scatter strs (payload num_read))

-- With the closing NUL, which is written too.
abbrev pub with_nul : List (List ℕ) → List (List ℕ)
with_nul [] = []
with_nul (s ∷ ss) = (s ++ (0 ∷ [])) ∷ with_nul ss

unfoldable pub print_each : List (List ℕ) → Sys Call (Unit {0})
print_each [] = pure tt
print_each (b ∷ bs) = do emit (print (text b)); print_each bs

-- `buf` are the three lines, and `readbuf` the first bytes of the three arrays, as many as are asked for.
unfoldable pub fileio_readv_writev : (buf readbuf : List (List ℕ)) → Sys Call (Unit {0})
fileio_readv_writev buf readbuf = do
  fd ← call_or open_write (err_exit "open")
  numwrite ← call_or (writev (result fd) (with_nul buf)) (err_exit "writev")
  emit (print_written (result numwrite))
  call_or (close (result fd)) (err_exit "close")
  fd' ← call_or open_read (err_exit "open")
  numread ← call_or (readv (result fd') (sizes (with_nul buf))) (err_exit "writev")
  print_each (scatter readbuf (payload numread))
  call_or (close (result fd')) (err_exit "close")
  pure tt
