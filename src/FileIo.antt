-- ===== src/FileIo.antt =====
-- api3/fileio_read_write.c, and fileio_stdio_read of api3/fileio_stdio.c: a file is created, read to
-- the end or written, and the first line of a file is read character by character.
pub mod WholeFile
pub mod FirstLine
pub mod Options
mod Tests
use linuxapi.Base.{
  ℕ, zero, suc, ◌+◌, ◌-◌, ◌==◌, String, ℤ, minus_one, pos, ◌==ℤ◌, is_positive, Bool, true, false,
  List, [], ◌∷◌, ◌++◌, length, take, if◌then◌else◌,
}
use linuxapi.Posix.{
  Reply, fail, Errno, eintr, result, payload, count, failed, Stop, err_exit, overrun, Sys, pure,
  halt, ◌>>=◌, ◌>>◌, call, call_or, guard, emit,
}
use linuxapi.Posix.Loop.{Next, again, leave, repeat}

abbrev pub buf_size : ℕ
buf_size = 1000

pub data Mode : Type 0 where
  create read_only write_only : Mode

pub data Call : Type 0 where
  open_file : (path : String) → Mode → Call
  posix_fadvise : (fd : ℤ) → Call
  read : (fd : ℤ) (size : ℕ) → Call
  write : (fd : ℤ) (bytes : List ℕ) → Call
  lseek fdatasync close : (fd : ℤ) → Call
  fopen : (path mode : String) → Call
  fgetc fclose : Call
  print : List ℕ → Call

-- `%s`: the bytes before the first NUL, or all of them where the NUL stands behind.
abbrev pub text : List ℕ → List ℕ
text [] = []
text (zero ∷ s) = []
text (suc c ∷ s) = suc c ∷ text s

unfoldable pub is_interrupt : Reply → Bool
is_interrupt (fail eintr) = true
is_interrupt r = false

-- One round of the loop that reads the whole file, with `len` and the bytes before `idx`.
unfoldable pub read_round : (fd : ℤ) → ℕ × List ℕ → Sys Call (Next (ℕ × List ℕ) (ℕ × List ℕ))
read_round fd (zero, stored) = pure (leave (zero, stored))
read_round fd (suc len, stored) = do
  r ← call (read fd (suc len))
  if failed r
      then (if is_interrupt r then pure (again (suc len, stored)) else halt (err_exit "read"))
      else (if count r == 0
          then pure (leave (suc len, stored))
          else pure (again (suc len - count r, stored ++ payload r)))

-- `*idx = '\0'; printf("%s\n", buf)`: with `len` 0, `idx` is behind the buffer.
unfoldable pub end_and_print : ℕ × List ℕ → Sys Call (Unit {0})
end_and_print (zero, stored) = halt overrun
end_and_print (suc len, stored) = emit (print (text stored))

unfoldable pub read_file : Sys Call ℤ
read_file = do
  fd ← call_or (open_file "test" Mode.read_only) (err_exit "open")
  call_or (posix_fadvise (result fd)) (err_exit "posix_fadvise")
  end ← repeat (read_round (result fd)) (buf_size, [])
  end_and_print end
  pure (result fd)

unfoldable pub write_input : (fd : ℤ) (got : Reply) → Sys Call (Unit {0})
write_input fd got =
    if is_positive (result got)
    then (do
      call_or (lseek fd) (err_exit "lseek")
      w ← call (write fd (payload got))
      if result w ==ℤ result got then pure tt else halt (err_exit "write"))
    else pure tt

unfoldable pub write_file : Sys Call ℤ
write_file = do
  fd ← call (open_file "test" Mode.write_only)
  got ← call (read (pos 0) buf_size)
  write_input (result fd) got
  call_or (fdatasync (result fd)) (err_exit "fdatasync")
  pure (result fd)

unfoldable pub create_file : Sys Call ℤ
create_file = do fd ← call_or (open_file "test" Mode.create) (err_exit "open"); pure (result fd)

-- What `getopt` has found.
pub data Choice : Type 0 where
  c r w other : Choice

-- `stale` is what `fd` holds where no case sets it.
unfoldable pub fileio_read_write : (stale : ℤ) → Choice → Sys Call (Unit {0})
fileio_read_write stale choice = do
  fd ← elim choice [
    | Choice.c ↦ create_file
    | Choice.r ↦ read_file
    | Choice.w ↦ write_file
    | Choice.other ↦ pure stale
  ]
  call_or (close fd) (err_exit "close")
  pure tt

abbrev pub delimiter : ℕ
delimiter = 10

-- The loop over `fgetc`, with the calls that `need` still allows, the bytes before `idx`, and `ch`.
unfoldable pub read_chars : (left : ℕ) → (stored : List ℕ) (ch : ℤ) → Sys Call (List ℕ × ℤ)
read_chars zero stored ch = pure (stored, ch)
read_chars (suc left) stored ch = do
  got ← call fgetc
  elim (failed got) [
    | true ↦ pure (stored, minus_one)
    | false ↦ elim (count got == delimiter) [
      | true ↦ pure (stored ++ (count got ∷ []), pos (count got))
      | false ↦ read_chars left (stored ++ (count got ∷ [])) (pos (count got))
    ]
  ]

-- `if(ch == delimiter) *(--idx) = '\0'; else *idx = '\0';`
unfoldable pub terminated : List ℕ × ℤ → List ℕ
terminated (stored, ch) = if ch ==ℤ pos delimiter then take (length stored - 1) stored else stored

abbrev pub need : ℕ
need = 10

unfoldable pub fileio_stdio_read : Sys Call (Unit {0})
fileio_stdio_read = do
  call_or (fopen "test" "r") (err_exit "fdopen")
  line ← read_chars (need - 1) [] minus_one
  emit (print (text (terminated line)))
  call_or fclose (err_exit "fclose")
  pure tt
