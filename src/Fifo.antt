-- ===== src/Fifo.antt =====
-- LinuxAPI2/ipc_fifo_server.c and LinuxAPI2/ipc_fifo/ipc_fifo_client.c: a server that prints the
-- requests which its clients write to a FIFO. A `struct request` has 108 bytes.
pub mod Requests
pub mod Greetings
mod Tests
use linuxapi.Base.{
  ℕ, ℤ, pos, ◌==ℤ◌, Bool, true, false, ◌&&◌, Option, none, some, List, [], ◌∷◌, ◌++◌, drop,
  bytes_of_word, word_at, if◌then◌else◌,
}
use mathlib.Core.Bool.{not}
use linuxapi.Posix.{
  Reply, fail, eexist, result, payload, count, failed, err_exit, overrun, Sys, pure, halt, guard,
  ◌>>=◌, ◌>>◌, call, call_or, emit,
}
use linuxapi.Posix.Loop.{Next, again, repeat}
use linuxapi.Inotify.{as_int, c_string, if_some}

-- What the server prints: of a request, or that there was none
pub data Line : Type 0 where
  request : (pid : ℤ) (msg : List ℕ) → Line
  error_reading : Line

-- The calls on `SERVER_FIFO`
pub data Call : Type 0 where
  mkfifo open_read open_write getpid : Call
  read : (fd : ℤ) (size : ℕ) → Call
  write : (fd : ℤ) (bytes : List ℕ) → Call
  print : Line → Call
  print_sent : Call

abbrev pub sizeof_request : ℕ
sizeof_request = 108

-- A request as its bytes, with the length 5, and with what stands behind the text in `msg`
unfoldable pub request_bytes : (pid : ℕ) (behind : List ℕ) → List ℕ
request_bytes pid behind =
    bytes_of_word pid
    ++ bytes_of_word 5
    ++ (72 ∷ 101 ∷ 108 ∷ 108 ∷ 111 ∷ 33 ∷ 32 ∷ 83 ∷ 101 ∷ 114 ∷ 118 ∷ 101 ∷ 114 ∷ 33 ∷ 0 ∷ behind)

-- What `printf` makes of the bytes; `none` where `msg` has no NUL.
unfoldable pub request_line : List ℕ → Option Line
request_line bytes =
    if_some (word_at bytes)
      λ pid. if_some (c_string (drop 8 bytes)) λ msg. some (request (as_int pid) msg)

unfoldable pub print_line : Option Line → Sys Call (Next (Unit {0}) (Unit {0}))
print_line none = halt overrun
print_line (some l) = do emit (print l); pure (again tt)

unfoldable pub serve_round : (fd : ℤ) → Unit {0} → Sys Call (Next (Unit {0}) (Unit {0}))
serve_round fd _ = do
  r ← call (read fd sizeof_request)
  if result r ==ℤ pos sizeof_request
      then print_line (request_line (payload r))
      else print_line (some error_reading)

-- `errno != EEXIST`
abbrev pub there_already : Reply → Bool
there_already (fail eexist) = true
there_already r = false

unfoldable pub ipc_fifo_server : Sys Call (Unit {0})
ipc_fifo_server = do
  m ← call mkfifo
  guard (failed m && not (there_already m)) (err_exit "server-mkfifo()")
  fd ← call_or open_read (err_exit "server-open()")
  call_or open_write (err_exit "server-open()")
  repeat (serve_round (result fd)) tt

-- `behind` is what `req.msg` holds behind its text.
unfoldable pub ipc_fifo_client : (behind : List ℕ) → Sys Call (Unit {0})
ipc_fifo_client behind = do
  fd ← call_or open_write (err_exit "client-open()")
  pid ← call getpid
  w ← call (write (result fd) (request_bytes (count pid) behind))
  guard (not (result w ==ℤ pos sizeof_request)) (err_exit "client-write")
  emit print_sent
  pure tt
