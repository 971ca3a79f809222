-- ===== src/Multiplex.antt =====
-- Programs that wait for several descriptors, or with a timeout: alt_io_epoll of
-- LinuxAPI2/alt_io_sample.c, and the three samples of api3/fileio_select_poll.c. The lines printed when
-- a file is opened are left out.
pub mod Epoll
pub mod Waiting
mod Tests
use linuxapi.Base.{
  ℕ, zero, suc, ◌+◌, ◌-◌, ◌/◌, ◌%◌, ltb, ◌==◌, String, ℤ, pos, Bool, true, false, ◌||◌, Option,
  none, some, List, [], ◌∷◌, length, take, drop, has_bit, if◌then◌else◌,
}
use linuxapi.Posix.{
  Reply, fail, Errno, eintr, result, payload, count, failed, Stop, err_exit, overrun, Sys, pure,
  halt, ◌>>=◌, ◌>>◌, call, call_or, emit,
}
use linuxapi.FileIo.{text}
use linuxapi.Posix.Loop.{Next, again, leave, repeat}

pub data Call : Type 0 where
  epoll_create : (size : ℕ) → Call
  open_file : (path : String) → Call
  epoll_ctl_add : (epfd fd : ℤ) → Call
  epoll_wait : (epfd : ℤ) (maxevents : ℕ) → Call
  -- `select`, `pselect` or `poll` on one descriptor, with the timeout in milliseconds
  wait_readable : (name : String) (fd : ℤ) (timeout : ℕ) → Call
  read : (fd : ℤ) (size : ℕ) → Call
  close : (fd : ℤ) → Call
  print_ready : ℕ → Call
  print_event : (fd : ℤ) (readable hup err : Bool) → Call
  print_closing : (fd : ℤ) → Call
  print_elapsed : Call
  -- the number of bytes, and the text; `none` where the buffer still holds what it held before
  print_read : ℤ → Option (List ℕ) → Call

-- One entry of the list that `epoll_wait` fills, as a number: the mask above the descriptor.
abbrev pub event_fd : ℕ → ℤ
event_fd e = pos (e % 4294967296)

abbrev pub event_mask : ℕ → ℕ
event_mask e = e / 4294967296

abbrev pub epollin : ℕ
epollin = 1

abbrev pub epollerr : ℕ
epollerr = 8

abbrev pub epollhup : ℕ
epollhup = 16

abbrev pub max_buf : ℕ
max_buf = 1000

abbrev pub max_events : ℕ
max_events = 5

unfoldable pub is_interrupt : Reply → Bool
is_interrupt (fail eintr) = true
is_interrupt r = false

-- An entry that is neither readable nor ended is only shown.
unfoldable pub close_ended : (numopendfds e : ℕ) → (ended : Bool) → Sys Call ℕ
close_ended numopendfds e false = pure numopendfds
close_ended numopendfds e true = do
  emit (print_closing (event_fd e))
  call_or (close (event_fd e)) (err_exit "close()")
  pure (numopendfds - 1)

-- One round of the inner loop; `readable` and `ended` are the tests of the mask.
-- `%.*s` prints up to a NUL too, and with a negative count as `%s`.
unfoldable pub serve : (numopendfds e : ℕ) → (readable : Bool) → Sys Call ℕ
serve numopendfds e true = do
  got ← call (read (event_fd e) max_buf)
  emit (print_read (result got) (if failed got then none else some (text (payload got))))
  pure numopendfds
serve numopendfds e false =
    close_ended numopendfds e (has_bit (event_mask e) epollhup || has_bit (event_mask e) epollerr)

-- `numopendfds` stops at 0 here; the program only tests whether it is positive.
unfoldable pub serve_all : (numopendfds : ℕ) → (evlist : List ℕ) → Sys Call ℕ
serve_all numopendfds [] = pure numopendfds
serve_all numopendfds (e ∷ es) = do
  emit (
      print_event (event_fd e) (has_bit (event_mask e) epollin) (has_bit (event_mask e) epollhup)
        (has_bit (event_mask e) epollerr))
  left ← serve numopendfds e (has_bit (event_mask e) epollin)
  serve_all left es

unfoldable pub served : Reply → (numopendfds : ℕ) → Sys Call (Next ℕ (Unit {0}))
served ready numopendfds =
    if failed ready
    then (if is_interrupt ready then pure (again numopendfds) else halt (err_exit "epoll_wait()"))
    else (do
      emit (print_ready (count ready))
      left ← serve_all numopendfds (payload ready)
      pure (again left))

unfoldable pub epoll_round : (epfd : ℤ) → (numopendfds : ℕ) → Sys Call (Next ℕ (Unit {0}))
epoll_round epfd zero = pure (leave tt)
epoll_round epfd (suc n) = do ready ← call (epoll_wait epfd max_events); served ready (suc n)

unfoldable pub watch_file : (epfd : ℤ) (path : String) → Sys Call (Unit {0})
watch_file epfd path = do
  fd ← call_or (open_file path) (err_exit "open()")
  call_or (epoll_ctl_add epfd (result fd)) (err_exit "epoll_ctl()")
  pure tt

unfoldable pub alt_io_epoll : Sys Call (Unit {0})
alt_io_epoll = do
  epfd ← call (epoll_create 2)
  watch_file (result epfd) "test1"
  watch_file (result epfd) "test2"
  repeat (epoll_round (result epfd)) 2

-- fileio.h
abbrev pub buf_size : ℕ
buf_size = 1000

-- `FD_ISSET(fd, &readfds)`, `fds.revents & POLLIN`: the answer holds the bits of the one descriptor
-- where it is ready, and nothing on a timeout.
unfoldable pub is_readable : List ℕ → Bool
is_readable [] = false
is_readable (bits ∷ more) = has_bit bits 1

-- `%s` prints up to the first NUL; `buf[numread] = '\0'` is outside the buffer if the read has filled it.
unfoldable pub show_read : Reply → Sys Call (Next (Unit {0}) (Unit {0}))
show_read got =
    if count got == 0
    then pure (again tt)
    else (if ltb (count got) buf_size
        then (do emit (print_read (result got) (some (text (payload got)))); pure (again tt))
        else halt overrun)

unfoldable pub wait_round :
    (name : String) (fd : ℤ) → Unit {0} → Sys Call (Next (Unit {0}) (Unit {0}))
wait_round name fd _ = do
  ready ← call_or (wait_readable name fd 5000) (err_exit "select")
  if count ready == 0
      then (do emit print_elapsed; pure (leave tt))
      else (if is_readable (payload ready)
          then (do got ← call_or (read fd buf_size) (err_exit "read"); show_read got)
          else pure (again tt))

-- The three samples differ in the call that waits.
unfoldable pub wait_sample : (name : String) → Sys Call (Unit {0})
wait_sample name = do
  fd ← call_or (open_file "test") (err_exit "open()")
  repeat (wait_round name (result fd)) tt

unfoldable pub select_sample : Sys Call (Unit {0})
select_sample = wait_sample "select"

unfoldable pub pselect_sample : Sys Call (Unit {0})
pselect_sample = wait_sample "pselect"

unfoldable pub poll_sample : Sys Call (Unit {0})
poll_sample = wait_sample "poll"
