-- ===== src/FileEvent.antt =====
-- LinuxAPI/file_event.c: two files are watched, and the events of every `read` are shown under the
-- name of their file. The events are decoded as in Inotify.antt.
pub mod Batches
mod Tests
use linuxapi.Base.{
  ℕ, suc, ℤ, ◌==ℤ◌, String, Option, none, some, List, [], ◌∷◌, ◌++◌, length, drop, if◌then◌else◌,
}
use linuxapi.Posix.{
  Reply, result, payload, failed, Stop, err_exit, overrun, Sys, pure, halt, ◌>>=◌, ◌>>◌, call,
  call_or, emit,
}
use linuxapi.Posix.Loop.{Next, again, leave, repeat}
use linuxapi.Inotify.{
  Printed, InotifyEvent, Handler, watch_descriptor, file_name, as_int, events_in, event_names, walk,
}

pub data Call : Type 0 where
  chdir : (path : String) → Call
  inotify_init : Call
  inotify_add_watch : (fd : ℤ) (path : List ℕ) → Call
  read : (fd : ℤ) (size : ℕ) → Call
  print : List Printed → Call
  err_msg : String → Call
  inotify_rm_watch : (fd wd : ℤ) → Call
  close : (fd : ℤ) → Call

abbrev pub max_buffer : ℕ
max_buffer = 4096

-- file1 and file2
abbrev pub file1 : List ℕ
file1 = 102 ∷ 105 ∷ 108 ∷ 101 ∷ 49 ∷ []

abbrev pub file2 : List ℕ
file2 = 102 ∷ 105 ∷ 108 ∷ 101 ∷ 50 ∷ []

-- The entries of `fw`: watch descriptor and name.
abbrev pub Watches : Type 0
Watches = List (ℤ × List ℕ)

-- The loop over `fw`, which is left at the first entry with the descriptor.
unfoldable pub lines_for : Watches → (wd : ℤ) (mask : ℕ) → List Printed
lines_for [] wd mask = []
lines_for ((watchd, filename) ∷ fw) wd mask =
    if wd ==ℤ watchd then file_name filename ∷ events_in event_names mask else lines_for fw wd mask

unfoldable pub fevent_func : Watches → Handler
fevent_func fw e m = some (watch_descriptor (as_int e.wd) ∷ lines_for fw (as_int e.wd) e.mask)

unfoldable pub show_lines : Option (List Printed) → List ℕ → Sys Call (Next (List ℕ) (Unit {0}))
show_lines none buf = halt overrun
show_lines (some lines) buf = do emit (print lines); pure (again buf)

-- One round of `while(1)`; `stale` is what the buffer holds.
unfoldable pub event_round :
    (fw : Watches) (fd : ℤ) (stale : List ℕ) → Sys Call (Next (List ℕ) (Unit {0}))
event_round fw fd stale = do
  got ← call (read fd max_buffer)
  if failed got
      then (do emit (err_msg "read()"); pure (leave tt))
      else (show_lines
          (walk (fevent_func fw) (suc (length (payload got)))
            (payload got ++ drop (length (payload got)) stale) (length (payload got)) 0)
          (payload got ++ drop (length (payload got)) stale))

unfoldable pub file_event : (stale : List ℕ) → Sys Call (Unit {0})
file_event stale = do
  call_or (chdir "event") (err_exit "chdir()")
  fd ← call inotify_init
  wd1 ← call (inotify_add_watch (result fd) file1)
  wd2 ← call (inotify_add_watch (result fd) file2)
  repeat (event_round ((result wd1, file1) ∷ (result wd2, file2) ∷ []) (result fd)) stale
  call (inotify_rm_watch (result fd) (result wd1))
  call (inotify_rm_watch (result fd) (result wd2))
  call (close (result fd))
  pure tt
