-- ===== src/Inotify.antt =====
-- api3/file_directory.c, event_func and inotify_example: the events of inotify, decoded from the
-- bytes that `read` puts into the buffer. An event is a header of four 32-bit numbers and `len`
-- bytes of a name, and the next one stands behind it.
pub mod Format
pub mod Report
pub mod Failure
mod Tests
use linuxapi.Base.{
  ℕ, zero, suc, ◌+◌, ◌-◌, ltb, ◌==◌, String, ℤ, pos, negsuc, Bool, true, false, Option, none, some,
  List, [], ◌∷◌, ◌++◌, length, drop, has_bit, word_at, if◌then◌else◌,
}
use linuxapi.Posix.{
  Reply, result, payload, Stop, err_exit, overrun, Sys, pure, halt, ◌>>=◌, ◌>>◌, call, call_or,
  emit,
}

-- The output, in the pieces that `printf` writes.
pub data Printed : Type 0 where
  watch_descriptor mask_value : ℤ → Printed
  dir : ℕ → Printed
  file_name : List ℕ → Printed
  event : String → Printed

-- `%d` of a 32-bit number without sign
abbrev pub as_int : ℕ → ℤ
as_int w = if ltb w 2147483648 then pos w else negsuc (4294967295 - w)

pub record InotifyEvent : Type 0 where
  pub wd : ℕ
  pub mask : ℕ
  pub cookie : ℕ
  pub len : ℕ

abbrev pub sizeof_inotify_event : ℕ
sizeof_inotify_event = 16

-- No value where a read leaves the buffer.
abbrev pub if_some : {A B : Type 0} → Option A → (A → Option B) → Option B
if_some none f = none
if_some (some a) f = f a

-- The header at a place of memory.
unfoldable pub event_at : List ℕ → Option InotifyEvent
event_at m = if_some (word_at m) λ wd. if_some (word_at (drop 4 m)) λ mask.
    if_some (word_at (drop 8 m)) λ cookie.
      if_some (word_at (drop 12 m))
        λ len. some (record { wd = wd; mask = mask; cookie = cookie; len = len })

-- `%s`: the bytes up to the NUL.
unfoldable pub c_string : List ℕ → Option (List ℕ)
c_string [] = none
c_string (zero ∷ m) = some []
c_string (suc c ∷ m) = if_some (c_string m) λ s. some (suc c ∷ s)

abbrev pub in_isdir : ℕ
in_isdir = 1073741824

-- The tests of the mask, in their order, with what <sys/inotify.h> gives for the names.
abbrev pub event_names : List (String × ℕ)
event_names =
    ("IN_ACCESS", 1)
    ∷ ("IN_ATTRIB", 4)
    ∷ ("IN_CLOSE_NOWRITE", 16)
    ∷ ("IN_CLOSE_WRITE", 8)
    ∷ ("IN_CREATE", 256)
    ∷ ("IN_DELETE", 512)
    ∷ ("IN_DELETE_SELF", 1024)
    ∷ ("IN_IGNORED", 32768)
    ∷ ("IN_ISDIR", 1073741824)
    ∷ ("IN_MODIFY", 2)
    ∷ ("IN_MOVE_SELF", 2048)
    ∷ ("IN_MOVED_FROM", 64)
    ∷ ("IN_MOVED_TO", 128)
    ∷ ("IN_OPEN", 32)
    ∷ ("IN_Q_OVERFLOW", 16384)
    ∷ ("IN_UNMOUNT", 8192)
    ∷ []

unfoldable pub events_in : List (String × ℕ) → (mask : ℕ) → List Printed
events_in [] mask = []
events_in ((name, bit) ∷ rest) mask =
    if has_bit mask bit then event name ∷ events_in rest mask else events_in rest mask

-- `printf("file name = %s\n", event->name)` where there is a name; `m` is the memory at the event.
unfoldable pub name_lines : (len : ℕ) (m : List ℕ) → Option (List Printed)
name_lines zero m = some []
name_lines (suc n) m = if_some (c_string (drop 16 m)) λ s. some (file_name s ∷ [])

unfoldable pub event_func : InotifyEvent → (m : List ℕ) → Option (List Printed)
event_func e m = if_some (name_lines e.len m) λ name. some (
    watch_descriptor (as_int e.wd)
    ∷ mask_value (as_int e.mask)
    ∷ dir (if has_bit e.mask in_isdir then in_isdir else 0)
    ∷ (name ++ events_in event_names e.mask))

-- What a program prints of an event.
abbrev pub Handler : Type 0
Handler = InotifyEvent → (m : List ℕ) → Option (List Printed)

-- `while(i < len)`, on fuel.
unfoldable pub walk : Handler → ℕ → (buf : List ℕ) (len i : ℕ) → Option (List Printed)
walk handle zero buf len i = none
walk handle (suc fuel) buf len i = elim (ltb i len) [
  | false ↦ some []
  | true ↦ if_some (event_at (drop i buf)) λ e. if_some (handle e (drop i buf)) λ lines.
      if_some (walk handle fuel buf len (i + (sizeof_inotify_event + e.len)))
        λ more. some (lines ++ more)
]

pub data Call : Type 0 where
  inotify_init1 : (flags : ℕ) → Call
  inotify_add_watch : (fd : ℤ) (path : List ℕ) → Call
  read : (fd : ℤ) (size : ℕ) → Call
  print : List Printed → Call
  inotify_rm_watch : (fd wd : ℤ) → Call
  close : (fd : ℤ) → Call

abbrev pub bufsiz : ℕ
bufsiz = 8192

unfoldable pub show_events : Option (List Printed) → Sys Call (Unit {0})
show_events none = halt overrun
show_events (some lines) = emit (print lines)

-- `stale` is what the buffer holds before `read`.
unfoldable pub inotify_example : (path stale : List ℕ) → Sys Call (Unit {0})
inotify_example path stale = do
  fd ← call_or (inotify_init1 0) (err_exit "inotify_init1")
  wd ← call_or (inotify_add_watch (result fd) path) (err_exit "inotify_add_watch")
  got ← call_or (read (result fd) bufsiz) (err_exit "read")
  let buf = payload got ++ drop (length (payload got)) stale
  show_events (walk event_func (suc (length (payload got))) buf (length (payload got)) 0)
  call_or (inotify_rm_watch (result fd) (result wd)) (err_exit "inotify_rm_watch")
  call (close (result fd))
  pure tt
