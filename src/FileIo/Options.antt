-- ===== src/FileIo/Options.antt =====
-- `fileio_read_write` with each of its options.
use linuxapi.Base.{ℕ, ◌≡◌, ℤ, true, List, [], ◌∷◌, ◌++◌, take}
use linuxapi.Posix.{Reply, result, count, failed, ev, Trace, blocked, err_exit, Outcome, ret, stop}
use linuxapi.FileIo.{Call, Mode, Choice, open_file, write, close}
use linuxapi.FileIo.WholeFile.{bytes_read, FailedIn, WholePost}

-- The bytes that the writes have taken, in order.
abbrev pub bytes_written : Trace Call → List ℕ
bytes_written [] = []
bytes_written (ev (write fd d) r ∷ log) = bytes_written log ++ take (count r) d
bytes_written (ev _ r ∷ log) = bytes_written log

-- The last call is a `write` of all bytes that were read, or another one, which has failed.
abbrev pub BadEnd : Trace Call → Type 0
BadEnd [] = ⊥
BadEnd (ev (write fd d) r ∷ log) = bytes_read log ≡ bytes_written log ++ d
BadEnd (ev c r ∷ log) = failed r ≡ true

abbrev pub WritePost : Outcome Call (Unit {0}) → Type 0
WritePost (ret u rs log) = bytes_written log ≡ bytes_read log
WritePost (stop (blocked c) log) = Unit {0}
WritePost (stop (err_exit name) log) = BadEnd log
WritePost (stop e log) = ⊥

abbrev pub CreatePost : Outcome Call (Unit {0}) → Type 0
CreatePost (ret u rs log) =
    (fd : Reply) × (r : Reply) × (log
      ≡ ev (close (result fd)) r ∷ ev (open_file "test" Mode.create) fd ∷ [])
CreatePost (stop (blocked c) log) = Unit {0}
CreatePost (stop (err_exit name) log) = FailedIn name log
CreatePost (stop e log) = ⊥

-- With no option, `close` gets what `fd` happened to hold.
abbrev pub StalePost : ℤ → Outcome Call (Unit {0}) → Type 0
StalePost stale (ret u rs log) = (r : Reply) × (log ≡ ev (close stale) r ∷ [])
StalePost stale (stop (blocked c) log) = (c ≡ close stale) × (log ≡ [])
StalePost stale (stop (err_exit name) log) = FailedIn name log
StalePost stale (stop e log) = ⊥

abbrev pub OptionPost : ℤ → Choice → Outcome Call (Unit {0}) → Type 0
OptionPost stale Choice.c o = CreatePost o
OptionPost stale Choice.r o = WholePost o
OptionPost stale Choice.w o = WritePost o
OptionPost stale Choice.other o = StalePost stale o

abbrev FdPost : Outcome Call ℤ → Type 0
FdPost (ret fd rs log) = bytes_written log ≡ bytes_read log
FdPost (stop e log) = WritePost (stop e log)

abbrev CreatedPost : Outcome Call ℤ → Type 0
CreatedPost (ret n rs log) =
    (fd : Reply) × (n ≡ result fd) × (log ≡ ev (open_file "test" Mode.create) fd ∷ [])
CreatedPost (stop e log) = CreatePost (stop e log)
