-- ===== src/Daemon/Tests.antt =====
-- Runs of the daemon.
use linuxapi.Base.{some, none, true, pos, ◌≡◌, refl, List, [], ◌∷◌, ◌++◌}
use linuxapi.Posix.{Reply, val, ev, Trace, call, call_or, guard, trace_of}
use linuxapi.Daemon.{Call, open_file, write_text, become_daemon}
use linuxapi.Daemon.Detached.{DaemonPost, daemon_detached}
use linuxapi.Posix.Loop.{repeat}
use linuxapi.Daemon.Log.{
  log_file, message_text, message_bytes, Variables, sleep_time, daemon_round, reopen_log, log_open,
  log_close, log_message,
}
use linuxapi.Daemon.Log.Periods.{messages}
use linuxapi.Daemon.Table.{Table, inherited, CoursePost, make_daemon, daemon_files}

-- No files are closed (`BD_NO_CLOSE_FILES`).
abbrev answers : List Reply
answers = val 0 ∷ val 9 ∷ val 0 ∷ val 18 ∷ val 0 ∷ val 0 ∷ val 0 ∷ val 1 ∷ val 2 ∷ []

daemon_detached_example : DaemonPost (become_daemon 2 answers [])
daemon_detached_example = daemon_detached 2 answers

-- A count of two digits is logged whole, one of three digits is cut.
two_digits_run : message_bytes 42 ≡ message_text 42
two_digits_run = refl

three_digits_run : message_bytes 123 ++ 51 ∷ [] ≡ message_text 123
three_digits_run = refl

-- Two periods; SIGHUP cuts the second one short, and the log is opened anew.
abbrev loop_answers : List Reply
loop_answers =
    val 0
    ∷ val 0
    ∷ val 10
    ∷ val 1
    ∷ val 3
    ∷ val 1
    ∷ val 10
    ∷ val 0
    ∷ val 4
    ∷ val 9
    ∷ val 0
    ∷ val 0
    ∷ val 10
    ∷ val 1
    ∷ []

abbrev fresh_start : Variables
fresh_start = record { counted = 0; unslept = sleep_time; fd = pos 3 }

-- The log has been opened.
abbrev opened : Trace Call
opened = ev (write_text (pos 3) "log open\n") (val 9) ∷ ev (open_file log_file) (val 3) ∷ []

loop_run :
    messages (trace_of (repeat daemon_round fresh_start loop_answers opened))
    ≡ message_bytes 2 ∷ message_bytes 1 ∷ []
unfolding daemon_round reopen_log log_open log_close log_message repeat call call_or guard
loop_run = refl

-- A parent that holds three files, and a fourth one behind a gap.
abbrev four_files : Table
four_files =
    some (inherited 0) ∷ some (inherited 1) ∷ some (inherited 2) ∷ none ∷ some (inherited 9) ∷ []

daemon_files_example :
    CoursePost
      (val 0)
      (val 1)
      (val 0)
      true
      four_files
      (make_daemon (val 0) (val 1) (val 0) true four_files)
daemon_files_example = daemon_files (val 0) (val 1) (val 0) true four_files
