-- ===== src/SystemV/Msg.antt =====
-- LinuxAPI2/ipc_systemv_msg_server.c and LinuxAPI2/ipc_systemv_msg/ipc_systemv_msg_client.c.
pub mod Served
use linuxapi.Base.{
  Option, none, some, ◌++◌, drop, length, List, ℕ, ℤ, pos, negsuc, minus_one, ◌==ℤ◌, Bool, true,
  false, if◌then◌else◌,
}
use mathlib.Core.Bool.{not}
use linuxapi.Posix.{
  Reply, fail, eexist, result, sender, payload, failed, err_exit, overrun, halt, Sys, pure, guard,
  ◌>>=◌, ◌>>◌, call, call_or, emit,
}
use linuxapi.Posix.Loop.{Next, again, leave, repeat}
use linuxapi.Inotify.{c_string}
use linuxapi.SystemV.{
  Call, ftok, msgget, msgctl_rmid, msgctl_stat, msgrcv, msgsnd, open_file, write_id, read_id, close,
  print_number, print_message, print_queue, key_path, id_path, max_mtext,
}

-- `errno == EEXIST`
abbrev pub exists : Reply → Bool
exists (fail eexist) = true
exists r = false

-- One round of the loop that creates the queue: an old one is removed, other errors are tried again.
unfoldable pub create_round : (key : ℤ) → Unit {0} → Sys Call (Next (Unit {0}) ℤ)
create_round key _ = do
  r ← call (msgget key true)
  if failed r
      then (if exists r
          then (do
            old ← call (msgget key false)
            call_or (msgctl_rmid (result old)) (err_exit "msgctl()")
            emit (print_number (result old))
            pure (again tt))
          else pure (again tt))
      else pure (leave (result r))

-- `%s` of `mtext` ends at a NUL; `none` where there is none before the end of the buffer.
unfoldable pub show_message :
    (type : ℕ)
    → Option (List ℕ)
    → (msqid : ℤ) (mtext : List ℕ) → Sys Call (Next (List ℕ) (Unit {0}))
show_message type none msqid mtext = halt overrun
show_message type (some s) msqid mtext = do
  emit (print_message type s)
  call_or (msgctl_stat msqid) (err_exit "msgctl()")
  emit print_queue
  pure (again mtext)

-- One message, over what `mtext` held. `msgrcv` answers with the type, in the place of a sender, and
-- the bytes. The loop ends when it fails.
unfoldable pub receive_round : (msqid : ℤ) (mtext : List ℕ) → Sys Call (Next (List ℕ) (Unit {0}))
receive_round msqid mtext = do
  r ← call (msgrcv msqid max_mtext (negsuc 1))
  if failed r
      then pure (leave tt)
      else (show_message (sender r) (c_string (payload r ++ drop (length (payload r)) mtext)) msqid
          (payload r ++ drop (length (payload r)) mtext))

-- The results of `open` and `close` are not tested. `stale` is what `msg.mtext` holds at first.
unfoldable pub ipc_systemv_msg_server : (stale : List ℕ) → Sys Call (Unit {0})
ipc_systemv_msg_server stale = do
  key ← call_or (ftok key_path) (err_exit "ftok()")
  msqid ← repeat (create_round (result key)) tt
  guard (msqid ==ℤ minus_one) (err_exit "msgget()")
  emit (print_number msqid)
  idfd ← call (open_file id_path)
  w ← call (write_id (result idfd) msqid)
  guard (not (result w ==ℤ pos 4)) (err_exit "write()")
  call (close (result idfd))
  repeat (receive_round msqid) stale

-- `as_int` is how the machine reads the bytes of an `int`.
unfoldable pub ipc_systemv_msg_client : (as_int : List ℕ → ℤ) → Sys Call (Unit {0})
ipc_systemv_msg_client as_int = do
  idfd ← call (open_file id_path)
  r ← call (read_id (result idfd))
  guard (not (result r ==ℤ pos 4)) (err_exit "read()")
  call (close (result idfd))
  call_or (msgsnd (as_int (payload r)) 1 "test message from client1") (err_exit "msgsnd")
  call_or (msgsnd (as_int (payload r)) 2 "test message from client2") (err_exit "msgsnd")
  pure tt
