-- ===== src/Daemon/Log.antt =====
-- The log of LinuxAPI/process_daemonize.c, and the loop of the daemon.
pub mod Message
pub mod Periods
use linuxapi.Base.{
  ℕ, zero, suc, ◌+◌, ◌-◌, String, ℤ, pos, minus_one, ◌==ℤ◌, ltb, Bool, true, false, is_positive,
  List, [], ◌∷◌, ◌++◌, length, take, if◌then◌else◌,
}
use Prim.Native.Nat.{◌/◌, ◌%◌}
use linuxapi.Posix.{
  Reply, result, count, failed, err_exit, Sys, pure, guard, ◌>>=◌, ◌>>◌, call, call_or,
}
use linuxapi.Posix.Loop.{Next, again, repeat}
use linuxapi.Daemon.{
  Call, open_file, close, write, write_text, sigaction, sleep, hup_signaled, become_daemon,
}

abbrev pub log_file : String
log_file = "/tmp/LinuxAPI_deamon.log"

abbrev pub sleep_time : ℕ
sleep_time = 5

-- The value of the variable `fd`; the caller does not test what `log_open` returns.
unfoldable pub log_open : (log_name : String) → Sys Call ℤ
log_open log_name = do
  fd ← call_or (open_file log_name) (err_exit "open()")
  call (write_text (result fd) "log open\n")
  pure (result fd)

-- The digits of a number, with fuel; the number itself is enough.
abbrev pub digits_within : ℕ → ℕ → List ℕ
digits_within zero n = (48 + n) ∷ []
digits_within (suc fuel) n =
    let rest = digits_within fuel (n / 10) in
    if ltb n 10 then (48 + n) ∷ [] else rest ++ (48 + n % 10) ∷ []

abbrev pub digits : ℕ → List ℕ
digits n = digits_within n n

-- What `vsprintf` makes of "count = %d".
abbrev pub message_text : ℕ → List ℕ
message_text n = 99 ∷ 111 ∷ 117 ∷ 110 ∷ 116 ∷ 32 ∷ 61 ∷ 32 ∷ digits n

abbrev pub zeros : ℕ → List ℕ
zeros zero = []
zeros (suc n) = 0 ∷ zeros n

-- `strlen(msgform)`
abbrev pub format_length : ℕ
format_length = 10

-- The first bytes of `buf`, which is 0 where the text does not reach.
abbrev pub message_bytes : ℕ → List ℕ
message_bytes n = take format_length (message_text n ++ zeros (4096 - length (message_text n)))

unfoldable pub log_message : (fd : ℤ) (counted : ℕ) → Sys Call ℤ
log_message fd counted = if fd ==ℤ minus_one then pure (pos 0) else (do
  w ← call (write fd (message_bytes counted))
  if failed w
      then pure minus_one
      else (do n ← call (write_text fd "\n"); if failed n then pure minus_one else pure (pos 0)))

unfoldable pub log_close : (fd : ℤ) → Sys Call ℤ
log_close fd = if fd ==ℤ minus_one then pure (pos 0) else (do
  w ← call (write_text fd "log close\n")
  if failed w then pure minus_one else (do call (close fd); pure (pos 0)))

-- The variables `count`, `unslept` and `fd`.
pub record Variables : Type 0 where
  pub counted : ℕ
  pub unslept : ℕ
  pub fd : ℤ

-- After SIGHUP the log is closed and opened again.
unfoldable pub reopen_log : Reply → (fd : ℤ) → Sys Call ℤ
reopen_log hup fd =
    if is_positive (result hup) then (do log_close fd; log_open log_file) else pure fd

unfoldable pub daemon_round : Variables → Sys Call (Next Variables (Unit {0}))
daemon_round v = do
  unslept ← call (sleep v.unslept)
  hup ← call hup_signaled
  fd ← reopen_log hup v.fd
  if result unslept ==ℤ pos 0
      then (do
        log_message fd (v.counted + 1)
        pure (again (record { counted = v.counted + 1; unslept = sleep_time; fd = fd })))
      else pure (again (record { counted = v.counted; unslept = count unslept; fd = fd }))

unfoldable pub process_daemonize : Sys Call (Unit {0})
process_daemonize = do
  call_or (sigaction "SIGHUP") (err_exit "sigaction()\n")
  daemon ← become_daemon 0
  guard (daemon ==ℤ minus_one) (err_exit "become_daemon()")
  fd ← log_open log_file
  repeat daemon_round (record { counted = 0; unslept = sleep_time; fd = fd })
