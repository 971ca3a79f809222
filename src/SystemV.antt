-- ===== src/SystemV.antt =====
-- The System V semaphore and message queue programs of LinuxAPI2, and the calls that they make.
pub mod Sem
pub mod Msg
mod Tests
use linuxapi.Base.{ℕ, String, ℤ, Bool, List}

pub data Call : Type 0 where
  ftok : (path : String) → Call
  -- `excl` tells `IPC_CREAT | IPC_EXCL` from no such flag
  semget msgget : (key : ℤ) (excl : Bool) → Call
  semctl_setval : (semid : ℤ) (value : ℕ) → Call
  -- answered by the field `sem_otime`
  semctl_stat semctl_getval : (semid : ℤ) → Call
  semop : (semid op : ℤ) → Call
  msgctl_rmid msgctl_stat : (msqid : ℤ) → Call
  msgrcv : (msqid : ℤ) (size : ℕ) (type : ℤ) → Call
  msgsnd : (msqid : ℤ) (type : ℕ) (text : String) → Call
  open_file : (path : String) → Call
  write_id : (fd msqid : ℤ) → Call
  read_id close : (fd : ℤ) → Call
  sleep : ℕ → Call
  printf : String → Call
  -- a printed number, message (its type and text) or set of statistics
  print_number : ℤ → Call
  print_message : (type : ℕ) → List ℕ → Call
  print_queue : Call

-- `KEY_PATH`, `ID_PATH`, `MAX_MTEXT`
abbrev pub key_path : String
key_path = "/tmp/LinuxAPI2"

abbrev pub id_path : String
id_path = "/tmp/id"

abbrev pub max_mtext : ℕ
max_mtext = 1024
