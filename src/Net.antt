-- ===== src/Net.antt =====
-- The calls that the pipe and socket programs of LinuxAPI2 and the file copy of LinuxAPI make, and what
-- a trace says of the bytes that a process has moved and of the sockets that it holds.
pub mod Traffic
pub mod Copy
mod Tests
pub mod Server
pub mod Client
pub mod Pipe
pub mod Resolve
pub mod Datagram
pub mod Echo
pub mod FileCopy
pub mod Streams
use linuxapi.Base.{ℕ, String, ℤ, pos, Bool, true, false, List, [], ◌∷◌, is_positive, minus_one}
use mathlib.Core.Bool.{not}
use linuxapi.Posix.{Reply, fail, enoent, result}

pub data Domain : Type 0 where
  af_inet af_unix : Domain
  -- the family, type and protocol of an entry of `getaddrinfo`
  of_entry : ℕ → Domain

pub data Kind : Type 0 where
  sock_stream sock_dgram : Kind

-- Socket addresses. `peer` is what `accept` writes for a connection, `sender_of` what `recvfrom`
-- writes for a datagram, and `entry` an element of the list that `getaddrinfo` returns.
pub data Addr : Type 0 where
  inaddr_any : (port : ℕ) → Addr
  inet_addr : String → (port : ℕ) → Addr
  unix_path : String → Addr
  unix_client_path : String → (pid : ℤ) → Addr
  peer : ℤ → Addr
  sender_of : ℕ → Addr
  entry : ℕ → Addr

pub data Call : Type 0 where
  socket : Domain → Kind → Call
  socketpair pipe fork wait waitpid getpid : Call
  remove : String → Call
  -- `open` with `O_RDONLY`, and with `O_CREAT | O_WRONLY | O_TRUNC`
  open_read open_truncated : String → Call
  -- to an offset from the beginning of the file
  lseek : ℤ → (offset : ℕ) → Call
  bind connect : ℤ → Addr → Call
  listen : ℤ → (backlog : ℕ) → Call
  accept : ℤ → Call
  getaddrinfo : (host service : String) → Call
  getnameinfo inet_ntop : Addr → Call
  inet_pton : String → Call
  freeaddrinfo setbuf : Call
  setsockopt : ℤ → (option : String) → Call
  sigaction : (signal : String) → Call
  read recvfrom : ℤ → (size : ℕ) → Call
  write : ℤ → List ℕ → Call
  -- the bytes of the buffer and the number of them that is asked for
  sendto : ℤ → List ℕ → (size : ℤ) → Addr → Call
  dup2 : ℤ → ℤ → Call
  close : ℤ → Call
  shutdown : ℤ → Call
  err_msg : String → Call
  printf : String → List ℕ → Call
  -- the text of the address and the address itself, whose port is printed as it stands
  print_client : List ℕ → Addr → Call
  -- the size of a datagram and where it comes from
  print_datagram : ℤ → Addr → Call

abbrev pub stdin_fileno : ℤ
stdin_fileno = pos 0

abbrev pub stdout_fileno : ℤ
stdout_fileno = pos 1

-- `BUF_SIZE` of socket_inet_domain.h, socket_unix_domain.h and socket_echo.h
abbrev pub buf_size : ℕ
buf_size = 100

-- `BACKLOG`
abbrev pub backlog : ℕ
backlog = 5

-- `remove(path) == -1 && errno != ENOENT`
abbrev pub remove_failed : Reply → Bool
remove_failed (fail enoent) = false
remove_failed (fail e) = true
remove_failed r = false

-- `<= 0`
abbrev pub not_positive : Reply → Bool
not_positive r = not (is_positive (result r))

-- The two descriptors that `pipe` and `socketpair` write into an array.
abbrev pub end0 : List ℕ → ℤ
end0 [] = minus_one
end0 (a ∷ d) = pos a

abbrev pub end1 : List ℕ → ℤ
end1 [] = minus_one
end1 (a ∷ d) = end0 d
