-- ===== src/SigIo.antt =====
-- alt_io_signal of LinuxAPI2/alt_io_sample.c: the process sleeps and tests a flag that the handler of
-- SIGIO sets when input comes, then reads what there is, five bytes at most at a time. Input comes at
-- any time.
pub mod Edge
mod Tests
use linuxapi.Base.{
  ℕ, ◌≤◌, ◌==◌, ◌≡◌, Bool, true, false, List, [], ◌∷◌, ◌++◌, length, take, drop, if◌then◌else◌,
}
use linuxapi.FileIo.{text}

-- The input that has not been read; `got_sig_io`; `buf`; what has been printed, the newest first; and
-- whether the reading loop has ever been left with input still there to be read, by `break` or by an
-- error.
pub record Terminal : Type 0 where
  pub unread : List ℕ
  pub got_sig_io : Bool
  pub buf : List ℕ
  pub out : List (List ℕ)
  pub cut_short : Bool

-- Where the process stands: before `sigaction`, the two settings by `fcntl`, `sleep`, the test of the
-- flag, and `read`; or ended by `errExit`.
pub data Place : Type 0 where
  install own flags nap test drain died : Place

-- The input mode is set and the signal is sent.
abbrev pub is_armed : Place → Bool
is_armed Place.nap = true
is_armed Place.test = true
is_armed Place.drain = true
is_armed p = false

abbrev pub size : ℕ
size = 5

-- `read` puts the bytes at the start of the buffer, and the rest of it stays.
abbrev pub fill : (bytes buf : List ℕ) → List ℕ
fill bytes buf = bytes ++ drop (length bytes) buf

pub data Runs (m : Terminal) : Place → Terminal → Place → Type 0 where
  installs : Runs m Place.install m Place.own
  owns : Runs m Place.own m Place.flags
  sets_flags : Runs m Place.flags m Place.nap
  install_fails : Runs m Place.install m Place.died
  own_fails : Runs m Place.own m Place.died
  flags_fail : Runs m Place.flags m Place.died
  sleeps : Runs m Place.nap m Place.test
  none : m.got_sig_io ≡ false → Runs m Place.test m Place.nap
  signaled : m.got_sig_io ≡ true → Runs m Place.test (record m { got_sig_io = false }) Place.drain
  -- `buf[5] = '\0'`, whatever the number of bytes read
  prints :
      (c : ℕ) (cs rest : List ℕ)
      → m.unread ≡ (c ∷ cs) ++ rest
      → length (c ∷ cs) ≤ size
      → (c == 10) ≡ false
      → Runs m Place.drain
          (record m {
            unread = rest;
            buf = fill (c ∷ cs) m.buf;
            out = text (take size (fill (c ∷ cs) m.buf)) ∷ m.out;
          })
          Place.drain
  newline :
      (c : ℕ) (cs rest : List ℕ)
      → m.unread ≡ (c ∷ cs) ++ rest
      → length (c ∷ cs) ≤ size
      → (c == 10) ≡ true
      → Runs m Place.drain
          (record m { unread = rest; buf = fill (c ∷ cs) m.buf; cut_short = true })
          Place.nap
  empty : m.unread ≡ [] → Runs m Place.drain m Place.nap
  read_fails : Runs m Place.drain (record m { cut_short = true }) Place.nap

pub record System : Type 0 where
  pub terminal : Terminal
  pub place : Place

pub data Step (s : System) : System → Type 0 where
  -- The handler runs at once, between any two calls.
  input :
      (c : ℕ) (cs : List ℕ)
      → Step s (record s {
        terminal = record s.terminal {
          unread = s.terminal.unread ++ (c ∷ cs);
          got_sig_io = if is_armed s.place then true else s.terminal.got_sig_io;
        };
      })
  runs :
      {m : Terminal} {p : Place}
      → Runs s.terminal s.place m p
      → Step s (record { terminal = m; place = p })

-- No input has come, and the calls before the loop have succeeded.
abbrev pub armed : (stale : List ℕ) → System
armed stale = record {
  terminal = record { unread = []; got_sig_io = false; buf = stale; out = []; cut_short = false };
  place = Place.nap;
}

pub data Reach (from : System) : System → Type 0 where
  start : Reach from from
  later : {s t : System} → Reach from s → Step s t → Reach from t
