-- ===== src/FileIo/WholeFile.antt =====
-- Reading the whole file.
use linuxapi.Base.{
  ℕ, zero, suc, ◌+◌, ◌-◌, ◌≤◌, ◌<◌, ◌==◌, ◌≡◌, ◌⊎◌, refl, ap, String, ℤ, true, false, Bool-cases,
  inl, inr, List, [], ◌∷◌, ◌++◌, append-nil, length, if◌then◌else◌, arith,
}
use linuxapi.Posix.{
  Reply, fail, val, chunk, chunk_from, result, payload, count, failed, ev, Trace, Stop, blocked,
  err_exit, overrun, Outcome, ret, stop, pure, ◌>>◌,
}
use linuxapi.Posix.Loop.{Round, repeat_rule}
use linuxapi.Posix.Rules.{bind_rule, call_rule, call_or_rule}
use linuxapi.FileIo.{
  Call, Choice, open_file, posix_fadvise, read, print, close, lseek, fdatasync, write, text,
  buf_size, is_interrupt, read_round, read_file, end_and_print, fileio_read_write,
}

-- The bytes that the reads have given, in order; their number; how often a read has met the end of
-- the file; and the texts printed.
abbrev pub bytes_read : Trace Call → List ℕ
bytes_read [] = []
bytes_read (ev (read fd size) r ∷ log) = bytes_read log ++ payload r
bytes_read (ev _ r ∷ log) = bytes_read log

abbrev pub taken : Trace Call → ℕ
taken [] = 0
taken (ev (read fd size) r ∷ log) = taken log + count r
taken (ev _ r ∷ log) = taken log

abbrev pub at_end : Reply → ℕ
at_end r = if failed r then 0 else (if count r == 0 then 1 else 0)

abbrev pub ends : Trace Call → ℕ
ends [] = 0
ends (ev (read fd size) r ∷ log) = ends log + at_end r
ends (ev _ r ∷ log) = ends log

abbrev pub texts : Trace Call → List (List ℕ)
texts [] = []
texts (ev (print s) r ∷ log) = s ∷ texts log
texts (ev _ r ∷ log) = texts log

abbrev pub call_name : Call → String
call_name (open_file path mode) = "open"
call_name (posix_fadvise fd) = "posix_fadvise"
call_name (read fd size) = "read"
call_name (write fd bytes) = "write"
call_name (lseek fd) = "lseek"
call_name (fdatasync fd) = "fdatasync"
call_name (close fd) = "close"
call_name _ = ""

-- The process ends by `errexit` for a call that has failed; a read that was interrupted is no cause.
abbrev pub FailedIn : String → Trace Call → Type 0
FailedIn name [] = ⊥
FailedIn name (ev (read fd size) r ∷ log) =
    (name ≡ "read") × (failed r ≡ true) × (is_interrupt r ≡ false)
FailedIn name (ev c r ∷ log) = (call_name c ≡ name) × (failed r ≡ true)

abbrev pub Shown : Trace Call → Type 0
Shown log = (texts log ≡ text (bytes_read log) ∷ []) × (taken log < buf_size) × (ends log ≡ 1)

abbrev pub WholePost : Outcome Call (Unit {0}) → Type 0
WholePost (ret u rs log) = Shown log
WholePost (stop overrun log) = (texts log ≡ []) × (buf_size ≤ taken log)
WholePost (stop (err_exit name) log) = FailedIn name log × ((texts log ≡ []) ⊎ Shown log)
WholePost (stop (blocked c) log) = (texts log ≡ []) ⊎ Shown log
WholePost (stop e log) = ⊥

-- `len` and the bytes before `idx`, in the loop.
abbrev Inv : ℕ × List ℕ → List Reply → Trace Call → Type 0
Inv (len, stored) rs log =
    (len ≡ buf_size - taken log) × (stored ≡ bytes_read log) × (ends log ≡ 0) × (texts log ≡ [])

abbrev Looped : Outcome Call (ℕ × List ℕ) → Type 0
Looped (ret (zero, stored) rs log) = (buf_size ≤ taken log) × (texts log ≡ [])
Looped (ret (suc len, stored) rs log) =
    (taken log < buf_size) × (stored ≡ bytes_read log) × (ends log ≡ 1) × (texts log ≡ [])
Looped (stop (err_exit name) log) = FailedIn name log × (texts log ≡ [])
Looped (stop (blocked c) log) = texts log ≡ []
Looped (stop e log) = ⊥

-- No bytes come with an error or at the end of the file.
no_bytes : (r : Reply) → failed r ≡ true → (count r ≡ 0) × (payload r ≡ []) × (at_end r ≡ 0)
no_bytes (fail e) h = (refl, refl, refl)
no_bytes (val n) h = absurd (ground arith)
no_bytes (chunk d) h = absurd (ground arith)
no_bytes (chunk_from p d) h = absurd (ground arith)

empty_list : (d : List ℕ) → (length d == 0) ≡ true → d ≡ []
empty_list [] h = refl
empty_list (x ∷ d) h = absurd (ground arith)

end_bytes :
    (r : Reply)
    → failed r ≡ false
    → (count r == 0) ≡ true
    → (count r ≡ 0) × (payload r ≡ []) × (at_end r ≡ 1)
end_bytes (fail e) h z = absurd (ground arith)
end_bytes (val n) h z = ((ground arith), refl, rw z refl)
end_bytes (chunk d) h z = ((ground arith), empty_list d z, rw z refl)
end_bytes (chunk_from p d) h z = ((ground arith), empty_list d z, rw z refl)

read_round_lem :
    (fd : ℤ) (s : ℕ × List ℕ) (rs : List Reply) (log : Trace Call)
    → Inv s rs log
    → Round Inv Looped (length rs) (read_round fd s rs log)
unfolding read_round
read_round_lem fd (zero, stored) rs log h = (omega (arith, h.0), h.3)
read_round_lem fd (suc len, stored) rs log h =
    call_rule (Round Inv Looped (length rs)) _ _ rs log h.3 (λ r rest lt.
      elim (Bool-cases (failed r)) [
        | inl bad ↦
            let none_ = no_bytes r bad in
            rw bad (elim (Bool-cases (is_interrupt r)) [
              | inl again_ ↦ rw again_ (
                (
                  omega (arith, h.0, none_.0),
                  (rw (none_.1, append-nil (bytes_read log)) h.1),
                  omega (arith, h.2, none_.2),
                  h.3,
                ),
                lt,
              )
              | inr over ↦ rw over ((refl, bad, over), h.3)
            ])
        | inr good ↦ rw good (elim (Bool-cases (count r == 0)) [
          | inl end ↦
              let none_ = end_bytes r good end in
              rw end (
                omega (arith, h.0, none_.0),
                (rw (none_.1, append-nil (bytes_read log)) h.1),
                omega (arith, h.2, none_.2),
                h.3,
              )
          | inr more ↦ rw more (
            (omega (arith, h.0), ap (λ l. l ++ payload r) h.1, (rw (h.2, good, more) refl), h.3),
            lt,
          )
        ])
      ])

abbrev FilePost : Outcome Call ℤ → Type 0
FilePost (ret fd rs log) = Shown log
FilePost (stop e log) = WholePost (stop e log)

-- A process that stops in the loop has printed nothing.
stopped : (e : Stop Call) (log : Trace Call) → Looped (stop e log) → FilePost (stop e log)
stopped (err_exit name) log h = (h.0, inl h.1)
stopped (blocked c) log h = inl h
stopped overrun log h = absurd h
stopped e log h = absurd h

printed_end :
    (fd : ℤ) (o : ℕ × List ℕ) (rs : List Reply) (log : Trace Call)
    → Looped (ret o rs log)
    → FilePost ((end_and_print o >> pure fd) rs log)
unfolding end_and_print
printed_end fd (zero, stored) rs log h = (h.1, h.0)
printed_end fd (suc len, stored) rs log h = (rw (h.3, h.1) refl, h.0, h.2)

read_file_lem : (rs : List Reply) → FilePost (read_file rs [])
unfolding read_file
read_file_lem rs =
    call_or_rule FilePost _ _ _ rs [] (inl refl) (λ r bad. ((refl, bad), inl refl))
      (λ fd rs1 lt1 ok1.
        call_or_rule FilePost _ _ _ rs1 _ (inl refl) (λ r bad. ((refl, bad), inl refl))
          (λ hint rs2 lt2 ok2.
            bind_rule Looped FilePost _ _
              (repeat_rule Inv Looped (read_round (result fd)) (read_round_lem (result fd))
                (buf_size, []) rs2 _ (refl, refl, refl, refl))
              (printed_end (result fd)) stopped))

whole : (e : Stop Call) (log : Trace Call) → FilePost (stop e log) → WholePost (stop e log)
whole e log h = h

-- `fileio_read_write` with `-r`, whatever the kernel answers, prints one text at most. It returns
-- only where a read has met the end of the file, fewer than 1000 bytes have come, and it has printed
-- all of them in order, up to the first NUL byte. With 1000 bytes it stores the closing NUL behind
-- the buffer and has printed nothing. An interrupted read is tried again; every end by `errexit` has
-- the name of the last call, which has failed.
pub reads_whole_file :
    (stale : ℤ) (rs : List Reply) → WholePost (fileio_read_write stale Choice.r rs [])
unfolding fileio_read_write
reads_whole_file stale rs =
    bind_rule FilePost WholePost _ _ (read_file_lem rs)
      (λ fd rs1 log h.
        call_or_rule WholePost _ _ _ rs1 log (inr h) (λ r bad. ((refl, bad), inr h))
          (λ r rs2 lt good. h))
      whole
