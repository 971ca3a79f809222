-- ===== src/Net/FileCopy.antt =====
-- `file_open_read_write` of LinuxAPI/file_io.c: a file is copied into another one from its eleventh
-- byte on, by the loop of `Copy`.
use linuxapi.Base.{ℕ, ℤ, minus_one, ◌≡◌, refl, inl, inr, List, [], ◌∷◌}
use linuxapi.Posix.{
  Reply, result, failed, ev, Trace, Stop, err_exit, fatal, Outcome, ret, stop, Sys, pure, ◌>>=◌,
  ◌>>◌, call_or, guard,
}
use linuxapi.Posix.Rules.{call_or_rule, guard_rule}
use linuxapi.Net.{Call, open_read, open_truncated, lseek, close}
use linuxapi.Net.Traffic.{received, delivered}
use linuxapi.Net.Copy.{InStep, Relayed, copy, copy_rule}

abbrev pub offset : ℕ
offset = 10

abbrev pub not_whole : Stop Call
not_whole = fatal "Couldn't write whole buffer"

-- `size` is `BUFFER_SIZE`, which the build may set.
unfoldable pub file_open_read_write : (size : ℕ) → Sys Call ℕ
file_open_read_write size = do
  input_fd ← call_or (open_read "read") (err_exit "open(): read")
  output_fd ← call_or (open_truncated "write") (err_exit "open(): write")
  call_or (lseek (result input_fd) offset) (err_exit "lseek")
  numread ← copy (result input_fd) (result output_fd) size not_whole
  guard (failed numread) (err_exit "read")
  call_or (close (result input_fd)) (err_exit "Close input")
  call_or (close (result output_fd)) (err_exit "Close output")
  pure 0

-- The descriptor of the file that was opened for writing, and the offsets sought.
abbrev pub output : Trace Call → ℤ
output [] = minus_one
output (ev (open_truncated path) r ∷ log) = result r
output (ev _ r ∷ log) = output log

abbrev pub offsets : Trace Call → List ℕ
offsets [] = []
offsets (ev (lseek fd n) r ∷ log) = n ∷ offsets log
offsets (ev _ r ∷ log) = offsets log

abbrev pub FilePost : Outcome Call ℕ → Type 0
FilePost (ret n rs log) =
    (n ≡ 0) × (received log ≡ delivered (output log) log) × (offsets log ≡ offset ∷ [])
FilePost (stop e log) = Relayed (output log) not_whole e log

abbrev Opened : ℤ → Trace Call → Type 0
Opened out log = (output log ≡ out) × (offsets log ≡ offset ∷ [])

in_step : (out : ℤ) (log : Trace Call) → InStep out log → Opened out log → InStep (output log) log
in_step out log q held = rw held.0 q

-- `file_open_read_write`, whatever the kernel answers. Where it returns, the result is 0, it has
-- sought once, to offset 10, and every byte read is written to the output file, in order. Where it
-- stands or ends otherwise, the same holds of the bytes; or the last ones are in a write that is not
-- answered yet, or in one that was short or failed, which ends it by `fatal`.
pub file_copied : (size : ℕ) (rs : List Reply) → FilePost (file_open_read_write size rs [])
unfolding file_open_read_write
file_copied size rs =
    call_or_rule FilePost _ _ _ rs [] (tt, inl refl) (λ r bad. (tt, inl refl))
      (λ i rs1 lt1 ok1.
        call_or_rule FilePost _ _ _ rs1 _ (tt, inl refl) (λ r bad. (tt, inl refl))
          (λ o rs2 lt2 ok2.
            call_or_rule FilePost _ _ _ rs2 _ (tt, inl refl) (λ r bad. (tt, inl refl))
              (λ s rs3 lt3 ok3.
                copy_rule (result o) not_whole (Opened (result o)) (result i) size (λ r l q. q)
                  (λ d r l q. q) FilePost _ rs3 _ refl (refl, refl)
                  (λ n rs4 l q held le eof.
                    closing i o n rs4 l (in_step (result o) l q held) held.1)
                  (λ l q held. (tt, inl (in_step (result o) l q held)))
                  (λ d l q held. (tt, inr (d, (rw held.0 q), inr (rw held.0))))
                  (λ lost l q held. (tt, inr (lost, (rw held.0 q), inl refl))))))
  where
    closing :
        (i o n : Reply) (rs4 : List Reply) (log : Trace Call)
        → InStep (output log) log
        → offsets log ≡ offset ∷ []
        → FilePost (
            (do
              guard (failed n) (err_exit "read")
              call_or (close (result i)) (err_exit "Close input")
              call_or (close (result o)) (err_exit "Close output")
              pure 0)
              rs4 log)
    closing i o n rs4 log q at =
        guard_rule FilePost _ _ _ rs4 log (λ bad. (tt, inl q))
          (λ fine.
            call_or_rule FilePost _ _ _ rs4 log (tt, inl q) (λ r bad. (tt, inl q))
              (λ r rs5 lt5 ok5.
                call_or_rule FilePost _ _ _ rs5 _ (tt, inl q) (λ r bad. (tt, inl q))
                  (λ r' rs6 lt6 ok6. (refl, q, at))))
