-- ===== src/Vector/Lines.antt =====
-- The lines of fileio_readv_writev come back; and the programs of file_io.c together.
use linuxapi.Base.{
  ℕ, zero, suc, ◌≡◌, ◌≢◌, refl, sym, ap, ◌∙◌, List, [], ◌∷◌, ◌++◌, append-nil, append_assoc, length,
  take, drop, arith,
}
use linuxapi.Posix.{
  Reply, val, chunk, ev, Trace, trace_of, Outcome, Sys, ◌>>=◌, call, call_or, guard,
}
use linuxapi.FileIo.{text}
use linuxapi.Vector.Scatter.{gather, ScatterPost, scattered}
use linuxapi.Net.FileCopy
use linuxapi.Net.FileCopy.{file_open_read_write, file_copied}
use linuxapi.Vector.{
  Call, print, scatter, file_scatter_gather, with_nul, print_each, fileio_readv_writev,
}

-- Buffers of the right sizes get back what was gathered.
take-prefix : (b t rest : List ℕ) → length b ≡ length t → take (length b) (t ++ rest) ≡ t
take-prefix [] [] rest h = refl
take-prefix [] (y ∷ t) rest h = absurd (omega (arith, h))
take-prefix (x ∷ b) [] rest h = absurd (omega (arith, h))
take-prefix (x ∷ b) (y ∷ t) rest h = ap (λ l. y ∷ l) (take-prefix b t rest (omega (arith, h)))

drop-prefix : (b t rest : List ℕ) → length b ≡ length t → drop (length b) (t ++ rest) ≡ rest
drop-prefix [] [] rest h = refl
drop-prefix [] (y ∷ t) rest h = absurd (omega (arith, h))
drop-prefix (x ∷ b) [] rest h = absurd (omega (arith, h))
drop-prefix (x ∷ b) (y ∷ t) rest h = drop-prefix b t rest (omega (arith, h))

drop-all : (b t rest : List ℕ) → length b ≡ length t → drop (length (t ++ rest)) b ≡ []
drop-all [] [] [] h = refl
drop-all [] [] (z ∷ rest) h = refl
drop-all [] (y ∷ t) rest h = refl
drop-all (x ∷ b) [] rest h = absurd (omega (arith, h))
drop-all (x ∷ b) (y ∷ t) rest h = drop-all b t rest (omega (arith, h))

-- As many buffers as texts, each as long as its text.
abbrev pub Fits : (bs ts : List (List ℕ)) → Type 0
Fits [] [] = Unit {0}
Fits (b ∷ bs) (t ∷ ts) = (length b ≡ length t) × Fits bs ts
Fits bs ts = ⊥

scatter-gather : (bs ts : List (List ℕ)) → Fits bs ts → scatter bs (gather ts) ≡ ts
unfolding scatter
scatter-gather [] [] h = refl
scatter-gather [] (t ∷ ts) h = absurd h
scatter-gather (b ∷ bs) [] h = absurd h
scatter-gather (b ∷ bs) (t ∷ ts) h =
    rw
      (
        take-prefix b t (gather ts) h.0,
        drop-all b t (gather ts) h.0,
        drop-prefix b t (gather ts) h.0,
        append-nil t,
        scatter-gather bs ts h.1,
      )
      refl

-- C texts have no NUL.
abbrev pub NoNul : List ℕ → Type 0
NoNul [] = Unit {0}
NoNul (c ∷ s) = (c ≢ 0) × NoNul s

abbrev pub Texts : List (List ℕ) → Type 0
Texts [] = Unit {0}
Texts (s ∷ ss) = NoNul s × Texts ss

text-with_nul : (s : List ℕ) → NoNul s → text (s ++ (0 ∷ [])) ≡ s
text-with_nul [] h = refl
text-with_nul (zero ∷ s) h = absurd (h.0 refl)
text-with_nul (suc c ∷ s) h = ap (λ l. suc c ∷ l) (text-with_nul s h.1)

-- The texts printed, in order.
abbrev pub printed : Trace Call → List (List ℕ)
printed [] = []
printed (ev (print s) r ∷ log) = printed log ++ (s ∷ [])
printed (ev _ r ∷ log) = printed log

print_each_rule :
    {B : Type 0} (Q : Outcome Call B → Type 0) (ss out : List (List ℕ)) (k : Unit {0} → Sys Call B)
    (rs : List Reply) (log : Trace Call)
    → Texts ss
    → printed log ≡ out
    → ((log' : Trace Call) → printed log' ≡ out ++ ss → Q (k tt rs log'))
    → Q ((print_each (with_nul ss) >>= k) rs log)
unfolding print_each
print_each_rule Q [] out k rs log h e next = next log (e ∙ sym (append-nil out))
print_each_rule Q (s ∷ ss) out k rs log h e next =
    print_each_rule Q ss (out ++ (s ∷ [])) k rs _ h.1 (rw (e, text-with_nul s h.0) refl)
      (λ log' p. next log' (p ∙ append_assoc out (s ∷ []) ss))

-- The kernel's answers where all succeeds, and the second file has what was written to the first.
abbrev pub good_answers : (fd n c fd' c' : ℕ) (buf : List (List ℕ)) → List Reply
good_answers fd n c fd' c' buf =
    val fd ∷ val n ∷ val c ∷ val fd' ∷ chunk (gather (with_nul buf)) ∷ val c' ∷ []

lines_return :
    (buf readbuf : List (List ℕ)) (fd n c fd' c' : ℕ)
    → Texts buf
    → Fits readbuf (with_nul buf)
    → printed (trace_of (fileio_readv_writev buf readbuf (good_answers fd n c fd' c' buf) [])) ≡ buf
unfolding fileio_readv_writev call call_or guard
lines_return buf readbuf fd n c fd' c' texts fits =
    rw (scatter-gather readbuf (with_nul buf) fits)
      (print_each_rule (λ o. printed (trace_of o) ≡ buf) buf [] _ _ _ texts refl (λ log' p. p))

-- The programs that copy or scatter bytes, for every kernel but in the last part. For
-- `file_open_read_write`: where it returns, the result is 0, it has sought once, to offset 10, and
-- every byte read is written to the output file, in order; otherwise the same holds of the bytes, or
-- the last ones are in a write that is not answered yet, or in one that was short or failed.
-- `file_scatter_gather`, where it returns, hands to `writev` what was read, written over what its
-- buffers held, and as many bytes as they hold. `fileio_readv_writev` on texts without a NUL, where
-- all calls succeed and the file gives back what was written to it, prints these texts, in order.
pub bytes_moved :
    (size : ℕ) (strs : List (List ℕ)) (rs : List Reply) (buf readbuf : List (List ℕ))
    (fd n c fd' c' : ℕ)
    → Texts buf
    → Fits readbuf (with_nul buf)
    → FileCopy.FilePost (file_open_read_write size rs [])
      × ScatterPost strs (file_scatter_gather strs rs [])
      × (printed (trace_of (fileio_readv_writev buf readbuf (good_answers fd n c fd' c' buf) []))
          ≡ buf)
bytes_moved size strs rs buf readbuf fd n c fd' c' texts fits =
    (file_copied size rs, scattered strs rs, lines_return buf readbuf fd n c fd' c' texts fits)
