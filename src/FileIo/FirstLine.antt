-- ===== src/FileIo/FirstLine.antt =====
-- The loop over `fgetc` against a plain description of a line.
use linuxapi.Base.{
  ℕ, zero, suc, ◌-◌, ◌==◌, ◌≡◌, refl, ◌∙◌, ℤ, pos, minus_one, ◌==ℤ◌, false, Bool-cases, inl, inr,
  List, [], ◌∷◌, ◌++◌, append-nil, append_assoc, length, take, length-append, if◌then◌else◌, arith,
}
use linuxapi.Posix.{
  Reply, Errno, fail, val, failed, ev, Trace, Outcome, ret, stop, trace_of, call, call_or,
}
use linuxapi.Posix.Rules.{bind_rule, call_or_rule}
use linuxapi.FileIo.{Call, fopen, text, delimiter, read_chars, terminated, fileio_stdio_read}
use linuxapi.FileIo.WholeFile.{texts}

-- The part of a list before the first newline.
abbrev pub before_newline : List ℕ → List ℕ
before_newline [] = []
before_newline (x ∷ xs) = if x == delimiter then [] else x ∷ before_newline xs

-- The answers of `fgetc` on a stream with these characters and the end behind them.
abbrev pub stream : List ℕ → Errno → List Reply → List Reply
stream [] eof rs = fail eof ∷ rs
stream (x ∷ xs) eof rs = val x ∷ stream xs eof rs

take_init : (xs ys : List ℕ) → take (length xs) (xs ++ ys) ≡ xs
take_init [] ys = refl
take_init (x ∷ xs) ys = rw (take_init xs ys) refl

take_last : (xs : List ℕ) (x : ℕ) → take (length (xs ++ (x ∷ [])) - 1) (xs ++ (x ∷ [])) ≡ xs
take_last xs x =
    let shorter : length (xs ++ (x ∷ [])) - 1 ≡ length xs =
      omega (arith, length-append xs (x ∷ [])) in
    rw shorter (take_init xs (x ∷ []))

abbrev Line : (left : ℕ) (cs stored : List ℕ) → List (List ℕ) → Outcome Call (List ℕ × ℤ) → Type 0
Line left cs stored before (ret line rs log) =
    (terminated line ≡ stored ++ before_newline (take left cs)) × (texts log ≡ before)
Line left cs stored before (stop e log) = ⊥

line_longer :
    (left x : ℕ) (cs stored : List ℕ) (before : List (List ℕ)) (o : Outcome Call (List ℕ × ℤ))
    → (x == delimiter) ≡ false
    → Line left cs (stored ++ (x ∷ [])) before o
    → Line (suc left) (x ∷ cs) stored before o
line_longer left x cs stored before (ret line rs log) other h =
    (h.0 ∙ rw (other, append_assoc stored (x ∷ []) (before_newline (take left cs))) refl, h.1)
line_longer left x cs stored before (stop e log) other h = h

read_chars_lem :
    (left : ℕ) (cs stored : List ℕ) (ch : ℤ) (eof : Errno) (rs : List Reply) (log : Trace Call)
    → (ch ==ℤ pos delimiter) ≡ false
    → Line left cs stored (texts log) (read_chars left stored ch (stream cs eof rs) log)
unfolding read_chars terminated call
read_chars_lem zero cs stored ch eof rs log other = (rw (other, append-nil stored) refl, refl)
read_chars_lem (suc left) [] stored ch eof rs log other = (rw (append-nil stored) refl, refl)
read_chars_lem (suc left) (x ∷ cs) stored ch eof rs log other = elim (Bool-cases (x == delimiter)) [
  | inl newline ↦
      rw (Line, newline) ((rw (newline, take_last stored x, append-nil stored) refl, refl))
  | inr char ↦
      rw (Line, char)
        (line_longer left x cs stored (texts log) _ char
          (read_chars_lem left cs (stored ++ (x ∷ [])) (pos x) eof rs _ char))
]

-- `fileio_stdio_read`, on a file that holds the characters `cs`, prints what stands before the first
-- newline of its first nine characters, up to a NUL, whatever the last `fclose` answers.
pub reads_first_line :
    (fp : Reply) (cs : List ℕ) (eof : Errno) (rs : List Reply)
    → failed fp ≡ false
    → texts (trace_of (fileio_stdio_read (fp ∷ stream cs eof rs) []))
      ≡ text (before_newline (take 9 cs)) ∷ []
unfolding fileio_stdio_read call_or call
reads_first_line fp cs eof rs good = rw good (
    bind_rule (Line 9 cs [] []) (λ o. texts (trace_of o) ≡ text (before_newline (take 9 cs)) ∷ []) _
      _ (read_chars_lem 9 cs [] minus_one eof rs (ev (fopen "test" "r") fp ∷ []) refl)
      (λ line rs1 log h.
        call_or_rule (λ o. texts (trace_of o) ≡ text (before_newline (take 9 cs)) ∷ []) _ _ _ rs1 _
          (rw (h.0, h.1) refl) (λ r bad. rw (h.0, h.1) refl) (λ r rs2 lt ok. rw (h.0, h.1) refl))
      (λ e log h. absurd h))
