-- ===== src/Vector/Scatter.antt =====
-- What is written after a scattered read, and what comes back.
use linuxapi.Base.{
  ℕ, suc, ◌≡◌, refl, sym, ap, ◌∙◌, List, [], ◌∷◌, ◌++◌, length, take, drop, Bool, true, false,
  if◌then◌else◌,
}
use linuxapi.Posix.{
  LastFailed, Reply, val, payload, ev, Trace, blocked, err_exit, Outcome, ret, stop, Sys, emit,
  pure, result, ◌>>=◌,
}
use linuxapi.Posix.Rules.{call_rule, call_or_rule}
use linuxapi.Vector.{
  Call, open_read, open_write, write_strs, print_short, print_short_write, writev, readv, sizes,
  scatter, is_short, total_required, file_scatter_gather,
}

-- The bytes of buffers, one after the other.
abbrev pub gather : List (List ℕ) → List ℕ
gather [] = []
gather (b ∷ bs) = b ++ gather bs

-- `d` written over `b` from the start.
abbrev pub overlay : (b d : List ℕ) → List ℕ
overlay [] d = []
overlay (x ∷ b) [] = x ∷ b
overlay (x ∷ b) (y ∷ d) = y ∷ overlay b d

take-drop-overlay : (b d : List ℕ) → take (length b) d ++ drop (length d) b ≡ overlay b d
take-drop-overlay [] [] = refl
take-drop-overlay [] (y ∷ d) = refl
take-drop-overlay (x ∷ b) [] = refl
take-drop-overlay (x ∷ b) (y ∷ d) = ap (λ l. y ∷ l) (take-drop-overlay b d)

overlay-nil : (b : List ℕ) → overlay b [] ≡ b
overlay-nil [] = refl
overlay-nil (x ∷ b) = refl

overlay-append :
    (b c d : List ℕ) → overlay (b ++ c) d ≡ overlay b d ++ overlay c (drop (length b) d)
overlay-append [] c d = refl
overlay-append (x ∷ b) c [] = ap (λ l. (x ∷ b) ++ l) (sym (overlay-nil c))
overlay-append (x ∷ b) c (y ∷ d) = ap (λ l. y ∷ l) (overlay-append b c d)

length-overlay : (b d : List ℕ) → length (overlay b d) ≡ length b
length-overlay [] d = refl
length-overlay (x ∷ b) [] = refl
length-overlay (x ∷ b) (y ∷ d) = ap suc (length-overlay b d)

gather-scatter : (bs : List (List ℕ)) (d : List ℕ) → gather (scatter bs d) ≡ overlay (gather bs) d
unfolding scatter
gather-scatter [] d = refl
gather-scatter (b ∷ bs) d =
    rw
      (take-drop-overlay b d, gather-scatter bs (drop (length b) d), overlay-append b (gather bs) d)
      refl

-- The bytes that `readv` has given last, and those handed to `writev` last.
abbrev pub got : Trace Call → List ℕ
got [] = []
got (ev (readv fd n) r ∷ log) = payload r
got (ev _ r ∷ log) = got log

abbrev pub offered : Trace Call → List ℕ
offered [] = []
offered (ev (writev fd bs) r ∷ log) = gather bs
offered (ev _ r ∷ log) = offered log

-- What was read stands over what the buffers held, and all of the buffers is handed to `writev`.
abbrev pub ScatterPost : (strs : List (List ℕ)) → Outcome Call ℕ → Type 0
ScatterPost strs (ret n rs log) =
    (n ≡ 0)
    × (offered log ≡ overlay (gather strs) (got log))
    × (length (offered log) ≡ length (gather strs))
ScatterPost strs (stop (blocked c) log) = Unit {0}
ScatterPost strs (stop (err_exit name) log) = LastFailed log
ScatterPost strs (stop e log) = ⊥

-- The two messages change nothing.
said_rule :
    {B : Type 0} (Q : Outcome Call B → Type 0) (test : Bool) (c : Call) (k : Unit {0} → Sys Call B)
    (rs : List Reply) (log : Trace Call)
    → Q (k tt rs (ev c (val 0) ∷ log))
    → Q (k tt rs log)
    → Q (((if test then emit c else pure tt) >>= k) rs log)
said_rule Q true c k rs log said quiet = said
said_rule Q false c k rs log said quiet = quiet

write_strs_lem :
    (strs : List (List ℕ)) (d : List ℕ) (rs : List Reply) (log : Trace Call)
    → got log ≡ d
    → ScatterPost strs (write_strs (scatter strs d) rs log)
unfolding write_strs
write_strs_lem strs d rs log e =
    call_or_rule Q _ _ _ rs log tt (λ r bad. bad)
      (λ w rs1 lt1 ok1. call_rule Q _ _ rs1 _ tt (λ n rs2 lt2.
        said_rule Q (is_short n total_required) print_short_write (λ u. pure 0) rs2
          (ev (writev (result w) (scatter strs d)) n ∷ ev open_write w ∷ log) (refl, whole, same)
          (refl, whole, same)))
  where
    Q : Outcome Call ℕ → Type 0
    Q = ScatterPost strs

    whole : gather (scatter strs d) ≡ overlay (gather strs) (got log)
    whole = gather-scatter strs d ∙ ap (overlay (gather strs)) (sym e)

    same : length (gather (scatter strs d)) ≡ length (gather strs)
    same = ap length (gather-scatter strs d) ∙ length-overlay (gather strs) d

pub scattered :
    (strs : List (List ℕ)) (rs : List Reply) → ScatterPost strs (file_scatter_gather strs rs [])
unfolding file_scatter_gather
scattered strs rs =
    call_or_rule Q _ _ _ rs [] tt (λ r bad. bad)
      (λ fd rs1 lt1 ok1.
        call_or_rule Q _ _ _ rs1 _ tt (λ r bad. bad)
          (λ num rs2 lt2 ok2.
            said_rule Q (is_short num total_required) print_short
              (λ u. write_strs (scatter strs (payload num))) rs2
              (ev (readv (result fd) (sizes strs)) num ∷ ev open_read fd ∷ [])
              (write_strs_lem strs (payload num) rs2 _ refl)
              (write_strs_lem strs (payload num) rs2 _ refl)))
  where
    Q : Outcome Call ℕ → Type 0
    Q = ScatterPost strs
