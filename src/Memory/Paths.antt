-- ===== src/Memory/Paths.antt =====
-- The paths that are built on the stack.
use linuxapi.Base.{◌+◌, ltb, ◌≡◌, ◌⊎◌, refl, inl, inr, ℕ, true, List, [], ◌∷◌, ◌++◌, length, arith}
use linuxapi.Posix.{
  LastFailed, Reply, ev, Trace, blocked, err_exit, overrun, Outcome, ret, stop, failed, guard,
}
use linuxapi.Posix.Rules.{call_rule, call_or_rule, guard_rule}
use linuxapi.Memory.{
  Call, alloca, open_file, strdup, strdupa, etc, name_size, strcpy, strcat, etc_path, mem_alloca,
  mem_variable_len_array,
}

-- The paths of the calls of `open`.
abbrev pub paths : Trace Call → List (List ℕ)
paths [] = []
paths (ev (open_file name) r ∷ log) = name ∷ paths log
paths (ev _ r ∷ log) = paths log

-- A copy of a text for which there was no memory.
abbrev pub NoCopy : Trace Call → Type 0
NoCopy [] = ⊥
NoCopy (ev (strdup s) r ∷ log) = (failed r ≡ true) ⊎ NoCopy log
NoCopy (ev (strdupa s) r ∷ log) = (failed r ≡ true) ⊎ NoCopy log
NoCopy (ev c r ∷ log) = NoCopy log

-- It opens one file, or ends after a failed call of `open` or `alloca`, or reads a copy that is not
-- there.
abbrev pub PathPost : (argv1 : List ℕ) → Outcome Call (Unit {0}) → Type 0
PathPost argv1 (ret u rs log) = paths log ≡ (etc ++ argv1) ∷ []
PathPost argv1 (stop overrun log) = NoCopy log
PathPost argv1 (stop (blocked c) log) = Unit {0}
PathPost argv1 (stop (err_exit name) log) = LastFailed log
PathPost argv1 (stop e log) = ⊥

-- The two copies fit into the buffer.
etc_path_lem :
    (argv1 : List ℕ) (rs : List Reply) (log : Trace Call)
    → etc_path argv1 rs log ≡ ret (etc ++ argv1) rs log
unfolding etc_path strcpy strcat guard
etc_path_lem argv1 rs log = rw (fits (length argv1), fits_all (length argv1)) refl
  where
    fits : (n : ℕ) → ltb 5 (5 + n + 1) ≡ true
    fits n = ground arith

    fits_all : (n : ℕ) → ltb (5 + n) (5 + n + 1) ≡ true
    fits_all n = ground arith

-- `mem_alloca` and `mem_variable_len_array`, for every argument and whatever the answers: the path fits
-- into the buffer, and a program that returns has opened /etc/ and the argument, and nothing else.
-- `mem_alloca` reads where nothing is only after a copy for which there was no memory. `errexit` ends
-- them only after a call that has failed.
pub paths_fit :
    (argv1 test : List ℕ) (rs : List Reply)
    → PathPost argv1 (mem_alloca argv1 test rs [])
      × PathPost argv1 (mem_variable_len_array argv1 rs [])
unfolding mem_alloca mem_variable_len_array
paths_fit argv1 test rs = (
  call_or_rule Q _ _ _ rs [] tt (λ a bad. bad)
      (λ a rs1 lt1 oka. rw (etc_path_lem argv1 rs1 (ev (alloca (name_size argv1)) a ∷ [])) (
        call_or_rule Q _ _ _ rs1 _ tt (λ fd bad. bad)
          (λ fd rs2 lt2 okfd. call_rule Q _ _ rs2 _ tt (λ s rs3 lt3.
            call_rule Q _ _ rs3 _ tt (λ h rs4 lt4.
              guard_rule Q _ _ _ rs4 _ (λ bad. inr (inl bad))
                (λ good. guard_rule Q _ _ _ rs4 _ (λ bad. inl bad) (λ good'. refl))))))),
  rw (etc_path_lem argv1 rs [])
      (call_or_rule Q _ _ _ rs [] tt (λ fd bad. bad) (λ fd rs1 lt1 okfd. refl)),
)
  where
    Q : Outcome Call (Unit {0}) → Type 0
    Q = PathPost argv1
