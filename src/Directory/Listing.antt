-- ===== src/Directory/Listing.antt =====
-- What is listed, what the walk shows, and how a run ends.
use linuxapi.Base.{
  ℕ, ◌*◌, ◌/◌, ◌%◌, ◌&&◌, Bool, ◌≡◌, ◌⊎◌, refl, sym, ap, ◌∙◌, inl, inr, true, false, Bool-cases,
  String, ◌||◌, ◌==◌, List, [], ◌∷◌, ◌++◌, append_assoc, append-nil, length, drop, if◌then◌else◌,
  arith,
}
use mathlib.Core.Bool.{not}
use linuxapi.Posix.{
  LastFailed, Reply, sender, payload, failed, ev, Trace, Stop, blocked, err_exit, overrun, Sys,
  Outcome, ret, stop, ◌>>=◌, val, call,
}
use linuxapi.Posix.Loop.{Round, repeat_rule}
use linuxapi.Posix.Rules.{bind_rule, call_rule, call_or_rule, guard_rule}
use linuxapi.Directory.{
  Line, labelled, numbered, named, Call, readdir, err_msg, print_entry, print_line, Visit,
  type_label, dirfunc, dirfuncs, attempt, is_dots, read_entry, path_parts, use_directory,
  make_and_use, directory_link, full_path, base_offset, has_slash,
}

abbrev pub same_name : List ℕ → List ℕ → Bool
same_name [] [] = true
same_name (a ∷ s) (b ∷ s') = a == b && same_name s s'
same_name s s' = false

-- "." or "..", where 46 is the dot
abbrev pub dot_name : List ℕ → Bool
dot_name s = same_name s (46 ∷ []) || same_name s (46 ∷ 46 ∷ [])

is_dots-dot_name : (s : List ℕ) → is_dots s ≡ dot_name s
unfolding is_dots
is_dots-dot_name [] = refl
is_dots-dot_name (a ∷ []) = ground arith
is_dots-dot_name (a ∷ b ∷ []) = ground arith
is_dots-dot_name (a ∷ b ∷ c ∷ s) = ground arith

-- The entries that `readdir` has given, but for "." and "..", and those printed, newest first.
abbrev pub entries : Trace Call → List (ℕ × List ℕ)
entries [] = []
entries (ev readdir r ∷ log) =
    if failed r
    then entries log
    else if dot_name (payload r)
    then entries log
    else (sender r, payload r) ∷ entries log
entries (ev _ r ∷ log) = entries log

abbrev pub listed : Trace Call → List (ℕ × List ℕ)
listed [] = []
listed (ev (print_entry i s) r ∷ log) = (i, s) ∷ listed log
listed (ev _ r ∷ log) = listed log

-- The lines of `dirfunc`, in order, and what they must be.
abbrev pub walked : Trace Call → List Line
walked [] = []
walked (ev (print_line l) r ∷ log) = walked log ++ (l ∷ [])
walked (ev _ r ∷ log) = walked log

-- S_IFREG, S_IFDIR, S_IFCHR, S_IFBLK and S_IFLNK, with the labels of the program
abbrev pub labels : List (ℕ × String)
labels =
    (32768, "file: ")
    ∷ (16384, "directory: ")
    ∷ (8192, "chracter device: ")
    ∷ (24576, "block device: ")
    ∷ (40960, "symbolic link: ")
    ∷ []

abbrev pub label_in : List (ℕ × String) → (format : ℕ) → String
label_in [] format = "---"
label_in ((f, label) ∷ more) format = if format == f then label else label_in more format

-- The label for the bits of S_IFMT in a mode
abbrev pub label_of : (st_mode : ℕ) → String
label_of st_mode = label_in labels ((st_mode / 4096) % 16 * 4096)

scaled : (t k : ℕ) → (t * 4096 == k * 4096) ≡ (t == k)
scaled t k = ground arith

type_label-label_of : (st_mode : ℕ) → type_label st_mode ≡ label_of st_mode
unfolding type_label
type_label-label_of st_mode = go ((st_mode / 4096) % 16)
  where
    go :
        (t : ℕ)
        → (if t == 8
            then "file: "
            else if t == 4
            then "directory: "
            else if t == 2
            then "chracter device: "
            else if t == 6
            then "block device: "
            else if t == 10
            then "symbolic link: "
            else "---")
          ≡ label_in labels (t * 4096)
    go t = rw (scaled t 8, scaled t 4, scaled t 2, scaled t 6, scaled t 10) refl

abbrev pub shown : List Visit → List Line
shown [] = []
shown (v ∷ vs) =
    labelled (label_of v.st_mode) ∷ numbered v.st_ino ∷ named (drop v.base v.pathname) ∷ shown vs

abbrev pub Says : String → Trace Call → Type 0
Says m (ev (err_msg m') r ∷ log) = m' ≡ m
Says m log = ⊥

abbrev Fine : List Line → Trace Call → Type 0
Fine ls log = (listed log ≡ entries log) × (walked log ≡ ls)

-- A run returns only where `opendir` has failed. It ends otherwise by `errExit` after a failed call, or
-- where something is read or freed that must not be: the text of a failed `getcwd`; or one of the
-- two copies, when all that was visited has been shown.
abbrev pub LinkPost : List Visit → Outcome Call (Unit {0}) → Type 0
LinkPost visited (ret u rs log) = (listed log ≡ entries log) × Says "opendir()" log
LinkPost visited (stop overrun log) =
    (listed log ≡ entries log) × (Says "getcwd()" log ⊎ (walked log ≡ shown visited))
LinkPost visited (stop (err_exit m) log) = (listed log ≡ entries log) × LastFailed log
LinkPost visited (stop (blocked c) log) = listed log ≡ entries log
LinkPost visited (stop e log) = ⊥

-- A call whose failure is only reported.
attempt_rule :
    (S : Trace Call → Type 0) {B : Type 0} (Q : Outcome Call B → Type 0) (c : Call) (m : String)
    (k : Reply → Sys Call B) (rs : List Reply) (log : Trace Call)
    → S log
    → ((r : Reply) (l : Trace Call) → S l → S (ev c r ∷ l))
    → ((l : Trace Call) → S l → S (ev (err_msg m) (val 0) ∷ l))
    → Q (stop (blocked c) log)
    → ((r : Reply) (rs' : List Reply) (log' : Trace Call)
        → S log'
        → (failed r ≡ true → Says m log')
        → Q (k r rs' log'))
    → Q ((attempt c m >>= k) rs log)
unfolding attempt call
attempt_rule S Q c m k [] log s step says pending next = pending
attempt_rule S Q c m k (r ∷ rs) log s step says pending next = elim (Bool-cases (failed r)) [
  | inl bad ↦ rw bad (next r rs _ (says _ (step r log s)) (λ b. refl))
  | inr good ↦ rw good (next r rs _ (step r log s) (λ b. absurd (ground (arith, good, b))))
]

abbrev Entered : Outcome Call (Unit {0}) → Type 0
Entered (ret u rs log) = Fine [] log
Entered (stop (blocked c) log) = Fine [] log
Entered (stop e log) = ⊥

abbrev EntryInv : Unit {0} → List Reply → Trace Call → Type 0
EntryInv u rs log = Fine [] log

read_entry_lem :
    (u : Unit {0}) (rs : List Reply) (log : Trace Call)
    → EntryInv u rs log
    → Round EntryInv Entered (length rs) (read_entry u rs log)
unfolding read_entry
read_entry_lem u rs log h =
    call_rule (Round EntryInv Entered (length rs)) _ _ rs log h (λ r rest lt.
      elim (Bool-cases (failed r)) [
        | inl bad ↦ rw bad (rw bad h.0, h.1)
        | inr good ↦
            rw (good, is_dots-dot_name (payload r))
              (elim (Bool-cases (dot_name (payload r))) [
                | inl dots ↦ rw dots ((rw (good, dots) h.0, h.1), lt)
                | inr more ↦
                    rw more ((rw (good, more) (ap (λ l. (sender r, payload r) ∷ l) h.0), h.1), lt)
              ])
      ])

-- The walk adds the lines of what it visits.
dirfuncs_rule :
    {B : Type 0} (Q : Outcome Call B → Type 0) (vs : List Visit) (ls : List Line)
    (k : Unit {0} → Sys Call B) (rs : List Reply) (log : Trace Call)
    → Fine ls log
    → ((log' : Trace Call) → Fine (ls ++ shown vs) log' → Q (k tt rs log'))
    → Q ((dirfuncs vs >>= k) rs log)
unfolding dirfuncs dirfunc
dirfuncs_rule Q [] ls k rs log h next = next log (h.0, h.1 ∙ sym (append-nil ls))
dirfuncs_rule Q (v ∷ vs) ls k rs log h next =
    dirfuncs_rule Q vs (((ls ++ (a ∷ [])) ++ (b ∷ [])) ++ (c ∷ [])) k rs _
      (
        h.0,
        ap (λ l. ((l ++ (labelled (type_label v.st_mode) ∷ [])) ++ (b ∷ [])) ++ (c ∷ [])) h.1
            ∙ ap (λ x. ((ls ++ (labelled x ∷ [])) ++ (b ∷ [])) ++ (c ∷ []))
                (type_label-label_of v.st_mode),
      )
      (λ log' f. next log' (f.0, f.1 ∙ joined ls a b c (shown vs)))
  where
    a : Line
    a = labelled (label_of v.st_mode)

    b : Line
    b = numbered v.st_ino

    c : Line
    c = named (drop v.base v.pathname)

    joined :
        (ls : List Line) (x y z : Line) (r : List Line)
        → (((ls ++ (x ∷ [])) ++ (y ∷ [])) ++ (z ∷ [])) ++ r ≡ ls ++ (x ∷ y ∷ z ∷ r)
    joined ls x y z r = simp append_assoc

module _ (visited : List Visit) where
  abbrev Q : Outcome Call (Unit {0}) → Type 0
  Q = LinkPost visited

  one_slash : (n : Reply) → (failed n || not (base_offset full_path == 0)) ≡ false → ⊥
  unfolding base_offset has_slash
  one_slash n h = ground arith

  path_parts_lem :
      (rs : List Reply) (log : Trace Call)
      → Fine (shown visited) log
      → Q (path_parts full_path rs log)
  unfolding path_parts
  path_parts_lem rs log h = call_rule Q _ _ rs log h.0 (λ p rs1 lt1.
      call_rule Q _ _ rs1 _ h.0 (λ n rs2 lt2.
        guard_rule Q _ _ _ rs2 _ (λ bad. (h.0, inr h.1))
          (λ good.
            guard_rule Q _ _ _ rs2 _ (λ bad. (h.0, inr h.1))
              (λ whole. absurd (one_slash n whole)))))

  use_directory_lem :
      (rs : List Reply) (log : Trace Call) → Fine [] log → Q (use_directory visited rs log)
  unfolding use_directory
  use_directory_lem rs log h =
      bind_rule Entered Q _ _ (repeat_rule EntryInv Entered read_entry read_entry_lem tt rs log h)
        (λ u rs1 log1 h1.
          attempt_rule (Fine []) Q _ _ _ rs1 log1 h1 (λ r l f. f) (λ l f. f) h1.0
            (λ c rs2 log2 h2 b. dirfuncs_rule Q visited [] _ rs2 log2 h2 (λ log3 h3.
              attempt_rule (Fine (shown visited)) Q _ _ _ rs2 log3 h3 (λ r l f. f) (λ l f. f) h3.0
                (λ n rs4 log4 h4 b'.
                  call_or_rule Q _ _ _ rs4 log4 h4.0 (λ r bad. (h4.0, bad))
                    (λ d rs5 lt5 ok5.
                      call_or_rule Q _ _ _ rs5 _ h4.0 (λ r bad. (h4.0, bad))
                        (λ e rs6 lt6 ok6.
                          call_or_rule Q _ _ _ rs6 _ h4.0 (λ r bad. (h4.0, bad))
                            (λ f rs7 lt7 ok7. path_parts_lem rs7 _ h4)))))))
        halts
    where
      halts : (e : Stop Call) (log : Trace Call) → Entered (stop e log) → Q (stop e log)
      halts (blocked c) log f = f.0
      halts e log f = absurd f

  make_and_use_lem :
      (rs : List Reply) (log : Trace Call) → Fine [] log → Q (make_and_use visited rs log)
  unfolding make_and_use
  make_and_use_lem rs log h =
      attempt_rule (Fine []) Q _ _ _ rs log h (λ r l f. f) (λ l f. f) h.0
        (λ m rs1 log1 h1 b. call_rule Q _ _ rs1 log1 h1.0 (λ s rs2 lt2.
          attempt_rule (Fine []) Q _ _ _ rs2 _ h1 (λ r l f. f) (λ l f. f) h1.0
            (λ d rs3 log3 h3 says. elim (Bool-cases (failed d)) [
              | inl bad ↦ rw bad (h3.0, says bad)
              | inr good ↦ rw good (use_directory_lem rs3 log3 h3)
            ])))

  -- A call that is only reported, from a state where nothing is listed or shown.
  plain_rule :
      (c : Call) (m : String) (k : Reply → Sys Call (Unit {0})) (rs : List Reply) (log : Trace Call)
      → Fine [] log
      → ((r : Reply) (l : Trace Call) → Fine [] l → Fine [] (ev c r ∷ l))
      → ((r : Reply) (rs' : List Reply) (log' : Trace Call) → Fine [] log' → Q (k r rs' log'))
      → Q ((attempt c m >>= k) rs log)
  plain_rule c m k rs log h step next =
      attempt_rule (Fine []) Q c m k rs log h step (λ l f. f) h.0
        (λ r rs' log' h' says. next r rs' log' h')

-- `directory_link`, whatever the kernel answers. It prints, in order, exactly the entries that `readdir`
-- gives, but for "." and "..". It returns only where `opendir` has failed. It ends otherwise by
-- `errExit` after a call that has failed; or by a use of what is no text or no block: after a failed
-- `getcwd`, or, when everything visited has been shown, with the kind, the inode number and the name of
-- each, by `free` of what `dirname` or `basename` gave.
pub directory_listed :
    (stale : List ℕ) (visited : List Visit) (rs : List Reply)
    → LinkPost visited (directory_link stale visited rs [])
unfolding directory_link
directory_listed stale visited rs =
    call_or_rule P _ _ _ rs [] refl (λ r bad. (refl, bad))
      (λ fd rs1 lt1 ok1.
        plain_rule visited _ _ _ rs1 _ (refl, refl) (λ r l f. f)
          (λ a rs2 log2 h2.
            plain_rule visited _ _ _ rs2 log2 h2 (λ r l f. f)
              (λ b rs3 log3 h3.
                plain_rule visited _ _ _ rs3 log3 h3 (λ r l f. f)
                  (λ c rs4 log4 h4.
                    plain_rule visited _ _ _ rs4 log4 h4 (λ r l f. f)
                      (λ d rs5 log5 h5.
                        plain_rule visited _ _ _ rs5 log5 h5 (λ r l f. f)
                          (λ e rs6 log6 h6.
                            plain_rule visited _ _ _ rs6 log6 h6 (λ r l f. f)
                              (λ p rs7 log7 h7.
                                attempt_rule (Fine []) P _ _ _ rs7 _ h7 (λ r l f. f) (λ l f. f) h7.0
                                  (λ w rs8 log8 h8 says.
                                    guard_rule P _ _ _ rs8 log8 (λ bad. (h8.0, inl (says bad)))
                                      (λ good. make_and_use_lem visited rs8 _ h8)))))))))
  where
    P : Outcome Call (Unit {0}) → Type 0
    P = LinkPost visited
