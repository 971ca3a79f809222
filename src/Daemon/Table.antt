-- ===== src/Daemon/Table.antt =====
-- make_daemon of api3/process_manage.c, on the table of the open files of a process: the place in the
-- list is the descriptor. `open` and `dup` give the lowest descriptor that is free.
use linuxapi.Base.{
  ℕ, zero, suc, ◌+◌, ltb, leb, ◌==◌, ◌&&◌, ◌≡◌, refl, ◌∙◌, Bool-cases, Bool, true, false, Option,
  none, some, String, List, [], ◌∷◌, ◌++◌, ◌⊎◌, inl, inr, if◌then◌else◌, arith,
}
use linuxapi.Posix.{Reply, fail, val, chunk, chunk_from, failed}

pub data File : Type 0 where
  dev_null : File
  inherited : ℕ → File

abbrev pub Table : Type 0
Table = List (Option File)

abbrev pub file_at : ℕ → Table → Option File
file_at i [] = none
file_at zero (f ∷ t) = f
file_at (suc i) (f ∷ t) = file_at i t

unfoldable pub close : ℕ → Table → Table
close i [] = []
close zero (f ∷ t) = none ∷ t
close (suc i) (f ∷ t) = f ∷ close i t

-- Into the first free place.
unfoldable pub place : File → Table → Table
place g [] = some g ∷ []
place g (none ∷ t) = some g ∷ t
place g (some f ∷ t) = some f ∷ place g t

-- `dup(0)`, which fails where 0 is not open.
unfoldable pub dup0 : Table → Table
dup0 t = elim (file_at 0 t) [ none ↦ t | some f ↦ place f t ]

-- `NR_OPEN`
abbrev pub nr_open : ℕ
nr_open = 1024

-- The loop that closes, with the rounds that are left.
unfoldable pub close_from : (left i : ℕ) → Table → Table
close_from zero i t = t
close_from (suc left) i t = close_from left (suc i) (close i t)

-- How a process goes on: ended by errexit, with the session as it was; the parent, ended; or the
-- daemon, in its own session and in /.
pub data Course : Type 0 where
  error_exit : String → Course
  parent_exits : Course
  daemon : Table → Course

-- `opens` tells whether /dev/null can be opened; the code does not ask.
unfoldable pub redirect : (opens : Bool) → Table → Table
redirect true t = dup0 (dup0 (place dev_null t))
redirect false t = dup0 (dup0 t)

-- A positive answer to `fork`.
abbrev pub is_parent : Reply → Bool
is_parent (fail e) = false
is_parent (val zero) = false
is_parent r = true

unfoldable pub child_course : (setsid chdir : Reply) (opens : Bool) → Table → Course
child_course setsid chdir opens t =
    if failed setsid
    then error_exit "setsid"
    else if failed chdir
    then error_exit "chdir"
    else daemon (redirect opens (close_from nr_open 0 t))

unfoldable pub make_daemon : (fork setsid chdir : Reply) (opens : Bool) → Table → Course
make_daemon (fail e) setsid chdir opens t = error_exit "fork"
make_daemon (val zero) setsid chdir opens t = child_course setsid chdir opens t
make_daemon r setsid chdir opens t = parent_exits

some-ne-none : {f : File} → some f ≡ none → ⊥
some-ne-none e = cc

file_at-close :
    (j i : ℕ) (t : Table) → file_at j (close i t) ≡ (if j == i then none else file_at j t)
unfolding close
file_at-close j i [] = ground arith
file_at-close zero zero (f ∷ t) = refl
file_at-close zero (suc i) (f ∷ t) = ground arith
file_at-close (suc j) zero (f ∷ t) = ground arith
file_at-close (suc j) (suc i) (f ∷ t) = ground (arith, file_at-close j i t)

file_at-close_from :
    (left i j : ℕ) (t : Table)
    → file_at j (close_from left i t) ≡ (if leb i j && ltb j (i + left) then none else file_at j t)
unfolding close_from
file_at-close_from zero i j t = ground arith
file_at-close_from (suc left) i j t =
    ground (arith, file_at-close_from left (suc i) j (close i t), file_at-close j i t)

-- A free place at the end changes nothing, and three files may stand in the first three places.
padded : (i : ℕ) (t : Table) → file_at i (t ++ (none ∷ [])) ≡ file_at i t
padded zero [] = refl
padded (suc i) [] = refl
padded zero (f ∷ t) = refl
padded (suc i) (f ∷ t) = padded i t

three_files :
    (i : ℕ) (t : Table)
    → file_at i (some dev_null ∷ some dev_null ∷ some dev_null ∷ t)
      ≡ (if ltb i 3 then some dev_null else file_at i (none ∷ none ∷ none ∷ t))
three_files zero t = refl
three_files (suc zero) t = refl
three_files (suc (suc zero)) t = refl
three_files (suc (suc (suc i))) t = ground arith

abbrev Redirected : ℕ → Table → Type 0
Redirected i t =
    file_at i (dup0 (dup0 (place dev_null t))) ≡ (if ltb i 3 then some dev_null else file_at i t)

-- Where the first three places are free, /dev/null comes into them.
three_places :
    (i : ℕ) (t : Table)
    → file_at 0 t ≡ none
    → file_at 1 t ≡ none
    → file_at 2 t ≡ none
    → Redirected i t
unfolding dup0 place
three_places i [] a b c =
    rw (← padded i [], ← padded i (none ∷ []), ← padded i (none ∷ none ∷ [])) (three_files i [])
three_places i (none ∷ []) a b c =
    rw (← padded i (none ∷ []), ← padded i (none ∷ none ∷ [])) (three_files i [])
three_places i (none ∷ none ∷ []) a b c = rw (← padded i (none ∷ none ∷ [])) (three_files i [])
three_places i (none ∷ none ∷ none ∷ t) a b c = three_files i t
three_places i (some f ∷ t) a b c = absurd (some-ne-none a)
three_places i (none ∷ some f ∷ t) a b c = absurd (some-ne-none b)
three_places i (none ∷ none ∷ some f ∷ t) a b c = absurd (some-ne-none c)

-- What the daemon holds at `i`, if its parent held `t`.
abbrev pub held_by_daemon : (opens : Bool) (i : ℕ) → Table → Option File
held_by_daemon opens i t =
    if ltb i 3
    then (if opens then some dev_null else none)
    else if ltb i nr_open
    then none
    else file_at i t

abbrev pub CoursePost : (fork setsid chdir : Reply) (opens : Bool) → Table → Course → Type 0
CoursePost fork setsid chdir opens t (error_exit name) =
    (name ≡ "fork") × (failed fork ≡ true)
    ⊎ (name ≡ "setsid") × (failed setsid ≡ true)
    ⊎ (name ≡ "chdir") × (failed chdir ≡ true)
CoursePost fork setsid chdir opens t parent_exits = is_parent fork ≡ true
CoursePost fork setsid chdir opens t (daemon t') =
    (is_parent fork ≡ false)
    × (failed setsid ≡ false)
    × (failed chdir ≡ false)
    × ((i : ℕ) → file_at i t' ≡ held_by_daemon opens i t)

dup0_nothing : (t : Table) → file_at 0 t ≡ none → dup0 t ≡ t
unfolding dup0
dup0_nothing [] h = refl
dup0_nothing (none ∷ t) h = refl
dup0_nothing (some f ∷ t) h = absurd (some-ne-none h)

module _ (t : Table) where
  abbrev closed : Table
  closed = close_from nr_open 0 t

  file_at-closed :
      (i : ℕ) → file_at i closed ≡ (if leb 0 i && ltb i (0 + nr_open) then none else file_at i t)
  file_at-closed i = file_at-close_from nr_open 0 i t

  redirected : (opens : Bool) (i : ℕ) → file_at i (redirect opens closed) ≡ held_by_daemon opens i t
  unfolding redirect
  redirected true i =
      three_places i closed (file_at-closed 0) (file_at-closed 1) (file_at-closed 2)
      ∙ rw (file_at-closed i) (ground arith)
  redirected false i =
      rw
        (
          dup0_nothing closed (file_at-closed 0),
          dup0_nothing closed (file_at-closed 0),
          file_at-closed i,
        )
        (ground arith)

-- `make_daemon`, whatever files its parent held. It exits by `errexit` only where the call that it names
-- has failed, and the parent exits. The daemon holds /dev/null as 0, 1 and 2, or nothing there where
-- /dev/null could not be opened; nothing else below 1024; and all that its parent held from 1024 on.
pub daemon_files :
    (fork setsid chdir : Reply) (opens : Bool) (t : Table)
    → CoursePost fork setsid chdir opens t (make_daemon fork setsid chdir opens t)
unfolding make_daemon child_course
daemon_files (fail e) setsid chdir opens t = inl (refl, refl)
daemon_files (val zero) setsid chdir opens t = elim (Bool-cases (failed setsid)) [
  | inl bad ↦ rw bad (inr (inl (refl, bad)))
  | inr good ↦ rw good (elim (Bool-cases (failed chdir)) [
    | inl bad ↦ rw bad (inr (inr (refl, bad)))
    | inr fine ↦ rw fine (refl, good, fine, redirected t opens)
  ])
]
daemon_files (val (suc n)) setsid chdir opens t = refl
daemon_files (chunk d) setsid chdir opens t = refl
daemon_files (chunk_from p d) setsid chdir opens t = refl
