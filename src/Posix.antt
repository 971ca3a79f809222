-- ===== src/Posix.antt =====
-- A process and the kernel under it. A program of this library is a function of the answers that
-- the kernel gives to its calls, in the order in which it makes them: the kernel is not part of the
-- repository, so every statement holds for every list of answers that it does not restrict.
-- `C` is the type of the calls that a program makes.
pub mod Loop
pub mod Rules
pub mod Held
use linuxapi.Base.{
  ℕ, zero, suc, String, ℤ, pos, minus_one, ◌==ℤ◌, ◌≡◌, refl, Bool, true, false, List, [], ◌∷◌,
  length, take, take-length, arith,
}

pub data Errno : Type 0 where
  eintr eexist enoent echild eagain : Errno
  other : ℕ → Errno

-- -1 with an error number; a number; or what a call puts into the caller's buffer, whose length is
-- the result, with the sender where the call reports one.
pub data Reply : Type 0 where
  fail : Errno → Reply
  val : ℕ → Reply
  chunk : List ℕ → Reply
  chunk_from : (sender : ℕ) → List ℕ → Reply

abbrev pub result : Reply → ℤ
result (fail e) = minus_one
result (val n) = pos n
result (chunk d) = pos (length d)
result (chunk_from p d) = pos (length d)

abbrev pub payload : Reply → List ℕ
payload (fail e) = []
payload (val n) = []
payload (chunk d) = d
payload (chunk_from p d) = d

abbrev pub sender : Reply → ℕ
sender (chunk_from p d) = p
sender _ = 0

-- The result where it is no error.
abbrev pub count : Reply → ℕ
count (fail e) = 0
count (val n) = n
count (chunk d) = length d
count (chunk_from p d) = length d

-- `== -1`
abbrev pub failed : Reply → Bool
failed r = result r ==ℤ minus_one

-- An answered call. A trace has the newest event first.
pub data Event (C : Type 0) : Type 0 where
  ev : C → Reply → Event C

abbrev pub Trace : Type 0 → Type 0
Trace C = List (Event C)

-- How a process ends, or stands: in a call that the kernel has not answered, by `errExit` or
-- `errexit`, by `fatal`, by `exit` or `_exit`, or at an access outside a buffer (`overrun`),
-- after which C says nothing. `starved` is left over for a loop that runs out of fuel; the rule of
-- `Posix/Loop.antt` leaves no case for it.
pub data Stop (C : Type 0) : Type 0 where
  blocked : C → Stop C
  err_exit : String → Stop C
  fatal : String → Stop C
  exited : ℕ → Stop C
  overrun : Stop C
  starved : Stop C

pub data Outcome (C A : Type 0) : Type 0 where
  ret : A → List Reply → Trace C → Outcome C A
  stop : Stop C → Trace C → Outcome C A

-- The last call has failed.
abbrev pub LastFailed : {C : Type 0} → Trace C → Type 0
LastFailed [] = ⊥
LastFailed (ev c r ∷ log) = failed r ≡ true

abbrev pub trace_of : {C A : Type 0} → Outcome C A → Trace C
trace_of (ret a rs log) = log
trace_of (stop e log) = log

abbrev pub Sys : Type 0 → Type 0 → Type 0
Sys C A = List Reply → Trace C → Outcome C A

abbrev pub pure : {C A : Type 0} → A → Sys C A
pure a rs log = ret a rs log

abbrev pub halt : {C A : Type 0} → Stop C → Sys C A
halt e rs log = stop e log

abbrev pub then_run : {C A B : Type 0} → Outcome C A → (A → Sys C B) → Outcome C B
then_run (ret a rs log) f = f a rs log
then_run (stop e log) f = stop e log

infixl 5 ◌>>=◌ ◌>>◌
abbrev pub ◌>>=◌ : {C A B : Type 0} → Sys C A → (A → Sys C B) → Sys C B
◌>>=◌ m f rs log = then_run (m rs log) f

abbrev pub ◌>>◌ : {C A B : Type 0} → Sys C A → Sys C B → Sys C B
m >> k = m >>= λ _. k

-- A call: the next answer, or the process waits.
unfoldable pub call : {C : Type 0} → C → Sys C Reply
call c [] log = stop (blocked c) log
call c (r ∷ rs) log = ret r rs (ev c r ∷ log)

-- Output to the terminal, of which the programs use no result.
abbrev pub emit : {C : Type 0} → C → Sys C Unit
emit c rs log = ret tt rs (ev c (val 0) ∷ log)

-- `if(test) stop`
unfoldable pub guard : {C : Type 0} → Bool → Stop C → Sys C Unit
guard true e = halt e
guard false e = pure tt

-- `if((r = c) == -1) stop`. A pointer that is NULL on failure is tested by `failed` too.
unfoldable pub call_or : {C : Type 0} → C → Stop C → Sys C Reply
unfolding call guard
call_or c e = do r ← call c; guard (failed r) e; pure r

pub take-count : (r : Reply) → take (count r) (payload r) ≡ payload r
take-count (fail e) = refl
take-count (val zero) = refl
take-count (val (suc n)) = refl
take-count (chunk d) = take-length d
take-count (chunk_from p d) = take-length d

pub count_of_result : (w r : Reply) → (result w ==ℤ result r) ≡ true → count w ≡ count r
count_of_result (fail e) (fail e') h = refl
count_of_result (fail e) (val n) h = ground arith
count_of_result (fail e) r h = ground arith
count_of_result (val n) (fail e) h = ground arith
count_of_result (val n) r h = ground arith
count_of_result (chunk d) (fail e) h = ground arith
count_of_result (chunk d) r h = ground arith
count_of_result (chunk_from p d) (fail e) h = ground arith
count_of_result (chunk_from p d) r h = ground arith
