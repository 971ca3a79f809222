-- ===== src/Cancel.antt =====
-- LinuxAPI2/pthread_cancellation.c: the main thread cancels a thread that allocates memory in a loop.
-- The thread runs thread_func, or thread_func_cleanup, which installs a cleanup handler. A request for
-- cancellation is acted upon in `sleep` or `printf` only. Any interleaving of the two threads is a
-- run; the thread is taken to be created.
pub mod Blocks
mod Tests
use linuxapi.Base.{
  ℕ, zero, suc, ltb, ℤ, pos, ◌≡◌, Bool, true, false, ◌||◌, Option, none, some, List, [], ◌∷◌,
}
use mathlib.Core.Bool.{not}
use linuxapi.Posix.Held.{erase, holds}

pub data Function : Type 0 where
  plain with_cleanup : Function

-- The blocks allocated and not freed; the number of the next block; and whether `free` has been given
-- what was no such block.
pub record Heap : Type 0 where
  pub live : List ℤ
  pub next : ℕ
  pub corrupt : Bool

-- `free`, of NULL too
unfoldable pub release : Option ℤ → Heap → Heap
release none h = h
release (some b) h = record h { live = erase b h.live; corrupt = h.corrupt || not (holds b h.live) }

abbrev pub rounds : ℕ
rounds = 10

-- Where the thread stands: before the test of the `i`th round with `malloc`, `pthread_cleanup_push`,
-- `sleep`, `printf`, `pthread_cleanup_pop` and `free`; in cleanup_func; ended by a return or by
-- cancellation.
pub data Place : Type 0 where
  allocate push rest print pop free : (i : ℕ) → Place
  clean returned canceled : Place

-- Behind `malloc`, and behind `printf`.
abbrev pub entered : Function → ℕ → Place
entered Function.plain i = Place.rest i
entered Function.with_cleanup i = Place.push i

abbrev pub counted : Function → ℕ → Place
counted Function.plain i = Place.free i
counted Function.with_cleanup i = Place.pop i

-- The point of a cancellation: `sleep` and `printf`.
pub data IsPoint : Place → Type 0 where
  at_rest : {i : ℕ} → IsPoint (Place.rest i)
  at_print : {i : ℕ} → IsPoint (Place.print i)

-- The thread, with its variable `arr`, and the argument of its cleanup handler, if it has one.
pub data Runs (f : Function) (asked : Bool) (h : Heap) (arr : Option ℤ)
    (handler : Option (Option ℤ))
    : Place → Heap → Option ℤ → Option (Option ℤ) → Place → Type 0 where
  allocates :
      {i : ℕ}
      → ltb i rounds ≡ true
      → Runs f asked h arr handler
          (Place.allocate i)
          (record h { live = pos h.next ∷ h.live; next = suc h.next })
          (some (pos h.next))
          handler
          (entered f i)
  allocates_none :
      {i : ℕ}
      → ltb i rounds ≡ true
      → Runs f asked h arr handler (Place.allocate i) h none handler (entered f i)
  returns :
      {i : ℕ}
      → ltb i rounds ≡ false
      → Runs f asked h arr handler (Place.allocate i) h arr handler Place.returned
  pushes : {i : ℕ} → Runs f asked h arr handler (Place.push i) h arr (some arr) (Place.rest i)
  rests : {i : ℕ} → Runs f asked h arr handler (Place.rest i) h arr handler (Place.print i)
  prints : {i : ℕ} → Runs f asked h arr handler (Place.print i) h arr handler (counted f i)
  pops : {i : ℕ} → Runs f asked h arr handler (Place.pop i) h arr none (Place.free i)
  frees :
      {i : ℕ}
      → Runs f asked h arr handler
          (Place.free i)
          (release arr h)
          arr
          handler
          (Place.allocate (suc i))
  is_canceled :
      {p : Place}
      → asked ≡ true
      → IsPoint p
      → handler ≡ none
      → Runs f asked h arr handler p h arr handler Place.canceled
  unwinds :
      {p : Place} {a : Option ℤ}
      → asked ≡ true
      → IsPoint p
      → handler ≡ some a
      → Runs f asked h arr handler p h arr handler Place.clean
  cleans :
      {a : Option ℤ}
      → handler ≡ some a
      → Runs f asked h arr handler Place.clean (release a h) arr none Place.canceled

-- The main thread: before `sleep`, `pthread_cancel`, `pthread_join`, the test of `retval`; returned.
pub data Main : Type 0 where
  sleep cancel join test finished : Main

pub record System : Type 0 where
  pub heap : Heap
  pub arr : Option ℤ
  pub handler : Option (Option ℤ)
  pub place : Place
  pub asked : Bool
  pub main : Main
  pub said : Bool

abbrev pub is_over : Place → Bool
is_over Place.returned = true
is_over Place.canceled = true
is_over p = false

abbrev pub was_canceled : Place → Bool
was_canceled Place.canceled = true
was_canceled p = false

pub data Step (f : Function) (s : System) : System → Type 0 where
  runs :
      {h : Heap} {arr : Option ℤ} {handler : Option (Option ℤ)} {p : Place}
      → Runs f s.asked s.heap s.arr s.handler s.place h arr handler p
      → Step f s (record s { heap = h; arr = arr; handler = handler; place = p })
  sleeps : s.main ≡ Main.sleep → Step f s (record s { main = Main.cancel })
  cancels : s.main ≡ Main.cancel → Step f s (record s { asked = true; main = Main.join })
  joins : s.main ≡ Main.join → is_over s.place ≡ true → Step f s (record s { main = Main.test })
  says :
      s.main ≡ Main.test → Step f s (record s { said = was_canceled s.place; main = Main.finished })

pub begin : System
begin = record {
  heap = record { live = []; next = 1; corrupt = false };
  arr = none;
  handler = none;
  place = Place.allocate 0;
  asked = false;
  main = Main.sleep;
  said = false;
}

pub data Reach (f : Function) : System → Type 0 where
  start : Reach f begin
  later : {s t : System} → Reach f s → Step f s t → Reach f t
