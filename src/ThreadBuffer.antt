-- ===== src/ThreadBuffer.antt =====
-- LinuxAPI2/pthread_safe.c: two threads write a message to a buffer and print it. The buffer is one
-- static array (thread_func_unsafe), memory under a key of the thread (thread_func_safe_with_tsd), or
-- an array of the thread (thread_func_safe_with_tls, which pthread_safe runs). All buffers stand in
-- one memory, at addresses; 0 is NULL. Any interleaving of the threads is a run. A text is the list of
-- its characters, without the closing NUL. The memory of thread-local storage is not given back.
mod Apart
mod Stages
pub mod Own
mod Tests
use linuxapi.Base.{
  ℕ, ◌==◌, ltb, ◌≡◌, ◌≢◌, Bool, true, false, List, [], ◌∷◌, ◌++◌, take, if◌then◌else◌,
}

pub data Function : Type 0 where
  unsafe with_tsd with_tls : Function

-- `snprintf(buf, 256, "Message: %s", str)`
abbrev pub message : (str : List ℕ) → List ℕ
message str = take 255 ((77 ∷ 101 ∷ 115 ∷ 115 ∷ 97 ∷ 103 ∷ 101 ∷ 58 ∷ 32 ∷ []) ++ str)

-- The address of the static `buf`.
abbrev pub static_buf : ℕ
static_buf = 1

-- Where a thread stands: not created; before `pthread_once`, `pthread_getspecific`, `malloc` with
-- `pthread_setspecific`, `snprintf` and `printf`, and the destructor; returned.
pub data Place : Type 0 where
  absent once get allocate format print destroy returned : Place

-- A thread: the address that it writes to, the one that it keeps under the key, and what it has
-- printed, the newest first.
pub record Thread : Type 0 where
  pub place : Place
  pub ptr : ℕ
  pub specific : ℕ
  pub out : List (List ℕ)

-- The memory: what stands at an address, and which addresses are in use; whether the key is made, and
-- whether `malloc` has given NULL.
pub record Shared : Type 0 where
  pub cells : ℕ → List ℕ
  pub used : ℕ → Bool
  pub key_made : Bool
  pub denied : Bool

abbrev pub set : {A : Type 0} → (ℕ → A) → ℕ → A → ℕ → A
set m a v x = if x == a then v else m x

-- `pthread_once` makes the key if it is not made. What `malloc` gives is in no other use, and holds
-- anything. A store to NULL is no step.
pub data Goes (str : List ℕ) (m : Shared) (t : Thread) : Shared → Thread → Type 0 where
  makes_key :
      t.place ≡ Place.once
      → Goes str m t (record m { key_made = true }) (record t { place = Place.get })
  gets :
      t.place ≡ Place.get
      → m.key_made ≡ true
      → t.specific ≢ 0
      → Goes str m t m (record t { ptr = t.specific; place = Place.format })
  gets_none :
      t.place ≡ Place.get
      → m.key_made ≡ true
      → t.specific ≡ 0
      → Goes str m t m (record t { place = Place.allocate })
  allocates :
      (a : ℕ) (stale : List ℕ)
      → t.place ≡ Place.allocate
      → m.used a ≡ false
      → Goes str m t
          (record m { used = set m.used a true; cells = set m.cells a stale })
          (record t { ptr = a; specific = a; place = Place.format })
  gets_null :
      t.place ≡ Place.allocate
      → Goes str m t
          (record m { denied = true })
          (record t { ptr = 0; specific = 0; place = Place.format })
  formats :
      t.place ≡ Place.format
      → t.ptr ≢ 0
      → Goes str m t
          (record m { cells = set m.cells t.ptr (message str) })
          (record t { place = Place.print })
  prints :
      t.place ≡ Place.print
      → Goes str m t m (record t { out = m.cells t.ptr ∷ t.out; place = Place.destroy })
  destroys :
      t.place ≡ Place.destroy
      → t.specific ≢ 0
      → Goes str m t
          (record m { used = set m.used t.specific false })
          (record t { place = Place.returned })
  destroys_none :
      t.place ≡ Place.destroy
      → t.specific ≡ 0
      → Goes str m t m (record t { place = Place.returned })

-- A thread starts, with its thread-local array at an address in no other use.
pub data Starts (m : Shared) : Function → Shared → Thread → Type 0 where
  with_static :
      Starts m Function.unsafe m
        (record { place = Place.format; ptr = static_buf; specific = 0; out = [] })
  without :
      Starts m Function.with_tsd m (record { place = Place.once; ptr = 0; specific = 0; out = [] })
  with_array :
      (a : ℕ) (stale : List ℕ)
      → m.used a ≡ false
      → Starts m Function.with_tls
          (record m { used = set m.used a true; cells = set m.cells a stale })
          (record { place = Place.format; ptr = a; specific = 0; out = [] })

-- The main thread: before its two calls of `pthread_create`, the two of `pthread_join`; returned.
pub data Caller : Type 0 where
  create1 create2 join1 join2 finished : Caller

-- How the process ends before its time: by `errExitEN`, with a key that is not made, with a store to
-- NULL.
pub data Ending : Type 0 where
  running exited bad_key null_store : Ending

pub record System : Type 0 where
  pub mem : Shared
  pub t1 : Thread
  pub t2 : Thread
  pub caller : Caller
  pub end : Ending

pub data Crashes (m : Shared) (t : Thread) : Ending → Type 0 where
  at_get : t.place ≡ Place.get → m.key_made ≡ false → Crashes m t bad_key
  at_format : t.place ≡ Place.format → t.ptr ≡ 0 → Crashes m t null_store

pub data Moves (f : Function) (str1 str2 : List ℕ) (s : System) : System → Type 0 where
  thread1 :
      {m : Shared} {t : Thread}
      → Goes str1 s.mem s.t1 m t
      → Moves f str1 str2 s (record s { mem = m; t1 = t })
  thread2 :
      {m : Shared} {t : Thread}
      → Goes str2 s.mem s.t2 m t
      → Moves f str1 str2 s (record s { mem = m; t2 = t })
  crashes1 : {e : Ending} → Crashes s.mem s.t1 e → Moves f str1 str2 s (record s { end = e })
  crashes2 : {e : Ending} → Crashes s.mem s.t2 e → Moves f str1 str2 s (record s { end = e })
  creates1 :
      {m : Shared} {t : Thread}
      → s.caller ≡ Caller.create1
      → Starts s.mem f m t
      → Moves f str1 str2 s (record s { mem = m; t1 = t; caller = Caller.create2 })
  creates2 :
      {m : Shared} {t : Thread}
      → s.caller ≡ Caller.create2
      → Starts s.mem f m t
      → Moves f str1 str2 s (record s { mem = m; t2 = t; caller = Caller.join1 })
  joins1 :
      s.caller ≡ Caller.join1
      → s.t1.place ≡ Place.returned
      → Moves f str1 str2 s (record s { caller = Caller.join2 })
  joins2 :
      s.caller ≡ Caller.join2
      → s.t2.place ≡ Place.returned
      → Moves f str1 str2 s (record s { caller = Caller.finished })
  -- A call whose result is tested has failed.
  exits : Moves f str1 str2 s (record s { end = exited })

-- NULL and the static array are in use from the start.
unfoldable pub begin : System
begin = record {
  mem = record { cells = λ a. []; used = λ a. ltb a 2; key_made = false; denied = false };
  t1 = record { place = Place.absent; ptr = 0; specific = 0; out = [] };
  t2 = record { place = Place.absent; ptr = 0; specific = 0; out = [] };
  caller = Caller.create1;
  end = running;
}

pub data Reach (f : Function) (str1 str2 : List ℕ) : System → Type 0 where
  start : Reach f str1 str2 begin
  later :
      {s t : System}
      → Reach f str1 str2 s
      → s.end ≡ running
      → Moves f str1 str2 s t
      → Reach f str1 str2 t
