-- ===== src/ThreadBuffer/Own.antt =====
-- What threads with buffers of their own print.
use linuxapi.Base.{ℕ, ◌≡◌, ◌≢◌, inl, inr, refl, true, List}
use linuxapi.ThreadBuffer.{
  Function, Shared, Thread, Caller, Ending, running, bad_key, null_store, System, Crashes, Moves,
  thread1, thread2, crashes1, crashes2, creates1, creates2, joins1, joins2, exits, begin, Reach,
  start, later,
}
use linuxapi.ThreadBuffer.Apart.{Owns, Effect, InUse, Starts-Effect}
use linuxapi.ThreadBuffer.Stages.{
  OwnMessage, at_place, effect, Goes-OwnMessage, Starts-OwnMessage, beside,
}

record Inv (str1 str2 : List ℕ) (s : System) : Type 0 where
  null_used : s.mem.used 0 ≡ true
  own1 : OwnMessage str1 s.mem s.t1
  own2 : OwnMessage str2 s.mem s.t2
  use1 : InUse s.mem s.t1
  use2 : InUse s.mem s.t2
  apart : (a : ℕ) → Owns s.t1 a → ¬ (Owns s.t2 a)
  end : (s.end ≢ bad_key) × (s.end ≡ null_store → s.mem.denied ≡ true)

-- Two threads that own nothing together still own nothing together.
still_apart :
    {m m' : Shared} {t t' : Thread} (u : Thread)
    → Effect m t m' t'
    → InUse m u
    → ((a : ℕ) → Owns t a → ¬ (Owns u a))
    → (a : ℕ) → Owns t' a
    → ¬ (Owns u a)
still_apart {m = m} u f uses apart a o o' = elim (f.origin a o) [
  | inl was ↦ apart a was o'
  | inr free ↦ let used = uses a o' in cc
]

still_used :
    {m m' : Shared} {t t' : Thread} (u : Thread)
    → Effect m t m' t'
    → InUse m u
    → ((a : ℕ) → Owns u a → ¬ (Owns t a))
    → InUse m' u
still_used u f uses apart a o = f.keeps_used a (apart a o) (uses a o)

-- NULL is owned by no one, so it stays in use.
null_kept :
    {m m' : Shared} (t : Thread) {t' : Thread}
    → Effect m t m' t'
    → m.used 0 ≡ true
    → m'.used 0 ≡ true
null_kept t f z = f.keeps_used 0 (λ o. o.2 refl) z

turn1 :
    {str1 str2 : List ℕ} (s : System) {m : Shared} {t : Thread} (c : Caller)
    → s.end ≡ running
    → Effect s.mem s.t1 m t
    → OwnMessage str1 m t
    → Inv str1 str2 s
    → Inv str1 str2 (record s { mem = m; t1 = t; caller = c })
turn1 {str2 = str2} s c on f own h =
    let swapped : ((a : ℕ) → Owns s.t2 a → ¬ (Owns s.t1 a)) = λ a o o'. h.apart a o' o in
    record {
      null_used = null_kept s.t1 f h.null_used;
      own1 = own;
      own2 = beside str2 s.t2 s.t2.place refl f swapped h.use2 h.own2;
      use1 = f.keeps_own h.use1;
      use2 = still_used s.t2 f h.use2 swapped;
      apart = still_apart s.t2 f h.use2 h.apart;
      end = (h.end.0, λ e. f.keeps_denied (h.end.1 e));
    }

turn2 :
    {str1 str2 : List ℕ} (s : System) {m : Shared} {t : Thread} (c : Caller)
    → s.end ≡ running
    → Effect s.mem s.t2 m t
    → OwnMessage str2 m t
    → Inv str1 str2 s
    → Inv str1 str2 (record s { mem = m; t2 = t; caller = c })
turn2 {str1 = str1} s c on f own h =
    let swapped : ((a : ℕ) → Owns s.t2 a → ¬ (Owns s.t1 a)) = λ a o o'. h.apart a o' o in
    record {
      null_used = null_kept s.t2 f h.null_used;
      own1 = beside str1 s.t1 s.t1.place refl f h.apart h.use1 h.own1;
      own2 = own;
      use1 = still_used s.t1 f h.use1 h.apart;
      use2 = f.keeps_own h.use2;
      apart = λ a o o'. still_apart s.t1 f h.use1 swapped a o' o;
      end = (h.end.0, λ e. f.keeps_denied (h.end.1 e));
    }

-- A crash is a store to the NULL that `malloc` gave.
Crashes-null :
    (str : List ℕ) {m : Shared} (t : Thread) {e : Ending}
    → OwnMessage str m t
    → Crashes m t e
    → (e ≢ bad_key) × (e ≡ null_store → m.denied ≡ true)
Crashes-null str {m = m} t h (Crashes.at_get p k) = absurd (let g = (at_place str m t p h).2 in cc)
Crashes-null str {m = m} t h (Crashes.at_format p z) = ((λ e. cc), λ e. (at_place str m t p h).2 z)

ends_so :
    {str1 str2 : List ℕ} (s : System) (e : Ending) (c : Caller)
    → (e ≢ bad_key) × (e ≡ null_store → s.mem.denied ≡ true)
    → Inv str1 str2 s
    → Inv str1 str2 (record s { end = e; caller = c })
ends_so s e c x h = record {
  null_used = h.null_used;
  own1 = h.own1;
  own2 = h.own2;
  use1 = h.use1;
  use2 = h.use2;
  apart = h.apart;
  end = x;
}

Moves-Inv :
    {f : Function} {str1 str2 : List ℕ} (s : System) {s' : System}
    → f ≢ Function.unsafe
    → s.end ≡ running
    → Moves f str1 str2 s s'
    → Inv str1 str2 s
    → Inv str1 str2 s'
Moves-Inv {str1 = str1} s safe on (thread1 g) h =
    turn1 s s.caller on (effect s.t1 h.own1 g) (Goes-OwnMessage str1 s.t1 h.null_used g h.own1) h
Moves-Inv {str2 = str2} s safe on (thread2 g) h =
    turn2 s s.caller on (effect s.t2 h.own2 g) (Goes-OwnMessage str2 s.t2 h.null_used g h.own2) h
Moves-Inv {str1 = str1} s safe on (crashes1 c) h =
    ends_so s _ s.caller (Crashes-null str1 s.t1 h.own1 c) h
Moves-Inv {str2 = str2} s safe on (crashes2 c) h =
    ends_so s _ s.caller (Crashes-null str2 s.t2 h.own2 c) h
Moves-Inv {str1 = str1} s safe on (creates1 e st) h =
    turn1 s Caller.create2 on (Starts-Effect s.t1 safe st)
      (Starts-OwnMessage str1 safe h.null_used st) h
Moves-Inv {str2 = str2} s safe on (creates2 e st) h =
    turn2 s Caller.join1 on (Starts-Effect s.t2 safe st)
      (Starts-OwnMessage str2 safe h.null_used st) h
Moves-Inv s safe on (joins1 e d) h = ends_so s s.end Caller.join2 h.end h
Moves-Inv s safe on (joins2 e d) h = ends_so s s.end Caller.finished h.end h
Moves-Inv s safe on exits h = ends_so s Ending.exited s.caller ((λ e. cc), λ e. cc) h

begin-Inv : {str1 str2 : List ℕ} → Inv str1 str2 begin
unfolding begin
begin-Inv = record {
  null_used = refl;
  own1 = refl;
  own2 = refl;
  use1 = λ a o. absurd (let e = o.0 in cc);
  use2 = λ a o. absurd (let e = o.0 in cc);
  apart = λ a o. absurd (let e = o.0 in cc);
  end = ((λ e. cc), λ e. cc);
}

Reach-Inv :
    {f : Function} {str1 str2 : List ℕ} {s : System}
    → f ≢ Function.unsafe
    → Reach f str1 str2 s
    → Inv str1 str2 s
Reach-Inv safe start = begin-Inv
Reach-Inv safe (later {s = s} r on g) = Moves-Inv s safe on g (Reach-Inv safe r)

-- With thread_func_safe_with_tsd or thread_func_safe_with_tls, in every reachable state of the two
-- threads: one that has come to the end behind `printf` has printed exactly its own message, for one
-- before `printf` the memory that it points to holds its own message, and all others have printed
-- nothing; where one asks for its memory, the key is made, so that the process never ends by a key
-- that is not; and it ends by a store to NULL only if `malloc` has given NULL.
pub own_messages :
    {f : Function} {str1 str2 : List ℕ} {s : System}
    → f ≢ Function.unsafe
    → Reach f str1 str2 s
    → OwnMessage str1 s.mem s.t1
      × OwnMessage str2 s.mem s.t2
      × (s.end ≢ bad_key)
      × (s.end ≡ null_store → s.mem.denied ≡ true)
own_messages safe r = let h = Reach-Inv safe r in (h.own1, h.own2, h.end.0, h.end.1)
