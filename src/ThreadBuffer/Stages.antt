-- ===== src/ThreadBuffer/Stages.antt =====
-- A thread with a buffer of its own, place by place.
use mathlib.Core.Path.{subst}
use linuxapi.Base.{ℕ, ◌≡◌, ◌≢◌, refl, ap, ◌∙◌, true, false, List, [], ◌∷◌}
use linuxapi.ThreadBuffer.{Function, message, Place, Thread, Shared, Goes, Starts}
use linuxapi.ThreadBuffer.Apart.{set_same, live, Owns, Effect, InUse, KeyedBlock, Goes-Effect}

-- What holds of a thread by its place. Before `printf` the memory at its address holds its message;
-- behind it, it has printed the message once, and before it, nothing. At `pthread_getspecific` the
-- key is made, and before `snprintf` the address is NULL only if `malloc` gave NULL.
abbrev pub Stage : (str : List ℕ) → Shared → Thread → Place → Type 0
Stage str m t Place.once = (t.out ≡ []) × (t.specific ≡ 0)
Stage str m t Place.get = (t.out ≡ []) × (t.specific ≡ 0) × (m.key_made ≡ true)
Stage str m t Place.allocate = (t.out ≡ []) × (t.specific ≡ 0)
Stage str m t Place.format = (t.out ≡ []) × KeyedBlock t × (t.ptr ≡ 0 → m.denied ≡ true)
Stage str m t Place.print =
    (t.out ≡ []) × KeyedBlock t × (t.ptr ≢ 0) × (m.cells t.ptr ≡ message str)
Stage str m t Place.destroy = (t.out ≡ message str ∷ []) × KeyedBlock t
Stage str m t Place.returned = t.out ≡ message str ∷ []
Stage str m t Place.absent = t.out ≡ []

abbrev pub OwnMessage : (str : List ℕ) → Shared → Thread → Type 0
OwnMessage str m t = Stage str m t t.place

pub at_place :
    (str : List ℕ) (m : Shared) (t : Thread) {p : Place}
    → t.place ≡ p
    → OwnMessage str m t
    → Stage str m t p
at_place str m t e h = subst (λ p. Stage str m t p) e h

pub effect :
    {str : List ℕ} {m : Shared} (t : Thread) {m' : Shared} {t' : Thread}
    → OwnMessage str m t
    → Goes str m t m' t'
    → Effect m t m' t'
effect {str = str} {m = m} t h g =
    Goes-Effect t (λ p. (at_place str m t p h).1) (λ p. (at_place str m t p h).1) g

-- A new address is not NULL.
not_null : (m : Shared) (a : ℕ) → m.used 0 ≡ true → m.used a ≡ false → a ≢ 0
not_null m a u n e = absurd (let g = ap m.used e in cc)

pub Goes-OwnMessage :
    (str : List ℕ) {m : Shared} (t : Thread) {m' : Shared} {t' : Thread}
    → m.used 0 ≡ true
    → Goes str m t m' t'
    → OwnMessage str m t
    → OwnMessage str m' t'
Goes-OwnMessage str {m = m} t z (Goes.makes_key p) h =
    let s = at_place str m t p h in (s.0, s.1, refl)
Goes-OwnMessage str {m = m} t z (Goes.gets p k n) h = absurd (n (at_place str m t p h).1)
Goes-OwnMessage str {m = m} t z (Goes.gets_none p k e) h =
    let s = at_place str m t p h in (s.0, s.1)
Goes-OwnMessage str {m = m} t z (Goes.allocates a stale p n) h =
    ((at_place str m t p h).0, (λ e. refl), λ e. absurd (not_null m a z n e))
Goes-OwnMessage str {m = m} t z (Goes.gets_null p) h =
    ((at_place str m t p h).0, (λ e. refl), λ e. refl)
Goes-OwnMessage str {m = m} t z (Goes.formats p n) h =
    let s = at_place str m t p h in (s.0, s.1, n, set_same m.cells t.ptr (message str))
Goes-OwnMessage str {m = m} t z (Goes.prints p) h =
    let s = at_place str m t p h in
    let line : m.cells t.ptr ∷ t.out ≡ message str ∷ [] = rw (s.0, s.3) refl in (line, s.1)
Goes-OwnMessage str {m = m} t z (Goes.destroys p n) h = (at_place str m t p h).0
Goes-OwnMessage str {m = m} t z (Goes.destroys_none p e) h = (at_place str m t p h).0

pub Starts-OwnMessage :
    {f : Function} (str : List ℕ) {m m' : Shared} {t' : Thread}
    → f ≢ Function.unsafe
    → m.used 0 ≡ true
    → Starts m f m' t'
    → OwnMessage str m' t'
Starts-OwnMessage str safe z Starts.with_static = absurd (safe refl)
Starts-OwnMessage str safe z Starts.without = (refl, refl)
Starts-OwnMessage str {m = m} safe z (Starts.with_array a stale n) =
    (refl, (λ e. absurd (e refl)), λ e. absurd (not_null m a z n e))

-- A step of another thread changes nothing of that.
pub beside :
    (str : List ℕ) {m m' : Shared} {t t' : Thread} (u : Thread) (p : Place)
    → u.place ≡ p
    → Effect m t m' t'
    → ((a : ℕ) → Owns u a → ¬ (Owns t a))
    → InUse m u
    → Stage str m u p
    → Stage str m' u p
beside str u Place.absent e f apart uses h = h
beside str u Place.once e f apart uses h = h
beside str u Place.get e f apart uses h = (h.0, h.1, f.keeps_key h.2)
beside str u Place.allocate e f apart uses h = h
beside str u Place.format e f apart uses h = (h.0, h.1, λ n. f.keeps_denied (h.2 n))
beside str u Place.print e f apart uses h =
    let o : Owns u u.ptr = (ap live e, refl, h.2) in
    (h.0, h.1, h.2, f.keeps_cells u.ptr (apart u.ptr o) (uses u.ptr o) ∙ h.3)
beside str u Place.destroy e f apart uses h = h
beside str u Place.returned e f apart uses h = h
