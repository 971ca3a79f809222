-- ===== src/ThreadBuffer/Apart.antt =====
-- Which addresses of the memory a step of one thread changes.
use linuxapi.Base.{
  ℕ, ◌==◌, arith, ◌≡◌, ◌≢◌, ◌⊎◌, inl, inr, refl, ap, sym, ◌∙◌, Bool, true, false, List, then_case,
  else_case,
}
use linuxapi.ThreadBuffer.{Function, Place, Thread, Shared, set, Goes, Starts}

==_same : (a : ℕ) → (a == a) ≡ true
==_same a = ground arith

==_other : (a b : ℕ) → a ≢ b → (a == b) ≡ false
==_other a b n = ground arith

pub set_same : {A : Type 0} (m : ℕ → A) (a : ℕ) (v : A) → set m a v a ≡ v
set_same m a v = then_case v (m a) (==_same a)

pub set_other : {A : Type 0} (m : ℕ → A) (a : ℕ) (v : A) (x : ℕ) → x ≢ a → set m a v x ≡ m x
set_other m a v x n = else_case v (m x) (==_other x a n)

-- Whether a thread still uses what it points to.
abbrev pub live : Place → Bool
live Place.format = true
live Place.print = true
live Place.destroy = true
live p = false

abbrev pub Owns : Thread → ℕ → Type 0
Owns t a = (live t.place ≡ true) × (t.ptr ≡ a) × (a ≢ 0)

abbrev pub InUse : Shared → Thread → Type 0
InUse m t = (a : ℕ) → Owns t a → m.used a ≡ true

-- A thread gets an address that was in no use, and leaves alone what is in use by others.
pub record Effect (m : Shared) (t : Thread) (m' : Shared) (t' : Thread) : Type 0 where
  pub origin : (a : ℕ) → Owns t' a → Owns t a ⊎ (m.used a ≡ false)
  pub keeps_own : InUse m t → InUse m' t'
  pub keeps_used : (a : ℕ) → ¬ (Owns t a) → m.used a ≡ true → m'.used a ≡ true
  pub keeps_cells : (a : ℕ) → ¬ (Owns t a) → m.used a ≡ true → m'.cells a ≡ m.cells a
  pub keeps_key : m.key_made ≡ true → m'.key_made ≡ true
  pub keeps_denied : m.denied ≡ true → m'.denied ≡ true

-- What is in use is not what is not.
apart : (m : Shared) (x a : ℕ) → m.used x ≡ true → m.used a ≡ false → x ≢ a
apart m x a u n e = absurd (let g = ap m.used e in cc)

-- The bookkeeping of `malloc`, and of an array of a new thread.
taken_used :
    (m : Shared) (a : ℕ) (x : ℕ) → m.used a ≡ false → m.used x ≡ true → set m.used a true x ≡ true
taken_used m a x n u = set_other m.used a true x (apart m x a u n) ∙ u

taken :
    (m : Shared) (t t' : Thread) (a : ℕ) (stale : List ℕ)
    → m.used a ≡ false
    → t'.ptr ≡ a
    → Effect m t (record m { used = set m.used a true; cells = set m.cells a stale }) t'
taken m t t' a stale n p = record {
  origin = λ x o. inr (ap m.used (sym o.1 ∙ p) ∙ n);
  keeps_own = λ h x o. ap (set m.used a true) (sym o.1 ∙ p) ∙ set_same m.used a true;
  keeps_used = λ x no u. taken_used m a x n u;
  keeps_cells = λ x no u. set_other m.cells a stale x (apart m x a u n);
  keeps_key = λ k. k;
  keeps_denied = λ d. d;
}

-- A step that leaves the addresses alone.
still : {m : Shared} {t t' : Thread} → ((a : ℕ) → Owns t' a → Owns t a) → Effect m t m t'
still h = record {
  origin = λ a o. inl (h a o);
  keeps_own = λ u a o. u a (h a o);
  keeps_used = λ x no u. u;
  keeps_cells = λ x no u. refl;
  keeps_key = λ k. k;
  keeps_denied = λ d. d;
}

pub Starts-Effect :
    {f : Function} {m m' : Shared} (t : Thread) {t' : Thread}
    → f ≢ Function.unsafe
    → Starts m f m' t'
    → Effect m t m' t'
Starts-Effect t safe Starts.with_static = absurd (safe refl)
Starts-Effect t safe Starts.without = still (λ a o. absurd (let e = o.0 in cc))
Starts-Effect {m = m} t safe (Starts.with_array a stale n) = taken m t _ a stale n refl

-- What a thread keeps under the key is what it writes to.
abbrev pub KeyedBlock : Thread → Type 0
KeyedBlock t = t.specific ≢ 0 → t.ptr ≡ t.specific

pub Goes-Effect :
    {str : List ℕ} {m : Shared} (t : Thread) {m' : Shared} {t' : Thread}
    → (t.place ≡ Place.get → t.specific ≡ 0)
    → (t.place ≡ Place.destroy → KeyedBlock t)
    → Goes str m t m' t'
    → Effect m t m' t'
Goes-Effect t none_yet keyed (Goes.makes_key p) = record {
  origin = λ a o. absurd (let e = o.0 in cc);
  keeps_own = λ h a o. absurd (let e = o.0 in cc);
  keeps_used = λ x no u. u;
  keeps_cells = λ x no u. refl;
  keeps_key = λ k. refl;
  keeps_denied = λ d. d;
}
Goes-Effect t none_yet keyed (Goes.gets p k n) = absurd (n (none_yet p))
Goes-Effect t none_yet keyed (Goes.gets_none p k e) = still (λ a o. absurd (let e = o.0 in cc))
Goes-Effect {m = m} t none_yet keyed (Goes.allocates a stale p n) = taken m t _ a stale n refl
Goes-Effect t none_yet keyed (Goes.gets_null p) = record {
  origin = λ a o. absurd (o.2 (sym o.1));
  keeps_own = λ h a o. absurd (o.2 (sym o.1));
  keeps_used = λ x no u. u;
  keeps_cells = λ x no u. refl;
  keeps_key = λ k. k;
  keeps_denied = λ d. refl;
}
Goes-Effect {str = str} {m = m} t none_yet keyed (Goes.formats p n) = record {
  origin = λ a o. inl (ap live p, o.1, o.2);
  keeps_own = λ h a o. h a (ap live p, o.1, o.2);
  keeps_used = λ x no u. u;
  keeps_cells =
      λ x no u. set_other m.cells t.ptr _ x (λ e. no (ap live p, sym e, λ z. n (sym e ∙ z)));
  keeps_key = λ k. k;
  keeps_denied = λ d. d;
}
Goes-Effect t none_yet keyed (Goes.prints p) = still (λ a o. (ap live p, o.1, o.2))
Goes-Effect {m = m} t none_yet keyed (Goes.destroys p n) = record {
  origin = λ a o. absurd (let e = o.0 in cc);
  keeps_own = λ h a o. absurd (let e = o.0 in cc);
  keeps_used = λ x no u.
      set_other m.used t.specific false x
        (λ e. no (ap live p, keyed p n ∙ sym e, λ z. n (sym e ∙ z)))
      ∙ u;
  keeps_cells = λ x no u. refl;
  keeps_key = λ k. k;
  keeps_denied = λ d. d;
}
Goes-Effect t none_yet keyed (Goes.destroys_none p e) = still (λ a o. absurd (let e = o.0 in cc))
