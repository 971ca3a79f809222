-- ===== src/Posix/Held.antt =====
-- What a process holds: descriptors or blocks of memory that calls have returned.
use linuxapi.Base.{
  ℤ, ◌==ℤ◌, ==ℤ_refl, ◌≡◌, refl, false, List, [], ◌∷◌, if◌then◌else◌, arith, Bool, ◌||◌,
}
use linuxapi.Posix.{Reply, fail, val, chunk, chunk_from, failed, result}

abbrev pub erase : ℤ → List ℤ → List ℤ
erase fd [] = []
erase fd (x ∷ xs) = if x ==ℤ fd then xs else x ∷ erase fd xs

abbrev pub opened : Reply → List ℤ → List ℤ
opened (fail e) fds = fds
opened r fds = result r ∷ fds

abbrev pub holds : ℤ → List ℤ → Bool
holds fd [] = false
holds fd (x ∷ xs) = x ==ℤ fd || holds fd xs

pub opened_lem : (r : Reply) (fds : List ℤ) → failed r ≡ false → opened r fds ≡ result r ∷ fds
opened_lem (fail e) fds h = absurd (ground arith)
opened_lem (val n) fds h = refl
opened_lem (chunk d) fds h = refl
opened_lem (chunk_from p d) fds h = refl

pub erase-head : (fd : ℤ) (fds : List ℤ) → erase fd (fd ∷ fds) ≡ fds
erase-head fd fds = rw (==ℤ_refl fd)
