-- ===== src/Memory/Owned.antt =====
-- Every block is released once, while the program holds it.
use linuxapi.Base.{ℤ, ==ℤ_refl, ◌≡◌, refl, true, false, List, [], ◌∷◌, if◌then◌else◌}
use linuxapi.Posix.{
  LastFailed, Reply, ev, Trace, Stop, blocked, err_exit, ◌>>◌, Outcome, ret, stop, result, failed,
}
use linuxapi.Posix.Held.{erase, opened, opened_lem, holds}
use linuxapi.Posix.Rules.{call_rule, call_or_rule, bind_rule}
use linuxapi.Memory.{
  Call, calloc, realloc, realloc_null, posix_memalign, free, mmap, munmap, strdup, mem_alloc,
  zeroed_block, resize_block, align_block, mem_anonymous_mmap, mem_alloc_control,
}

-- The blocks that the program has got and not released.
abbrev pub live : Trace Call → List ℤ
live [] = []
live (ev calloc r ∷ log) = opened r (live log)
live (ev (realloc_null n) r ∷ log) = opened r (live log)
live (ev (posix_memalign a n) r ∷ log) = opened r (live log)
live (ev (mmap n) r ∷ log) = opened r (live log)
live (ev (strdup s) r ∷ log) = opened r (live log)
live (ev (realloc p n) r ∷ log) = if failed r then live log else result r ∷ erase p (live log)
live (ev (free p) r ∷ log) = erase p (live log)
live (ev (munmap p n) r ∷ log) = if failed r then live log else erase p (live log)
live (ev _ r ∷ log) = live log

-- What is released or resized is held then.
abbrev pub Safe : Trace Call → Type 0
Safe [] = Unit {0}
Safe (ev (realloc p n) r ∷ log) = (holds p (live log) ≡ true) × Safe log
Safe (ev (free p) r ∷ log) = (holds p (live log) ≡ true) × Safe log
Safe (ev (munmap p n) r ∷ log) = (holds p (live log) ≡ true) × Safe log
Safe (ev _ r ∷ log) = Safe log

abbrev pub OwnedPost : Outcome Call (Unit {0}) → Type 0
OwnedPost (ret u rs log) = (live log ≡ []) × Safe log
OwnedPost (stop (blocked c) log) = Safe log
OwnedPost (stop (err_exit name) log) = Safe log × LastFailed log
OwnedPost (stop e log) = ⊥

-- A block got where the program holds nothing.
module _ {fds : List ℤ} (none_ : fds ≡ []) (r : Reply) (good : failed r ≡ false) where
  held : holds (result r) (opened r fds) ≡ true
  held = rw (opened_lem r fds good, ==ℤ_refl (result r))

  released : erase (result r) (opened r fds) ≡ []
  released = rw (opened_lem r fds good, ==ℤ_refl (result r)) none_

abbrev Clean : Trace Call → Type 0
Clean log = (live log ≡ []) × Safe log

align_block_lem : (rs : List Reply) (log : Trace Call) → Clean log → OwnedPost (align_block rs log)
unfolding align_block
align_block_lem rs log h = call_rule OwnedPost _ _ rs log h.1 (λ page rs1 lt1.
    call_or_rule OwnedPost _ _ _ rs1 _ h.1 (λ b bad. (h.1, bad))
      (λ b rs2 lt2 ok. (released h.0 b ok, (held h.0 b ok, h.1))))

resize_block_lem :
    (rs : List Reply) (log : Trace Call) → Clean log → OwnedPost (resize_block rs log)
unfolding resize_block
resize_block_lem rs log h =
    call_or_rule OwnedPost _ _ _ rs log h.1 (λ y bad. (h.1, bad))
      (λ y rs1 lt1 oky.
        call_or_rule OwnedPost _ _ _ rs1 _ h.1 (λ z bad. ((held h.0 y oky, h.1), bad))
          (λ z rs2 lt2 okz. (
            rw (okz, ==ℤ_refl (result z)) (released h.0 y oky),
            (rw (okz, ==ℤ_refl (result z)) refl, (held h.0 y oky, h.1)),
          )))

zeroed_block_lem : (rs : List Reply) → OwnedPost (zeroed_block rs [])
unfolding zeroed_block
zeroed_block_lem rs =
    call_or_rule OwnedPost _ _ _ rs [] tt (λ x bad. (tt, bad))
      (λ x rs1 lt1 okx. (released refl x okx, (held refl x okx, tt)))

ends : (e : Stop Call) (log : Trace Call) → OwnedPost (stop e log) → OwnedPost (stop e log)
ends e log h = h

-- `mem_alloc`, `mem_anonymous_mmap` and `mem_alloc_control`, whatever the allocator answers, release or
-- resize only what they hold, and return only when they hold nothing. They end by `errexit` only
-- where a call has failed, and in no other way.
pub blocks_released :
    (rs : List Reply)
    → OwnedPost (mem_alloc rs [])
      × OwnedPost (mem_anonymous_mmap rs [])
      × OwnedPost (mem_alloc_control rs [])
unfolding mem_alloc mem_anonymous_mmap mem_alloc_control
blocks_released rs = (
  bind_rule OwnedPost OwnedPost (zeroed_block rs []) (λ u. resize_block >> align_block)
      (zeroed_block_lem rs)
      (λ u rs1 log1 h1.
        bind_rule OwnedPost OwnedPost (resize_block rs1 log1) (λ u'. align_block)
          (resize_block_lem rs1 log1 h1) (λ u' rs2 log2 h2. align_block_lem rs2 log2 h2) ends)
      ends,
  call_or_rule OwnedPost _ _ _ rs [] tt (λ p bad. (tt, bad))
      (λ p rs1 lt1 okp.
        call_or_rule OwnedPost _ _ _ rs1 _ tt (λ u bad. ((held refl p okp, tt), bad))
          (λ u rs2 lt2 oku. (rw oku (released refl p okp), (held refl p okp, tt)))),
  call_or_rule OwnedPost _ _ _ rs [] tt (λ m bad. (tt, bad))
      (λ m rs1 lt1 okm.
        call_or_rule OwnedPost _ _ _ rs1 _ tt (λ y bad. (tt, bad))
          (λ y rs2 lt2 oky.
            call_rule OwnedPost _ _ rs2 _ tt
              (λ minfo rs3 lt3. (released refl y oky, (held refl y oky, tt))))),
)
