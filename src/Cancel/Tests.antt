-- ===== src/Cancel/Tests.antt =====
-- A run: the thread is cancelled in its first `sleep`, with a block in hand.
use linuxapi.Base.{◌≡◌, ◌⊎◌, refl, true, false, [], pos, none, some}
use linuxapi.Cancel.{
  Function, Place, Main, System, Reach, start, later, runs, sleeps, cancels, allocates, pushes,
  unwinds, cleans, at_rest, begin, release, is_over, was_canceled,
}
use linuxapi.Cancel.Blocks.{Left, blocks_freed}

-- Cancelled with the handler installed, and the handler run.
abbrev unwound : System
unwound = record {
  heap = record { live = []; next = 2; corrupt = false };
  arr = some (pos 1);
  handler = none;
  place = Place.canceled;
  asked = true;
  main = Main.join;
  said = false;
}

run : Reach Function.with_cleanup unwound
unfolding begin release
run =
    later
      (later
        (later (later (later (later start (sleeps refl)) (cancels refl)) (runs (allocates refl)))
          (runs pushes))
        (runs (unwinds refl at_rest refl)))
      (runs (cleans refl))

blocks_freed_example :
    (unwound.heap.corrupt ≡ false)
    × ((is_over unwound.place ≡ false) ⊎ Left Function.with_cleanup unwound)
    × ((unwound.said ≡ false) ⊎ (was_canceled unwound.place ≡ true))
blocks_freed_example = blocks_freed Function.with_cleanup run
