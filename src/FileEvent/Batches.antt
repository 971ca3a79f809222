-- ===== src/FileEvent/Batches.antt =====
-- What is shown of several batches of events.
use linuxapi.Base.{ℕ, ◌/◌, ◌%◌, String, ◌≡◌, ◌≢◌, ◌⊎◌, ℤ, pos, List, [], ◌∷◌, ◌++◌}
use linuxapi.Posix.{Reply, Errno, fail, chunk, ev, Trace, Outcome, ret, stop}
use linuxapi.Inotify.{Printed, watch_descriptor, file_name, event, event_names, as_int}
use linuxapi.Inotify.Format.{Notice, AllWellFormed, all_bytes, all_lines}
use linuxapi.FileEvent.{Call, print, Watches, lines_for}

-- All that a run has printed.
abbrev pub shown : Trace Call → List Printed
shown [] = []
shown (ev (print lines) r ∷ log) = shown log ++ lines
shown (ev _ r ∷ log) = shown log

-- What is printed of one event, and of batches of them.
abbrev pub lines_of : Watches → Notice → List Printed
lines_of fw n = watch_descriptor (as_int n.wd) ∷ lines_for fw (as_int n.wd) n.mask

-- The names of the bits that are set in the mask, in the order of the table.
abbrev pub NamesBits : List (String × ℕ) → (mask : ℕ) → List Printed → Type 0
NamesBits [] mask ls = ls ≡ []
NamesBits ((name, bit) ∷ more) mask ls =
    (((mask / bit) % 2 ≡ 1)
      × ((rest : List Printed) × (ls ≡ event name ∷ rest) × NamesBits more mask rest))
    ⊎ (((mask / bit) % 2 ≢ 1) × NamesBits more mask ls)

-- The lines behind that of the descriptor `wd`, where "file1" is watched as `wd1` and "file2" as `wd2`:
-- the name of the file and its events, or none for another descriptor.
abbrev pub FileLines : (wd1 wd2 : ℕ) → (wd : ℤ) (mask : ℕ) → List Printed → Type 0
FileLines wd1 wd2 wd mask ls =
    ((wd ≡ pos wd1)
      × ((bits : List Printed) × (ls ≡ file_name (102 ∷ 105 ∷ 108 ∷ 101 ∷ 49 ∷ []) ∷ bits)
          × NamesBits event_names mask bits))
    ⊎ (((wd ≢ pos wd1)
          × (wd ≡ pos wd2)
          × ((bits : List Printed) × (ls ≡ file_name (102 ∷ 105 ∷ 108 ∷ 101 ∷ 50 ∷ []) ∷ bits)
              × NamesBits event_names mask bits))
        ⊎ ((wd ≢ pos wd1) × (wd ≢ pos wd2) × (ls ≡ [])))

-- What is printed of one event tells it.
abbrev pub Shows : (wd1 wd2 : ℕ) → Notice → List Printed → Type 0
Shows wd1 wd2 n ls =
    (rest : List Printed) × (ls ≡ watch_descriptor (as_int n.wd) ∷ rest)
    × FileLines wd1 wd2 (as_int n.wd) n.mask rest

abbrev pub batch_lines : Watches → List (List Notice) → List Printed
batch_lines fw [] = []
batch_lines fw (ns ∷ batches) = all_lines (lines_of fw) ns ++ batch_lines fw batches

abbrev pub BatchesWellFormed : List (List Notice) → Type 0
BatchesWellFormed [] = Unit {0}
BatchesWellFormed (ns ∷ batches) = AllWellFormed ns × BatchesWellFormed batches

-- The answers of `read`: one batch each, and an error behind them.
abbrev pub batch_replies : List (List Notice) → Errno → List Reply → List Reply
batch_replies [] e rs = fail e ∷ rs
batch_replies (ns ∷ batches) e rs = chunk (all_bytes ns) ∷ batch_replies batches e rs

module _ (fw : Watches) (fd : ℤ) (e : Errno) (after : List Reply) (total : List Printed) where
  abbrev Left : List (List Notice) → List Reply → Trace Call → Type 0
  Left batches rs log =
      BatchesWellFormed batches
      × (rs ≡ batch_replies batches e after)
      × (shown log ++ batch_lines fw batches ≡ total)

  abbrev Inv : List ℕ → List Reply → Trace Call → Type 0
  Inv buf rs log = (batches : List (List Notice)) × Left batches rs log

  abbrev AllShown : Outcome Call (Unit {0}) → Type 0
  AllShown (ret u rs log) = shown log ≡ total
  AllShown (stop e log) = ⊥
