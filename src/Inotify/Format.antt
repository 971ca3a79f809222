-- ===== src/Inotify/Format.antt =====
-- The events as inotify(7) documents them: a name ends with a NUL byte, which more may follow, and
-- `len` counts all of these.
use linuxapi.Base.{
  ◌≤◌, ℕ, zero, suc, ◌+◌, ◌<◌, ◌≡◌, ◌∙◌, true, false, refl, some, List, [], ◌∷◌, ◌++◌, length, drop,
  length-append, append_assoc, bytes_of_word, four_bytes, has_bit, if◌then◌else◌, arith, ltb,
}
use linuxapi.Inotify.{
  Handler, Printed, InotifyEvent, sizeof_inotify_event, event_at, c_string, name_lines, event_func,
  walk, watch_descriptor, mask_value, dir, file_name, as_int, in_isdir, events_in, event_names,
}

pub record Notice : Type 0 where
  pub wd : ℕ
  pub mask : ℕ
  pub cookie : ℕ
  pub name : List ℕ
  pub padding : ℕ

abbrev pub zeros : ℕ → List ℕ
zeros zero = []
zeros (suc n) = 0 ∷ zeros n

-- The bytes of the name: none for a watched file.
abbrev pub name_field : (name : List ℕ) (padding : ℕ) → List ℕ
name_field [] padding = []
name_field (c ∷ cs) padding = (c ∷ cs) ++ zeros (suc padding)

abbrev pub name_bytes : Notice → List ℕ
name_bytes n = name_field n.name n.padding

abbrev pub notice_bytes : Notice → List ℕ
notice_bytes n =
    bytes_of_word n.wd
    ++ (bytes_of_word n.mask
        ++ (bytes_of_word n.cookie ++ (bytes_of_word (length (name_bytes n)) ++ name_bytes n)))

abbrev pub all_bytes : List Notice → List ℕ
all_bytes [] = []
all_bytes (n ∷ ns) = notice_bytes n ++ all_bytes ns

abbrev pub NoNul : List ℕ → Type 0
NoNul [] = Unit {0}
NoNul (c ∷ cs) = (0 < c) × NoNul cs

-- The numbers fit, and the name holds no NUL byte.
abbrev pub WellFormed : Notice → Type 0
WellFormed n =
    (n.wd < 4294967296)
    × (n.mask < 4294967296)
    × (n.cookie < 4294967296)
    × (length (name_bytes n) < 4294967296)
    × NoNul n.name

abbrev pub AllWellFormed : List Notice → Type 0
AllWellFormed [] = Unit {0}
AllWellFormed (n ∷ ns) = WellFormed n × AllWellFormed ns

-- What is printed of a notice.
abbrev pub printed_name : List ℕ → List Printed
printed_name [] = []
printed_name (c ∷ cs) = file_name (c ∷ cs) ∷ []

unfoldable pub header : Notice → InotifyEvent
header n = record { wd = n.wd; mask = n.mask; cookie = n.cookie; len = length (name_bytes n) }

pub c_string-zeros :
    (s : List ℕ) (k : ℕ) (rest : List ℕ)
    → NoNul s
    → c_string ((s ++ zeros (suc k)) ++ rest) ≡ some s
unfolding c_string
c_string-zeros [] k rest h = refl
c_string-zeros (zero ∷ s) k rest h = absurd (omega (arith, h.0))
c_string-zeros (suc c ∷ s) k rest h = rw (c_string-zeros s k rest h.1)

event_at-notice_bytes :
    (n : Notice) (rest : List ℕ)
    → WellFormed n
    → event_at (notice_bytes n ++ rest) ≡ some (header n)
unfolding event_at header
event_at-notice_bytes n rest h =
    rw
      (
        four_bytes n.wd h.0,
        four_bytes n.mask h.1,
        four_bytes n.cookie h.2,
        four_bytes (length (name_bytes n)) h.3,
      )
      refl

-- What `event_func` prints of a notice.
abbrev pub notice_lines : Notice → List Printed
notice_lines n =
    watch_descriptor (as_int n.wd)
    ∷ mask_value (as_int n.mask)
    ∷ dir (if has_bit n.mask in_isdir then in_isdir else 0)
    ∷ (printed_name n.name ++ events_in event_names n.mask)

abbrev pub all_lines : (Notice → List Printed) → List Notice → List Printed
all_lines lines [] = []
all_lines lines (n ∷ ns) = lines n ++ all_lines lines ns

-- `name_lines` reads behind the 16 bytes of a header, whatever these are.
name_lines-name_field :
    (name : List ℕ) (padding : ℕ) (head : List ℕ) (rest : List ℕ)
    → NoNul name
    → drop 16 head ≡ name_field name padding ++ rest
    → name_lines (length (name_field name padding)) head ≡ some (printed_name name)
unfolding name_lines
name_lines-name_field [] padding head rest h behind = refl
name_lines-name_field (c ∷ cs) padding head rest h behind =
    rw (behind, c_string-zeros (c ∷ cs) padding rest h) refl

pub event_func-notice_bytes :
    (n : Notice) (rest : List ℕ)
    → WellFormed n
    → event_func (header n) (notice_bytes n ++ rest) ≡ some (notice_lines n)
unfolding event_func header
event_func-notice_bytes n rest h =
    rw (name_lines-name_field n.name n.padding (notice_bytes n ++ rest) rest h.4 refl) refl

drop_past : (xs ys : List ℕ) → drop (length xs) (xs ++ ys) ≡ ys
drop_past [] ys = refl
drop_past (x ∷ xs) ys = drop_past xs ys

module _ (handle : Handler) where
  walk_end :
      (fuel : ℕ) (buf : List ℕ) (len i : ℕ)
      → ltb i len ≡ false
      → walk handle (suc fuel) buf len i ≡ some []
  unfolding walk
  walk_end fuel buf len i over = rw (walk, over) refl

  walk_step :
      (fuel : ℕ) (buf : List ℕ) (len i : ℕ) (n : Notice) (rest : List ℕ) (lines more : List Printed)
      → ltb i len ≡ true
      → drop i buf ≡ notice_bytes n ++ rest
      → WellFormed n
      → handle (header n) (notice_bytes n ++ rest) ≡ some lines
      → walk handle fuel buf len (i + (sizeof_inotify_event + (header n).len)) ≡ some more
      → walk handle (suc fuel) buf len i ≡ some (lines ++ more)
  unfolding walk header
  walk_step fuel buf len i n rest lines more in_range here h handled next =
      rw (walk, in_range, here, event_at-notice_bytes n rest h, handled, next) refl

regroup : (b x y z : List ℕ) → b ++ ((x ++ y) ++ z) ≡ (b ++ x) ++ (y ++ z)
regroup b x y z = rw (append_assoc x y z, append_assoc b x (y ++ z)) refl

-- The walk over well-formed events, whatever stands before and behind them, for a handler of one
-- event.
module _ (handle : Handler) (lines : Notice → List Printed)
    (handled : (n : Notice) (rest : List ℕ)
      → WellFormed n
      → handle (header n) (notice_bytes n ++ rest) ≡ some (lines n)) where
  pub walk-all_bytes :
      (ns : List Notice) (before after buf : List ℕ) (fuel len i : ℕ)
      → AllWellFormed ns
      → length ns < fuel
      → buf ≡ before ++ (all_bytes ns ++ after)
      → i ≡ length before
      → len ≡ length before + length (all_bytes ns)
      → walk handle fuel buf len i ≡ some (all_lines lines ns)
  unfolding header
  walk-all_bytes [] before after buf zero len i h lt holds at all = absurd (omega arith)
  walk-all_bytes [] before after buf (suc fuel) len i h lt holds at all =
      walk_end handle fuel buf len i (ground arith)
  walk-all_bytes (n ∷ ns) before after buf zero len i h lt holds at all = absurd (omega arith)
  walk-all_bytes (n ∷ ns) before after buf (suc fuel) len i h lt holds at all =
      walk_step handle fuel buf len i n (all_bytes ns ++ after) (lines n) (all_lines lines ns)
        (ground arith)
        (rw (holds, at) (drop_past before _ ∙ append_assoc (notice_bytes n) (all_bytes ns) after))
        h.0 (handled n (all_bytes ns ++ after) h.0)
        (walk-all_bytes ns (before ++ notice_bytes n) after buf fuel len
          (i + (sizeof_inotify_event + (header n).len)) h.1 (omega (arith, lt))
          (holds ∙ regroup before (notice_bytes n) (all_bytes ns) after)
          (rw (length-append before (notice_bytes n)) (omega (arith, at)))
          (rw (all, length-append before (notice_bytes n))
            (omega (arith, length-append (notice_bytes n) (all_bytes ns)))))

notices_bytes : (ns : List Notice) → length ns ≤ length (all_bytes ns)
notices_bytes [] = omega arith
notices_bytes (n ∷ ns) =
    rw (length-append (notice_bytes n) (all_bytes ns)) (omega (arith, notices_bytes ns))

-- The walk of a program: over the bytes just read, with the rest of the buffer behind them.
pub walk_read :
    (handle : Handler) (lines : Notice → List Printed)
    → ((n : Notice) (rest : List ℕ)
        → WellFormed n
        → handle (header n) (notice_bytes n ++ rest) ≡ some (lines n))
    → (ns : List Notice) (stale : List ℕ) → AllWellFormed ns
    → walk handle (suc (length (all_bytes ns))) (all_bytes ns ++ stale) (length (all_bytes ns)) 0
      ≡ some (all_lines lines ns)
walk_read handle lines handled ns stale h =
    walk-all_bytes handle lines handled ns [] stale _ (suc (length (all_bytes ns)))
      (length (all_bytes ns)) 0 h (omega (arith, notices_bytes ns)) refl refl (omega arith)
