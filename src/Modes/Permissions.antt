-- ===== src/Modes/Permissions.antt =====
-- The nine characters of the permissions, read back.
use linuxapi.Base.{
  String, ℕ, ◌+◌, ◌-◌, ◌*◌, ◌/◌, ◌%◌, ◌==◌, ◌≡◌, refl, ap, sym, ◌∙◌, false, Bool-cases, inl, inr,
  Option, none, some, List, [], ◌∷◌, ◌++◌, has_bit, set_bit, clear_bit, bit_value, if◌then◌else◌,
  arith,
}
use mathlib.Core.Path.{subst}
use mathlib.Core.Option.{get_or}
use linuxapi.Modes.{
  Stat, StatLine, permissions, permission, letters, kind_of, case_of, file_types, get_stat,
  chn_access, s_iwoth, s_iwusr,
}

-- The number that a text of permissions stands for: a character other than `-` counts its bit.
abbrev pub mode_of : (bit : ℕ) → List ℕ → ℕ
mode_of bit [] = 0
mode_of bit (c ∷ cs) = (if c == 45 then 0 else bit) + mode_of (bit / 2) cs

read_back :
    (mode bit letter : ℕ)
    → (letter == 45) ≡ false
    → (if permission mode bit letter == 45 then 0 else bit) ≡ ((mode / bit) % 2) * bit
read_back mode bit letter other = elim (Bool-cases (has_bit mode bit)) [
  | inl set_ ↦
      rw (set_, other)
        (subst (λ t. (if t then bit else 0) ≡ ((mode / bit) % 2) * bit) set_ (bit_value mode bit))
  | inr clear ↦
      rw clear
        (subst (λ t. (if t then bit else 0) ≡ ((mode / bit) % 2) * bit) clear (bit_value mode bit))
]

mode_of-letters : (mode : ℕ) → mode_of 256 (letters mode) ≡ mode % 512
mode_of-letters mode =
    rw
      (
        read_back mode 256 114 refl,
        read_back mode 128 119 refl,
        read_back mode 64 120 refl,
        read_back mode 32 114 refl,
        read_back mode 16 119 refl,
        read_back mode 8 120 refl,
        read_back mode 4 114 refl,
        read_back mode 2 119 refl,
        read_back mode 1 120 refl,
      )
      (omega arith)

-- The permissions and the kind that are printed.
abbrev pub text_of : List StatLine → List ℕ
text_of [] = []
text_of (permissions cs ∷ lines) = cs
text_of (line ∷ lines) = text_of lines

-- The bits of the new mode, one after the other.
abbrev pub changed : (mode : ℕ) → ℕ
changed mode = clear_bit (set_bit mode s_iwoth) s_iwusr

set_others : (m : ℕ) → set_bit m 2 ≡ m + (1 - (m / 2) % 2) * 2
set_others m = ground arith

clear_owner : (m : ℕ) → clear_bit m 128 ≡ m - ((m / 128) % 2) * 128
clear_owner m = ground arith

changed_value :
    (mode : ℕ)
    → changed mode
      ≡ (mode + (1 - (mode / 2) % 2) * 2) - (((mode + (1 - (mode / 2) % 2) * 2) / 128) % 2) * 128
changed_value mode =
    clear_owner (set_bit mode 2) ∙ ap (λ k. k - ((k / 128) % 2) * 128) (set_others mode)

-- The other bits stay as they are.
module _ (mode : ℕ) where
  bit256 : (changed mode / 256) % 2 ≡ (mode / 256) % 2
  bit256 = omega (arith, changed_value mode)

  bit64 : (changed mode / 64) % 2 ≡ (mode / 64) % 2
  bit64 = omega (arith, changed_value mode)

  bit32 : (changed mode / 32) % 2 ≡ (mode / 32) % 2
  bit32 = omega (arith, changed_value mode)

  bit16 : (changed mode / 16) % 2 ≡ (mode / 16) % 2
  bit16 = omega (arith, changed_value mode)

  bit8 : (changed mode / 8) % 2 ≡ (mode / 8) % 2
  bit8 = omega (arith, changed_value mode)

  bit4 : (changed mode / 4) % 2 ≡ (mode / 4) % 2
  bit4 = omega (arith, changed_value mode)

  bit1 : (changed mode / 1) % 2 ≡ (mode / 1) % 2
  bit1 = omega (arith, changed_value mode)

  bit128 : (changed mode / 128) % 2 ≡ 0
  bit128 = omega (arith, changed_value mode)

  bit2 : (changed mode / 2) % 2 ≡ 1
  bit2 = omega (arith, changed_value mode)

  type_bits : changed mode / 4096 ≡ mode / 4096
  type_bits = omega (arith, changed_value mode)

-- What the letters are after `chn_access`: the second is `-`, the eighth `w`, and the others are as
-- before.
abbrev pub with_others : List ℕ → List ℕ
with_others (r1 ∷ w1 ∷ x1 ∷ r2 ∷ w2 ∷ x2 ∷ r3 ∷ w3 ∷ x3 ∷ []) =
    r1 ∷ 45 ∷ x1 ∷ r2 ∷ w2 ∷ x2 ∷ r3 ∷ 119 ∷ x3 ∷ []
with_others cs = cs

letters-changed : (mode : ℕ) → letters (changed mode) ≡ with_others (letters mode)
letters-changed mode =
    rw
      (
        bit256 mode,
        bit128 mode,
        bit64 mode,
        bit32 mode,
        bit16 mode,
        bit8 mode,
        bit4 mode,
        bit2 mode,
        bit1 mode,
      )
      refl

text_of-case_of :
    (types : List (ℕ × String)) (n : ℕ) (lines : List StatLine)
    → text_of (case_of types n ++ lines) ≡ text_of lines
unfolding case_of
text_of-case_of [] n lines = refl
text_of-case_of ((t, name) ∷ types) n lines = elim (Bool-cases (n == t)) [
  | inl same ↦ rw same refl
  | inr other ↦ rw other (text_of-case_of types n lines)
]

-- The permissions that `get_stat` prints.
abbrev pub shown : Option (List StatLine) → List ℕ
shown none = []
shown (some lines) = text_of lines

shown-get_stat : (sb : Stat) → shown (get_stat (some sb)) ≡ letters sb.st_mode
unfolding get_stat kind_of
shown-get_stat sb = text_of-case_of file_types ((sb.st_mode / 4096) % 16) _

-- The nine letters that `get_stat` prints stand for the permission bits of the mode: read back, each
-- as its bit where it is not `-`, they give the mode modulo 512.
pub permissions_read_back :
    (sb : Stat) → mode_of 256 (shown (get_stat (some sb))) ≡ sb.st_mode % 512
permissions_read_back sb = ap (mode_of 256) (shown-get_stat sb) ∙ mode_of-letters sb.st_mode

-- After `chn_access`, `get_stat` prints the kind of before, and the letters of before but for the
-- second, now `-`, and the eighth, now `w`.
pub access_changed :
    (sb : Stat) (mode : ℕ)
    → chn_access (some sb) ≡ some mode
    → (kind_of mode ≡ kind_of sb.st_mode)
      × (shown (get_stat (some (record sb { st_mode = mode })))
          ≡ with_others (shown (get_stat (some sb))))
unfolding chn_access kind_of
access_changed sb mode e =
    let new : changed sb.st_mode ≡ mode = ap (λ o. get_or o 0) e in
    (
      rw (sym new, type_bits sb.st_mode) refl,
      rw (shown-get_stat sb, shown-get_stat (record sb { st_mode = mode }), sym new)
          (letters-changed sb.st_mode),
    )

-- The mode that `chn_access` gives a file.
abbrev pub new_mode : Stat → ℕ
new_mode sb = get_or (chn_access (some sb)) 0

-- The nine letters that `get_stat` prints stand for the permission bits of the mode: read back, each
-- as its bit where it is not `-`, they give the mode modulo 512. After `chn_access`, it prints the kind
-- of before, and the letters of before but for the second, now `-`, and the eighth, now `w`.
pub permissions_shown :
    (sb : Stat)
    → (mode_of 256 (shown (get_stat (some sb))) ≡ sb.st_mode % 512)
      × (kind_of (new_mode sb) ≡ kind_of sb.st_mode)
      × (shown (get_stat (some (record sb { st_mode = new_mode sb })))
          ≡ with_others (shown (get_stat (some sb))))
unfolding chn_access
permissions_shown sb =
    let after = access_changed sb (new_mode sb) refl in (permissions_read_back sb, after.0, after.1)
