-- ===== src/Daemon/Log/Message.antt =====
-- What `log_message` writes.
use linuxapi.Base.{ℕ, zero, suc, ◌+◌, ◌<◌, ltb, ◌≡◌, refl, true, [], ◌∷◌, ◌++◌, arith}
use linuxapi.Daemon.Log.{digits_within, message_text, message_bytes}

one_digit : (fuel n : ℕ) → ltb n 10 ≡ true → digits_within fuel n ≡ (48 + n) ∷ []
one_digit zero n h = refl
one_digit (suc fuel) n h = rw h refl

-- For a count of one digit `log_message` writes one byte more than the text has, and it is 0: it
-- takes the length of the format, which stands for a text with two digits.
pub short_count_nul : (n : ℕ) → n < 10 → message_bytes n ≡ message_text n ++ 0 ∷ []
short_count_nul n lt = rw (one_digit n n (ground arith)) refl
