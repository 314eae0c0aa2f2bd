-- ===== src/Hhmm/RoundTrip.antt =====
-- Printing and parsing of HH:MM.
use ev_charge_controller.Prelude.{ℕ, ◌+◌, ◌-◌, ◌*◌, ◌<◌, ◌≡◌, true, some, [], ◌∷◌, pos, arith}
use ev_charge_controller.Hhmm.{
  split, parse_hhmm, parse_parts, valid_parts, is_valid_time_format, format_hhmm, atoi, pad2, colon,
  is_digit,
}

split-format :
    (h m : ℕ) → h < 24 → m < 60 → split colon (format_hhmm h m) ≡ pad2 h [] ∷ pad2 m [] ∷ []
unfolding split format_hhmm
split-format h m p q = ground arith

atoi-pad2 : (n : ℕ) → n < 100 → atoi (pad2 n []) ≡ some (pos n)
unfolding atoi
atoi-pad2 n h = ground arith

parse_parts-pad2 :
    (h m : ℕ) → h < 24 → m < 60 → parse_parts (pad2 h [] ∷ pad2 m [] ∷ []) ≡ some (h, m)
unfolding parse_parts
parse_parts-pad2 h m p q = ground (arith, atoi-pad2 h, atoi-pad2 m)

valid_parts-pad2 : (h m : ℕ) → h < 24 → m < 60 → valid_parts (pad2 h [] ∷ pad2 m [] ∷ []) ≡ true
unfolding valid_parts
valid_parts-pad2 h m p q = ground (arith, atoi-pad2 h, atoi-pad2 m)

-- For every hour and minute of a clock, the text that formatTime prints is parsed to the same hour
-- and minute, and it passes isValidTimeFormat.
pub parse_hhmm-format :
    (h m : ℕ)
    → h < 24
    → m < 60
    → (parse_hhmm (format_hhmm h m) ≡ some (h, m)) × (is_valid_time_format (format_hhmm h m) ≡ true)
unfolding parse_hhmm is_valid_time_format
parse_hhmm-format h m p q =
    rw (split-format h m p q) (parse_parts-pad2 h m p q, valid_parts-pad2 h m p q)

-- The number of two digits.
abbrev pub two_digits : ℕ → ℕ → ℕ
two_digits a b = (a - b'0') * 10 + (b - b'0')

atoi-two_digits :
    (a b : ℕ)
    → is_digit a ≡ true
    → is_digit b ≡ true
    → atoi (a ∷ b ∷ []) ≡ some (pos (two_digits a b))
unfolding atoi
atoi-two_digits a b p q = ground arith

-- Of four digits that make an hour and a minute, formatTime prints what parseHHMM has read.
format-parse_hhmm :
    (a b c d : ℕ)
    → is_digit a ≡ true
    → is_digit b ≡ true
    → is_digit c ≡ true
    → is_digit d ≡ true
    → two_digits a b < 24
    → two_digits c d < 60
    → (parse_hhmm (a ∷ b ∷ colon ∷ c ∷ d ∷ []) ≡ some (two_digits a b, two_digits c d))
      × (format_hhmm (two_digits a b) (two_digits c d) ≡ a ∷ b ∷ colon ∷ c ∷ d ∷ [])
unfolding parse_hhmm split parse_parts format_hhmm
format-parse_hhmm a b c d pa pb pc pd ph pm =
    (ground (arith, atoi-two_digits a b, atoi-two_digits c d), ground arith)
