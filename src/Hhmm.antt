-- ===== src/Hhmm.antt =====
-- The HH:MM texts of api/services/schedule_service.go: parseHHMM, formatTime, isValidTimeFormat, and
-- what they use of Go's strings.Split, strconv.Atoi and fmt.Sprintf. A text is its list of bytes.
pub mod RoundTrip
use Prim.Native.Char.{code}
use Prim.Native.String
use Prim.Native.String.{String}
use ev_charge_controller.Prelude.{
  ◌≡◌, refl, arith, ℕ, zero, suc, ◌+◌, ◌-◌, ◌*◌, ◌/◌, ◌%◌, ◌^◌, Bool, true, false, ◌&&◌, Option,
  none, some, List, [], ◌∷◌, ℤ, pos, negsuc, length, ltb, leb, ◌==◌, if◌then◌else◌,
}

abbrev pub Text : Type 0
Text = List ℕ

-- The bytes of an ASCII literal.
abbrev pub codes : String → Text
codes String.[] = []
codes (String.◌∷◌ c s) = code c ∷ codes s

abbrev pub colon : ℕ
colon = b':'

-- strings.Split with a one-byte separator.
abbrev prepend : ℕ → List Text → List Text
prepend x [] = (x ∷ []) ∷ []
prepend x (p ∷ ps) = (x ∷ p) ∷ ps

unfoldable pub split : ℕ → Text → List Text
split sep [] = [] ∷ []
split sep (x ∷ xs) = let rest = split sep xs in if x == sep then [] ∷ rest else prepend x rest

-- strconv.Atoi: the decimal digits, then the sign and the range of a 64-bit int.
abbrev pub is_digit : ℕ → Bool
is_digit c = leb b'0' c && leb c b'9'

unfoldable pub digits_value : ℕ → Text → Option ℕ
digits_value acc [] = some acc
digits_value acc (c ∷ cs) =
    let rest = digits_value (acc * 10 + (c - b'0')) cs in if is_digit c then rest else none

abbrev int_pos : Option ℕ → Option ℤ
int_pos none = none
int_pos (some n) = if ltb n (2 ^ 63) then some (pos n) else none

abbrev negate : ℕ → ℤ
negate zero = pos 0
negate (suc n) = negsuc n

abbrev int_neg : Option ℕ → Option ℤ
int_neg none = none
int_neg (some n) = if leb n (2 ^ 63) then some (negate n) else none

-- At least one digit must stand behind the sign.
unfoldable pub unsigned : Text → Option ℕ
unfolding digits_value
unsigned [] = none
unsigned (c ∷ cs) = digits_value 0 (c ∷ cs)

unfoldable pub atoi : Text → Option ℤ
unfolding unsigned
atoi [] = none
atoi (c ∷ cs) =
    if c == b'-'
    then int_neg (unsigned cs)
    else if c == b'+'
    then int_pos (unsigned cs)
    else int_pos (unsigned (c ∷ cs))

-- `err != nil || v < 0 || v > top` is an error.
abbrev pub in_range : ℕ → Option ℤ → Option ℕ
in_range top none = none
in_range top (some (pos n)) = if leb n top then some n else none
in_range top (some (negsuc _)) = none

abbrev both : Option ℕ → Option ℕ → Option (ℕ × ℕ)
both (some h) (some m) = some (h, m)
both _ _ = none

unfoldable pub parse_parts : List Text → Option (ℕ × ℕ)
unfolding atoi
parse_parts (h ∷ m ∷ []) = both (in_range 23 (atoi h)) (in_range 59 (atoi m))
parse_parts _ = none

unfoldable pub parse_hhmm : Text → Option (ℕ × ℕ)
unfolding split parse_parts
parse_hhmm s = parse_parts (split colon s)

abbrev pub is_some {ℓ} : {A : Type ℓ} → Option A → Bool
is_some none = false
is_some (some _) = true

unfoldable pub valid_parts : List Text → Bool
unfolding atoi
valid_parts (h ∷ m ∷ []) =
    is_some (in_range 23 (atoi h))
    && (is_some (in_range 59 (atoi m)) && (length h == 2 && length m == 2))
valid_parts _ = false

unfoldable pub is_valid_time_format : Text → Bool
unfolding split valid_parts
is_valid_time_format t = valid_parts (split colon t)

-- "%02d", of a number below 100
abbrev pub pad2 : ℕ → Text → Text
pad2 n rest = (b'0' + n / 10) ∷ (b'0' + n % 10) ∷ rest

-- fmt.Sprintf("%02d:%02d", hour, minute)
unfoldable pub format_hhmm : ℕ → ℕ → Text
format_hhmm h m = pad2 h (colon ∷ pad2 m [])

-- `==` of two texts
unfoldable pub text_eq : Text → Text → Bool
text_eq [] [] = true
text_eq (x ∷ xs) (y ∷ ys) = x == y && text_eq xs ys
text_eq _ _ = false

pub text_eq_sound : (s t : Text) → text_eq s t ≡ true → s ≡ t
unfolding text_eq
text_eq_sound [] [] h = refl
text_eq_sound [] (b ∷ t) h = absurd (cc h)
text_eq_sound (a ∷ s) [] h = absurd (cc h)
text_eq_sound (a ∷ s) (b ∷ t) h = ground (arith, text_eq_sound s t)

pub text_eq_refl : (s : Text) → text_eq s s ≡ true
unfolding text_eq
text_eq_refl [] = refl
text_eq_refl (a ∷ s) = ground (arith, text_eq_refl s)
