-- ===== src/Manifest/Duration.antt =====
-- `parse_duration` of crates/ployz-types/src/spec.rs: an amount and a unit, in milliseconds.
use ployz.Prelude.{
  ℕ, ◌+◌, ◌-◌, ◌*◌, ◌^◌, Option, none, some, List, [], ◌∷◌, ◌++◌, reverse, ltb, if◌then◌else◌, ◌==◌,
  nat_eq, is_empty, all,
}
use ployz.Prelude.Text.{Text, codes, trim, is_ascii_digit}
use ployz.Model.Error.{Result, ok, err, ◌>>◌, fail_if}

-- `strip_prefix(p)` for a text.
unfoldable pub strip_text : Text → Text → Option Text
unfolding nat_eq
strip_text [] s = some s
strip_text (p ∷ ps) [] = none
strip_text (p ∷ ps) (c ∷ cs) = let rest = strip_text ps cs in if p == c then rest else none

-- `strip_suffix(p)`
unfoldable pub strip_suffix : Text → Text → Option Text
unfolding strip_text
strip_suffix p s = elim (strip_text (reverse p) (reverse s)) [
  | none ↦ none
  | some rest ↦ some (reverse rest)
]

unfoldable pub digits_value : ℕ → Text → ℕ
digits_value acc [] = acc
digits_value acc (d ∷ ds) = digits_value (acc * 10 + (d - b'0')) ds

abbrev pub without_plus : Text → Text
without_plus [] = []
without_plus (c ∷ cs) = if c == b'+' then cs else c ∷ cs

-- `str::parse::<u64>`: decimal digits after an optional plus, below 2^64.
unfoldable pub parse_u64 : Text → Option ℕ
unfolding nat_eq digits_value is_ascii_digit
parse_u64 s =
    let digits = without_plus s in
    if is_empty digits
    then none
    else if all is_ascii_digit digits
    then (if ltb (digits_value 0 digits) (2 ^ 64) then some (digits_value 0 digits) else none)
    else none

abbrev pub units : List (Text × ℕ)
units = (codes "ms", 1) ∷ (codes "s", 1000) ∷ (codes "m", 60000) ∷ (codes "h", 3600000) ∷ []

abbrev pub not_an_integer : Text → Text
not_an_integer value =
    codes "must be an integer duration like '30s' or '5m', got '" ++ value ++ codes "'"

abbrev pub too_large : Text → Text
too_large value = codes "is too large to represent as a duration: '" ++ value ++ codes "'"

abbrev pub unknown_unit : Text → Text
unknown_unit value =
    codes "must use one of the supported suffixes: ms, s, m, h; got '" ++ value ++ codes "'"

-- `parse` and `checked_mul` of one unit.
unfoldable pub in_unit : Text → Text → ℕ → Result Text ℕ
unfolding parse_u64 trim
in_unit value raw_value multiplier_ms = elim (parse_u64 (trim raw_value)) [
  | none ↦ err (not_an_integer value)
  | some amount ↦
      if ltb (amount * multiplier_ms) (2 ^ 64)
      then ok (amount * multiplier_ms)
      else err (too_large value)
]

-- The first unit whose suffix the text has decides.
unfoldable pub by_unit : Text → Text → List (Text × ℕ) → Result Text ℕ
unfolding strip_suffix in_unit
by_unit value trimmed [] = err (unknown_unit value)
by_unit value trimmed ((suffix, multiplier_ms) ∷ rest) = elim (strip_suffix suffix trimmed) [
  | none ↦ by_unit value trimmed rest
  | some raw_value ↦ in_unit value raw_value multiplier_ms
]

unfoldable pub parse_duration : Text → Result Text ℕ
unfolding trim by_unit
parse_duration value =
    let trimmed = trim value in
    fail_if (is_empty trimmed) (codes "cannot be empty") >> by_unit value trimmed units
