-- ===== src/Runtime/Workload/Seconds.antt =====
-- `parse_duration_secs` of crates/ployz-runtime-backends/src/deploy/local.rs.
use ployz.Prelude.{
  ◌^◌, Option, none, some, [], ◌∷◌, ◌==◌, text_eq, nat_eq, is_empty, all, ltb, leb, if◌then◌else◌,
}
use mathlib.Core.Option
use ployz.Prelude.Int.{ℤ, pos, negated, scaled}
use ployz.Prelude.Text.{Text, codes, trim, is_ascii_digit}
use ployz.Manifest.Duration.{strip_suffix, digits_value, without_plus}

-- `str::parse::<i64>`: decimal digits after an optional sign, within 64 bits.
abbrev pub i64_of_digits : Text → Option ℤ
i64_of_digits digits =
    if is_empty digits
    then none
    else if all is_ascii_digit digits
    then (if ltb (digits_value 0 digits) (2 ^ 63) then some (pos (digits_value 0 digits)) else none)
    else none

abbrev pub i64_of_negative : Text → Option ℤ
i64_of_negative digits =
    if is_empty digits
    then none
    else if all is_ascii_digit digits
    then (if leb (digits_value 0 digits) (2 ^ 63)
        then some (negated (digits_value 0 digits))
        else none)
    else none

unfoldable pub parse_i64 : Text → Option ℤ
unfolding nat_eq digits_value is_ascii_digit
parse_i64 [] = none
parse_i64 (c ∷ cs) = if c == b'-' then i64_of_negative cs else i64_of_digits (without_plus (c ∷ cs))

-- The minutes are multiplied on 64 bits.
unfoldable pub parse_duration_secs : Text → Option ℤ
unfolding strip_suffix parse_i64 trim scaled
parse_duration_secs value =
    let trimmed = trim value in
    elim (strip_suffix (codes "s") trimmed) [
      | some rest ↦ parse_i64 (trim rest)
      | none ↦ elim (strip_suffix (codes "m") trimmed) [
        | some rest ↦ Option.map (λ minutes. scaled minutes 60) (parse_i64 (trim rest))
        | none ↦ parse_i64 trimmed
      ]
    ]
