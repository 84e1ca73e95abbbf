-- ===== src/Prelude/Text.antt =====
-- The source's strings, as the lists of their characters' code points: literals, the order, the
-- trimming, splitting and formatting of the standard library that the program calls.
pub mod Decimal
use Prim.Native.Nat.{ℕ, zero, suc, ◌+◌, ◌-◌, ◌≤◌, ◌<◌}
use Prim.Native.Char.{code}
use Prim.Native.String
use Prim.Native.String.{String}
use mathlib.Core.Path.{◌≡◌, refl}
use mathlib.Core.Bool.{Bool, true, false, ◌&&◌, ◌||◌}
use mathlib.Core.Option.{Option, none, some}
use mathlib.Core.List.{List, [], ◌∷◌, ◌++◌, map, reverse}
use native.Mathlib.Omega.{arith}
use ployz.Prelude.Tests.{if◌then◌else◌, leb}
use ployz.Prelude.Equality.{◌==◌, nat_eq}

abbrev pub Text : Type 0
Text = List ℕ

-- The literal of a text.
abbrev pub codes : String → Text
codes String.[] = []
codes (String.◌∷◌ c s) = code c ∷ codes s

-- `starts_with(prefix)`
unfoldable pub starts_with : Text → Text → Bool
unfolding nat_eq
starts_with s [] = true
starts_with [] (p ∷ ps) = false
starts_with (c ∷ cs) (p ∷ ps) = c == p && starts_with cs ps

-- `strip_prefix(p)` for a single character.
unfoldable pub strip_prefix : ℕ → Text → Option Text
unfolding nat_eq
strip_prefix p [] = none
strip_prefix p (c ∷ cs) = if c == p then some cs else none

-- `trim_start_matches(p)`
unfoldable pub trim_start : (ℕ → Bool) → Text → Text
trim_start p [] = []
trim_start p (c ∷ cs) = let rest = trim_start p cs in if p c then rest else c ∷ cs

-- `trim_end_matches(p)`
unfoldable pub trim_end : (ℕ → Bool) → Text → Text
unfolding trim_start
trim_end p s = reverse (trim_start p (reverse s))

-- The characters with Unicode's property White_Space.
unfoldable pub is_whitespace : ℕ → Bool
unfolding nat_eq
is_whitespace c =
    (leb 9 c && leb c 13)
    || c == 32
    || c == 133
    || c == 160
    || c == 5760
    || (leb 8192 c && leb c 8202)
    || c == 8232
    || c == 8233
    || c == 8239
    || c == 8287
    || c == 12288

-- `trim()`
unfoldable pub trim : Text → Text
unfolding trim_end is_whitespace
trim s = trim_end is_whitespace (trim_start is_whitespace s)

-- `char::to_ascii_lowercase`
unfoldable pub lower_char : ℕ → ℕ
lower_char c = if leb b'A' c && leb c b'Z' then c + 32 else c

-- `to_ascii_lowercase()`
unfoldable pub to_ascii_lowercase : Text → Text
unfolding lower_char
to_ascii_lowercase = map lower_char

unfoldable pub is_ascii_digit : ℕ → Bool
is_ascii_digit c = leb b'0' c && leb c b'9'

-- Puts a character in front of the first part.
abbrev pub push_front : ℕ → List Text → List Text
push_front c [] = (c ∷ []) ∷ []
push_front c (p ∷ ps) = (c ∷ p) ∷ ps

-- `split(sep)`: the parts between the separators, at least one.
unfoldable pub split : ℕ → Text → List Text
unfolding nat_eq
split sep [] = [] ∷ []
split sep (c ∷ cs) = let rest = split sep cs in if c == sep then [] ∷ rest else push_front c rest

-- `split_once(sep)`
unfoldable pub split_once : ℕ → Text → Option (Text × Text)
unfolding nat_eq
split_once sep [] = none
split_once sep (c ∷ cs) =
    let rest = split_once sep cs in
    if c == sep then some ([], cs) else elim rest [ none ↦ none | some (l, r) ↦ some (c ∷ l, r) ]

-- `rsplit_once(sep)`: at the last separator.
unfoldable pub rsplit_once : ℕ → Text → Option (Text × Text)
unfolding nat_eq
rsplit_once sep [] = none
rsplit_once sep (c ∷ cs) = elim (rsplit_once sep cs) [
  | some (l, r) ↦ some (c ∷ l, r)
  | none ↦ if c == sep then some ([], cs) else none
]

-- The length in bytes of the UTF-8 form, `str::len`.
unfoldable pub byte_len : Text → ℕ
byte_len [] = 0
byte_len (c ∷ cs) =
    (if leb c 127 then 1 else if leb c 2047 then 2 else if leb c 65535 then 3 else 4) + byte_len cs
