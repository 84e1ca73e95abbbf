-- ===== src/Prelude/Text/Decimal.antt =====
-- The formats `{}` and `{:04}` of an unsigned number, on 64 bits at most.
use Prim.Native.Nat.{ℕ, zero, suc, ◌+◌, ◌*◌, ◌/◌, ◌%◌, ◌<◌, ◌-◌, ◌^◌}
use mathlib.Core.Path.{◌≡◌, refl, sym, ap, ◌∙◌}
use mathlib.Core.Bool.{true}
use mathlib.Core.List.{[], ◌∷◌}
use native.Mathlib.Nat.{pow-suc}
use native.Mathlib.Omega.{arith}
use mathlib.Core.Logic.{inl, inr}
use ployz.Prelude.Tests.{if◌then◌else◌, ltb, Bool-cases}
use ployz.Prelude.Lists.{length}
use ployz.Prelude.Text.{Text}

-- The digits of a number in front of `rest`; the fuel bounds their number.
digits_onto : ℕ → ℕ → Text → Text
digits_onto zero n rest = rest
digits_onto (suc fuel) n rest =
    let more = digits_onto fuel (n / 10) ((b'0' + n % 10) ∷ rest) in
    if ltb n 10 then (b'0' + n) ∷ rest else more

-- `{}`: a number of 64 bits has twenty digits at most.
unfoldable pub decimal : ℕ → Text
unfolding digits_onto
decimal n = digits_onto 20 n []

zeros_onto : ℕ → Text → Text
zeros_onto zero s = s
zeros_onto (suc k) s = b'0' ∷ zeros_onto k s

-- `{:04}`: zeros in front, up to four characters.
unfoldable pub decimal4 : ℕ → Text
unfolding decimal zeros_onto
decimal4 n = zeros_onto (4 - length (decimal n)) (decimal n)

-- The number that a row of digits stands for, after the digits read so far.
value_from : ℕ → Text → ℕ
value_from acc [] = acc
value_from acc (c ∷ cs) = value_from (acc * 10 + (c - b'0')) cs

pub value : Text → ℕ
value = value_from 0

shift_digit : (n : ℕ) → n / 10 * 10 + (b'0' + n % 10 - b'0') ≡ n
shift_digit n = omega arith

value_from-digits_onto :
    (fuel n : ℕ) (rest : Text)
    → n < 10 ^ suc fuel
    → value_from 0 (digits_onto (suc fuel) n rest) ≡ value_from n rest
unfolding value_from digits_onto
value_from-digits_onto zero n rest h =
    let small : ltb n 10 ≡ true = ground arith in
    rw small (ap (λ t. value_from t rest) (omega arith))
value_from-digits_onto (suc fuel) n rest h = elim (Bool-cases (ltb n 10)) [
  | inl small ↦ rw small (ap (λ t. value_from t rest) (omega arith))
  | inr large ↦ rw large (
      value_from-digits_onto fuel (n / 10) ((b'0' + n % 10) ∷ rest)
        (omega (arith, pow-suc 10 (suc fuel)))
      ∙ ap (λ t. value_from t rest) (shift_digit n))
]

value-zeros_onto : (k : ℕ) (s : Text) → value_from 0 (zeros_onto k s) ≡ value_from 0 s
unfolding value_from zeros_onto
value-zeros_onto zero s = refl
value-zeros_onto (suc k) s = value-zeros_onto k s

-- A printed number of 64 bits reads back, also with zeros in front.
pub value-decimal4 : (n : ℕ) → n < 2 ^ 64 → value (decimal4 n) ≡ n
unfolding value decimal4 value_from
value-decimal4 n h =
    value-zeros_onto (4 - length (decimal n)) (decimal n)
    ∙ value_from-digits_onto 19 n [] (omega arith)

pub decimal4_injective : (m n : ℕ) → m < 2 ^ 64 → n < 2 ^ 64 → decimal4 m ≡ decimal4 n → m ≡ n
decimal4_injective m n hm hn e = sym (value-decimal4 m hm) ∙ ap value e ∙ value-decimal4 n hn
