-- ===== src/Manifest/Hash.antt =====
-- The hashes of a manifest and of a revision: `stable_hash_hex` and `revision_hash` of
-- crates/ployz-types/src/spec.rs, with `canonical_revision_json`. What serde prints is a parameter.
use Prim.Native.Nat.{bit_xor}
use ployz.Prelude.{
  ℕ, zero, suc, ◌+◌, ◌-◌, ◌*◌, ◌/◌, ◌%◌, ◌^◌, List, [], ◌∷◌, ◌++◌, ltb, if◌then◌else◌,
}
use ployz.Prelude.Text.{Text, codes}
use ployz.Model.Error.{Result, ok, ◌>>=◌, map_err}
use ployz.Model.Service.{DeployPreview}
use ployz.Model.Spec.{ServiceSpec, DeployManifest}

-- What `serde_json` prints, or its error.
pub record Json : Type 0 where
  pub spec : ServiceSpec → Result Text Text
  pub manifest : DeployManifest → Result Text Text
  pub preview : DeployPreview → Result Text Text

-- The bytes of a code point in UTF-8.
abbrev utf8_char : ℕ → List ℕ
utf8_char c =
    if ltb c 0x80
    then c ∷ []
    else if ltb c 0x800
    then (0xc0 + c / 64) ∷ (0x80 + c % 64) ∷ []
    else if ltb c 0x10000
    then (0xe0 + c / 4096) ∷ (0x80 + (c / 64) % 64) ∷ (0x80 + c % 64) ∷ []
    else (0xf0 + c / 262144)
      ∷ (0x80 + (c / 4096) % 64)
      ∷ (0x80 + (c / 64) % 64)
      ∷ (0x80 + c % 64)
      ∷ []

-- `as_bytes`
unfoldable pub as_bytes : Text → List ℕ
as_bytes [] = []
as_bytes (c ∷ cs) = utf8_char c ++ as_bytes cs

-- The loop over the bytes, in 64 bits.
unfoldable pub hash_bytes : ℕ → List ℕ → ℕ
hash_bytes hash [] = hash
hash_bytes hash (byte ∷ bytes) =
    hash_bytes ((bit_xor hash byte * 0x00000100000001b3) % 2 ^ 64) bytes

abbrev hex_digit : ℕ → ℕ
hex_digit d = if ltb d 10 then b'0' + d else b'a' + (d - 10)

-- The given number of digits in base 16, the last of them first in the recursion.
unfoldable pub hex_onto : ℕ → ℕ → Text → Text
hex_onto zero n rest = rest
hex_onto (suc k) n rest = hex_onto k (n / 16) (hex_digit (n % 16) ∷ rest)

unfoldable pub stable_hash_hex : List ℕ → Text
unfolding hash_bytes hex_onto
stable_hash_hex bytes = hex_onto 16 (hash_bytes 0xcbf29ce484222325 bytes) []

module _ (json : Json) where
  abbrev pub canonical_revision_json : ServiceSpec → Result Text Text
  canonical_revision_json s = map_err (λ e. codes "serialize revision: " ++ e) (json.spec s)

  unfoldable pub revision_hash : ServiceSpec → Result Text Text
  unfolding stable_hash_hex as_bytes
  revision_hash s = canonical_revision_json s >>= λ text. ok (stable_hash_hex (as_bytes text))
