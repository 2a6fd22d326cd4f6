-- ===== src/Security/Streams.antt =====
-- The FNV-1a hash and the XOR stream of the legacy formats, in vault-envelope.ts,
-- developer-secret-envelope.ts and master-password-verifier.ts of packages/security/src.
use unuvault.Security.{Bytes, Platform}
use Prim.Native.Nat.{bit_xor}
use unuvault.Prelude.{
  ◌∙◌, ◌≤◌, ap, inr, inl, Bool-cases, arith, ◌≡◌, codes, ◌<◌, ◌+◌, ◌++◌, text_eq, ltb, length, leb,
  Option, if◌then◌else◌, Text, ℕ, true, false, none, some, [], ◌∷◌, ◌%◌, ◌*◌, ◌/◌, ◌^◌, ◌-◌, zero,
  suc,
}

-- `hash ^= value; hash = Math.imul(hash >>> 0, 0x01000193)`, as an unsigned number of 32 bits.
abbrev fnv_step : ℕ → ℕ → ℕ
fnv_step hash value = bit_xor hash value * 0x01000193 % 2 ^ 32

fnv_from : ℕ → Bytes → ℕ
fnv_from hash [] = hash
fnv_from hash (value ∷ bytes) = fnv_from (fnv_step hash value) bytes

abbrev hex_digit : ℕ → ℕ
hex_digit n = if ltb n 10 then 48 + n else 87 + n

-- The last `count` digits of `toString(16)`, with zeros in front.
hex_digits : (count : ℕ) → ℕ → Text
hex_digits zero n = []
hex_digits (suc count) n = hex_digits count (n / 16) ++ hex_digit (n % 16) ∷ []

-- A number in decimal, in front of `rest`; it has at most `fuel` digits.
decimal_from : (fuel : ℕ) → ℕ → Text → Text
decimal_from zero n rest = rest
decimal_from (suc fuel) n rest = elim (ltb n 10) [
  | true ↦ (48 + n) ∷ rest
  | false ↦ decimal_from fuel (n / 10) ((48 + n % 10) ∷ rest)
]

pub decimal : ℕ → Text
decimal n = decimal_from (suc n) n []

-- A decimal text read from the left, after a number that was read before.
value_from : ℕ → Text → ℕ
value_from v [] = v
value_from v (c ∷ s) = value_from (10 * v + (c - 48)) s

decimal_from-small :
    (fuel n : ℕ) (rest : Text) → n < 10 → decimal_from (suc fuel) n rest ≡ (48 + n) ∷ rest
unfolding decimal_from
decimal_from-small fuel n rest h = ground arith

decimal_from-large :
    (fuel n : ℕ) (rest : Text)
    → 10 ≤ n
    → decimal_from (suc fuel) n rest ≡ decimal_from fuel (n / 10) ((48 + n % 10) ∷ rest)
unfolding decimal_from
decimal_from-large fuel n rest h = ground arith

decimal_from_lem :
    (fuel n : ℕ) (rest : Text)
    → n < fuel
    → value_from 0 (decimal_from fuel n rest) ≡ value_from n rest
unfolding decimal_from value_from
decimal_from_lem zero n rest h = absurd (omega (arith, h))
decimal_from_lem (suc fuel) n rest h = elim (Bool-cases (ltb n 10)) [
  | inl small ↦
      let few : n < 10 = ground (arith, small) in
      rw (decimal_from-small fuel n rest few) (ap (λ v. value_from v rest) (omega arith))
  | inr large ↦
      let many : 10 ≤ n = ground (arith, large) in
      rw (decimal_from-large fuel n rest many) (
        decimal_from_lem fuel (n / 10) ((48 + n % 10) ∷ rest) (omega (arith, h, many))
        ∙ ap (λ v. value_from v rest) (omega arith))
]

-- The fuel suffices: the decimal text of a number reads back as that number.
decimal_lem : (n : ℕ) → value_from 0 (decimal n) ≡ n
unfolding decimal value_from
decimal_lem n = decimal_from_lem (suc n) n [] (omega arith)

module _ (platform : Platform) where
  -- `hashToHex`.
  unfoldable pub hash_to_hex : Text → Text
  unfolding fnv_from hex_digits
  hash_to_hex input = hex_digits 8 (fnv_from 0x811c9dc5 (platform.encode input))

  abbrev hex_value : ℕ → ℕ
  hex_value c = if leb c 57 then c - 48 else c - 87

  -- `Number.parseInt(hex.slice(0, 2), 16)`.
  abbrev first_byte : Text → ℕ
  first_byte (a ∷ b ∷ rest) = 16 * hex_value a + hex_value b
  first_byte (a ∷ []) = 0
  first_byte [] = 0

  -- `createKeystream`, from an index on.
  create_keystream : (index length : ℕ) → (passphrase salt : Text) → Bytes
  create_keystream index zero passphrase salt = []
  create_keystream index (suc length) passphrase salt =
      first_byte (hash_to_hex (passphrase ++ codes ":" ++ salt ++ codes ":" ++ decimal index))
      ∷ create_keystream (suc index) length passphrase salt

  xor_bytes : Bytes → Bytes → Bytes
  xor_bytes [] stream = []
  xor_bytes (b ∷ bytes) [] = []
  xor_bytes (b ∷ bytes) (k ∷ stream) = bit_xor b k ∷ xor_bytes bytes stream

  pub xor_with_keystream : Bytes → (passphrase salt : Text) → Bytes
  unfolding create_keystream xor_bytes
  xor_with_keystream bytes passphrase salt =
      xor_bytes bytes (create_keystream 0 (length bytes) passphrase salt)

  -- `fromBase64`: the code units of what `atob` gives are its bytes.
  abbrev pub from_base64 : Text → Option Bytes
  from_base64 value = platform.atob value

  -- The end of `openVaultPassword` and of `openDeveloperSecretBlob`.
  abbrev pub if_tagged : (passphrase salt tag opened : Text) → Text
  if_tagged passphrase salt tag opened =
      if text_eq (hash_to_hex (opened ++ codes ":" ++ passphrase ++ codes ":" ++ salt)) tag
      then opened
      else []

  abbrev pub tagged_or_blank : (passphrase salt tag : Text) → Option Bytes → Text
  tagged_or_blank passphrase salt tag none = []
  tagged_or_blank passphrase salt tag (some bytes) =
      if_tagged passphrase salt tag (platform.decode (xor_with_keystream bytes passphrase salt))

  unfoldable pub open_legacy : (encrypted_payload salt tag passphrase : Text) → Text
  unfolding xor_with_keystream
  open_legacy encrypted_payload salt tag passphrase =
      tagged_or_blank passphrase salt tag (from_base64 encrypted_payload)
