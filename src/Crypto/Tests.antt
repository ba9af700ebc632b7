-- ===== src/Crypto/Tests.antt =====
-- A cipher that is faithful, and the round trip with it.
use Prim.Native.Char.{code}
use Prim.Native.String.{◌++◌ as append}
use text.Mathlib.TextEquality.{Char-path}
use mathlib.Core.Path.{subst}
use mathlib.Core.Option.{some-injective, none-ne-some}
use discord_bot_backend.Prelude.{
  String, ◌&&◌, false, sym, none, some, ◌≡◌, refl, ap, ◌∙◌, ◌==◌, eq_refl, ◌=?◌, Bool-cases, inl,
  inr, if◌then◌else◌, arith,
}
use discord_bot_backend.Crypto.{Cipher, Sealed, utf16_length, encrypt_token, decrypt_parts, decrypt}
use discord_bot_backend.Crypto.Parts.{has_colon}
use discord_bot_backend.Crypto.RoundTrip.{IsFaithful, utf8_length, read_from, decrypt-encrypt_token}

-- Two characters for each, none of them a colon.
abbrev spell : String → String
spell String.[] = String.[]
spell (String.◌∷◌ c s) =
    if code c =? 58
    then String.◌∷◌ "c" (String.◌∷◌ "x" (spell s))
    else String.◌∷◌ "p" (String.◌∷◌ c (spell s))

abbrev read : String → String
read String.[] = String.[]
read (String.◌∷◌ t String.[]) = String.[]
read (String.◌∷◌ t (String.◌∷◌ c s)) =
    let rest = read s in if code t =? 99 then String.◌∷◌ ":" rest else String.◌∷◌ c rest

read-spell : (s : String) → read (spell s) ≡ s
read-spell String.[] = refl
read-spell (String.◌∷◌ c s) = elim (Bool-cases (code c =? 58)) [
  | inl colon ↦ rw colon (
      ap (λ t. String.◌∷◌ ":" t) (read-spell s)
      ∙ ap (λ d. String.◌∷◌ d s) (Char-path ":" c (ground (arith, colon))))
  | inr other ↦ rw other (ap (λ t. String.◌∷◌ c t) (read-spell s))
]

spell-plain : (s : String) → has_colon (spell s) ≡ false
spell-plain String.[] = refl
spell-plain (String.◌∷◌ c s) = elim (Bool-cases (code c =? 58)) [
  | inl colon ↦ rw colon (spell-plain s)
  | inr other ↦ rw other (ground (arith, other, spell-plain s))
]

abbrev node : Cipher
node = record {
  Bytes = String;
  utf8 = λ s. s;
  to_base64 = spell;
  from_base64 = read;
  byte_length = utf8_length;
  seal = λ key iv text.
      if utf8_length key =? 32
      then some (record { ciphertext = text; auth_tag = append key iv })
      else none;
  open_sealed = λ key iv tag text. if tag == append key iv then some text else none;
}

abbrev sealed_by : String → String → String → Sealed String
sealed_by key iv text = record { ciphertext = text; auth_tag = append key iv }

seal-opens :
    (key iv text : String) (sealed : Sealed String)
    → node.seal key iv text ≡ some sealed
    → node.open_sealed key iv sealed.auth_tag sealed.ciphertext ≡ some text
seal-opens key iv text sealed e = elim (Bool-cases (utf8_length key =? 32)) [
  | inr other ↦ absurd (
      none-ne-some sealed
        (ap (λ b. if b then some (sealed_by key iv text) else none) (sym other) ∙ e))
  | inl bytes ↦
      subst (λ (s : Sealed String). node.open_sealed key iv s.auth_tag s.ciphertext ≡ some text)
        (some-injective (sealed_by key iv text) sealed
          (ap (λ b. if b then some (sealed_by key iv text) else none) (sym bytes) ∙ e))
        (rw (eq_refl (append key iv)) refl)
]

node-IsFaithful : IsFaithful node
node-IsFaithful = record {
  read_back = read-spell;
  no_colon = spell-plain;
  encodes = λ s. refl;
  seals = λ key iv text bytes twelve. (sealed_by key iv text, rw bytes refl);
  refuses = λ key iv text other. elim (Bool-cases (utf8_length key =? 32)) [
    | inl bytes ↦ absurd (other (ground (arith, bytes)))
    | inr not_bytes ↦ rw not_bytes refl
  ];
  opens = seal-opens;
}

-- Twelve bytes.
abbrev iv : String
iv = "random bytes"

-- Of 32 units and 33 bytes.
abbrev accented : String
accented = "0123456789abcdef0123456789abcdeé"

abbrev key : String
key = "0123456789abcdef0123456789abcdef"

crypto : Unit {0}
unfolding utf16_length utf8_length encrypt_token decrypt_parts decrypt
crypto = tt

refusals :
    (encrypt_token node "iv" "a:b" "short" ≡ none)
    × (decrypt node key "v2:a:b:c" ≡ none)
    × (decrypt node key "v1:a:b" ≡ none)
    × (encrypt_token node iv "a:b" accented ≡ none)
    × (encrypt_token node "i" ":" key
        ≡ some "v1:pi:p0p1p2p3p4p5p6p7p8p9papbpcpdpepfp0p1p2p3p4p5p6p7p8p9papbpcpdpepfpi:cx")
unfolding crypto
refusals = (refl, refl, refl, refl, refl)

decrypt-encrypt_token_example :
    read_from (decrypt node key) (encrypt_token node iv "a:b" key)
    ≡ (if utf16_length key =? 32 && utf8_length key =? 32 then some (some "a:b") else none)
unfolding crypto
decrypt-encrypt_token_example = decrypt-encrypt_token node node-IsFaithful iv "a:b" key refl
