-- ===== src/Crypto/RoundTrip.antt =====
-- Decryption against encryption.
use Prim.Native.Char.{code}
use discord_bot_backend.Prelude.{
  ℕ, ◌+◌, ltb, ◌=?◌, String, false, Option, none, some, ◌&&◌, ◌≡◌, refl, ap, ◌∙◌, ◌∷◌,
  if◌then◌else◌, Bool-cases, inl, inr, arith,
}
use discord_bot_backend.Crypto.{
  Cipher, Sealed, join, utf16_length, version, stored_parts, encrypt_token, decrypt_parts, decrypt,
}
use discord_bot_backend.Crypto.Parts.{has_colon, split-join}

-- The bytes of a code point, and of a text, in UTF-8.
abbrev pub char_bytes : ℕ → ℕ
char_bytes c = if ltb c 0x80 then 1 else if ltb c 0x800 then 2 else if ltb c 0x1_0000 then 3 else 4

unfoldable pub utf8_length : String → ℕ
utf8_length String.[] = 0
utf8_length (String.◌∷◌ c s) = char_bytes (code c) + utf8_length s

-- What `node:crypto` and `Buffer` document: a buffer holds the bytes of the text's UTF-8; base64 can be
-- read back and has no colon; AES-256-GCM seals with a key of 32 bytes and a vector of 12, throws
-- with a key of any other size, and opens with the key, the vector and the tag what was sealed.
pub record IsFaithful (node : Cipher) : Type 0 where
  pub encodes : (s : String) → node.byte_length (node.utf8 s) ≡ utf8_length s
  pub read_back : (b : node.Bytes) → node.from_base64 (node.to_base64 b) ≡ b
  pub no_colon : (b : node.Bytes) → has_colon (node.to_base64 b) ≡ false
  pub seals :
      (key iv : node.Bytes) (text : String)
      → node.byte_length key ≡ 32
      → node.byte_length iv ≡ 12
      → (sealed : Sealed node.Bytes) × (node.seal key iv text ≡ some sealed)
  pub refuses :
      (key iv : node.Bytes) (text : String)
      → ¬ (node.byte_length key ≡ 32)
      → node.seal key iv text ≡ none
  pub opens :
      (key iv : node.Bytes) (text : String) (sealed : Sealed node.Bytes)
      → node.seal key iv text ≡ some sealed
      → node.open_sealed key iv sealed.auth_tag sealed.ciphertext ≡ some text

-- What is read from what was stored, if anything was.
abbrev pub read_from : (String → Option String) → Option String → Option (Option String)
read_from f none = none
read_from f (some s) = some (f s)

module _ (node : Cipher) (faithful : IsFaithful node) where
  decrypt-join :
      (iv : node.Bytes) (text key : String) (sealed : Sealed node.Bytes)
      → node.seal (node.utf8 key) iv text ≡ some sealed
      → decrypt node key (join (version ∷ stored_parts node iv sealed)) ≡ some text
  unfolding decrypt decrypt_parts
  decrypt-join iv text key sealed e =
      let parts = split-join version (stored_parts node iv sealed) (
        ground (
          arith,
          faithful.no_colon iv,
          faithful.no_colon sealed.auth_tag,
          faithful.no_colon sealed.ciphertext,
        )) in
      ap (decrypt_parts node key) parts
      ∙ rw
          (
            faithful.read_back iv,
            faithful.read_back sealed.auth_tag,
            faithful.read_back sealed.ciphertext,
          )
          (faithful.opens (node.utf8 key) iv text sealed e)

  -- With a vector of 12 bytes, and given what node:crypto and Buffer document: if the key has 32 units
  -- in UTF-16 and 32 bytes in UTF-8, each text is encrypted, and decrypting what was stored gives it
  -- back. With any other key the encryption throws, also where the key has the 32 units that it
  -- asks for.
  pub decrypt-encrypt_token :
      (iv : node.Bytes) (text key : String)
      → node.byte_length iv ≡ 12
      → read_from (decrypt node key) (encrypt_token node iv text key)
        ≡ (if utf16_length key =? 32 && utf8_length key =? 32 then some (some text) else none)
  unfolding encrypt_token
  decrypt-encrypt_token iv text key h = elim (Bool-cases (utf16_length key =? 32)) [
    | inr other ↦ rw (other, encrypt_token) refl
    | inl units ↦ elim (Bool-cases (utf8_length key =? 32)) [
      | inr other ↦
          rw
            (
              units,
              other,
              faithful.refuses (node.utf8 key) iv text
                  (λ (e : node.byte_length (node.utf8 key) ≡ 32).
                    ground (arith, e, other, faithful.encodes key)),
              encrypt_token,
            )
            refl
      | inl bytes ↦
          let size : node.byte_length (node.utf8 key) ≡ 32 =
            faithful.encodes key ∙ ground (arith, bytes) in
          let (sealed, e) = faithful.seals (node.utf8 key) iv text size h in
          rw (units, bytes, e, encrypt_token) (ap some (decrypt-join iv text key sealed e))
    ]
  ]
