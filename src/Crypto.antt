-- ===== src/Crypto.antt =====
-- libs/shared/src/crypto: tokens are stored as `v1:iv:tag:ciphertext`. AES-256-GCM, the base64 and
-- UTF-8 of Node's buffers and the random bytes are outside the repository, so an interface.
pub mod Parts
pub mod RoundTrip
mod Tests
use Prim.Native.Char.{Char, code}
use Prim.Native.String.{◌++◌ as append}
use discord_bot_backend.Prelude.{
  ℕ, ◌+◌, zero, suc, String, Bool, true, false, Option, none, some, ◌≡◌, ◌==◌, ◌||◌, not, ◌=?◌, ltb,
  if◌then◌else◌, List, [], ◌∷◌, length, drop,
}

-- What an encryption gives.
pub record Sealed (Bytes : Type 0) : Type 0 where
  pub ciphertext : Bytes
  pub auth_tag : Bytes

-- `node:crypto` and the buffers: an encryption throws, as with a key of the wrong size, or gives what
-- it sealed; a decryption throws or gives a text.
pub record Cipher : Type 1 where
  pub Bytes : Type 0
  pub byte_length : Bytes → ℕ
  pub utf8 : String → Bytes
  pub to_base64 : Bytes → String
  pub from_base64 : String → Bytes
  pub seal : (key iv : Bytes) → String → Option (Sealed Bytes)
  pub open_sealed : (key iv tag ciphertext : Bytes) → Option String

-- `text.length`: a code point beyond the first 65,536 takes two units.
unfoldable pub utf16_length : String → ℕ
utf16_length String.[] = 0
utf16_length (String.◌∷◌ c s) = (if ltb (code c) 0x1_0000 then 1 else 2) + utf16_length s

abbrev pub version : String
version = "v1"

-- `parts.join(':')`
abbrev pub join : List String → String
join [] = ""
join (part ∷ []) = part
join (part ∷ next ∷ parts) = append part (append ":" (join (next ∷ parts)))

abbrev pub put_first : Char → List String → List String
put_first c [] = String.◌∷◌ c String.[] ∷ []
put_first c (part ∷ parts) = String.◌∷◌ c part ∷ parts

-- `text.split(':')`
abbrev pub split : String → List String
split String.[] = "" ∷ []
split (String.◌∷◌ c s) = let rest = split s in if code c =? 58 then "" ∷ rest else put_first c rest

module _ (node : Cipher) where
  -- The parts of a stored token.
  abbrev pub stored_parts : node.Bytes → Sealed node.Bytes → List String
  stored_parts iv sealed =
      node.to_base64 iv ∷ node.to_base64 sealed.auth_tag ∷ node.to_base64 sealed.ciphertext ∷ []

  -- `encryptToken`; the 12 random bytes are an argument.
  unfoldable pub encrypt_token : node.Bytes → String → String → Option String
  encrypt_token iv text key =
      if utf16_length key =? 32
      then (elim (node.seal (node.utf8 key) iv text) [
        | none ↦ none
        | some sealed ↦ some (join (version ∷ stored_parts iv sealed))
      ])
      else none

  -- The parts of a stored token; the ciphertext is all that follows the tag.
  unfoldable pub decrypt_parts : String → List String → Option String
  decrypt_parts key (first ∷ iv ∷ tag ∷ next ∷ more) =
      if first == version
      then node.open_sealed (node.utf8 key) (node.from_base64 iv) (node.from_base64 tag)
          (node.from_base64 (join (next ∷ more)))
      else none
  decrypt_parts key [] = none
  decrypt_parts key (a ∷ []) = none
  decrypt_parts key (a ∷ b ∷ []) = none
  decrypt_parts key (a ∷ b ∷ c ∷ []) = none

  unfoldable pub decrypt : String → String → Option String
  unfolding decrypt_parts
  decrypt key text = decrypt_parts key (split text)
