-- ===== src/Crypto/Parts.antt =====
-- Splitting at colons against joining with them.
use Prim.Native.Char.{code}
use Prim.Native.String.{◌++◌ as append}
use text.Mathlib.TextLemmas.{nil-append, cons-append}
use discord_bot_backend.Prelude.{
  String, Bool, false, ◌≡◌, refl, ap, ◌∙◌, ◌||◌, ◌=?◌, List, [], ◌∷◌, any, arith,
}
use discord_bot_backend.Crypto.{join, put_first, split}

abbrev pub has_colon : String → Bool
has_colon String.[] = false
has_colon (String.◌∷◌ c s) = code c =? 58 || has_colon s

split-plain : (s : String) → has_colon s ≡ false → split s ≡ s ∷ []
split-plain String.[] h = refl
split-plain (String.◌∷◌ c s) h =
    let plain : (code c =? 58) ≡ false = ground (arith, h) in
    rw plain (ap (put_first c) (split-plain s (ground (arith, h))))

split-colon : (rest : String) → split (append ":" rest) ≡ "" ∷ split rest
split-colon rest = ap split (cons-append ":" "" rest) ∙ ap (λ s. "" ∷ split s) (nil-append rest)

split-append :
    (s rest : String) → has_colon s ≡ false → split (append s (append ":" rest)) ≡ s ∷ split rest
split-append String.[] rest h = ap split (nil-append (append ":" rest)) ∙ split-colon rest
split-append (String.◌∷◌ c s) rest h =
    let plain : (code c =? 58) ≡ false = ground (arith, h) in
    ap split (cons-append c s (append ":" rest))
    ∙ rw plain (ap (put_first c) (split-append s rest (ground (arith, h))))

pub split-join :
    (part : String) (parts : List String)
    → any has_colon (part ∷ parts) ≡ false
    → split (join (part ∷ parts)) ≡ part ∷ parts
split-join part [] h = split-plain part (ground (arith, h))
split-join part (next ∷ parts) h =
    split-append part (join (next ∷ parts)) (ground (arith, h))
    ∙ ap (λ ps. part ∷ ps) (split-join next parts (ground (arith, h)))
