-- ===== src/Filter/Details.antt =====
-- The details of a validation error.
use discord_bot_backend.Prelude.{
  String, false, Option, none, some, ◌≡◌, refl, ap, ◌∙◌, ◌==◌, eq_iff, or_else, Bool-cases, inl,
  inr, if◌then◌else◌, List, [], ◌∷◌, arith,
}
use discord_bot_backend.Filter.{
  DetailList, Item, text, validation, other, put, first_constraint, validation_to_details,
}

-- What the answer says of a property.
abbrev pub detail : String → DetailList → Option String
detail key [] = none
detail key ((k, v) ∷ details) = if k == key then some v else detail key details

-- What the last error of a property says, or `before` where it has none.
abbrev pub last_error : String → List Item → Option String → Option String
last_error key [] before = before
last_error key (validation e ∷ items) before =
    last_error key items (
      if or_else e.property "unknown" == key then some (first_constraint e.constraints) else before)
last_error key (text s ∷ items) before = last_error key items before
last_error key (other s ∷ items) before = last_error key items before

detail-put :
    (key k v : String) (details : DetailList)
    → detail key (put k v details) ≡ (if k == key then some v else detail key details)
detail-put key k v [] = refl
detail-put key k v ((j, w) ∷ details) = elim (Bool-cases (j == k)) [
  | inl same ↦
      let met : (j == key) ≡ (k == key) = ap (λ i. i == key) ((eq_iff j k).0 same) in
      rw same (ground (arith, met))
  | inr differs ↦ elim (Bool-cases (j == key)) [
    | inl here ↦
        let missed : (k == key) ≡ false =
          ground (arith, differs, eq_iff j key, eq_iff k key, eq_iff j k, here) in
        rw differs (ground (arith, here, missed))
    | inr there ↦ rw differs (ground (arith, there, detail-put key k v details))
  ]
]

-- The details that the filter gives say of each property what the first constraint of its last error
-- says.
pub detail-validation_to_details :
    (key : String) (items : List Item) (details : DetailList)
    → detail key (validation_to_details items details) ≡ last_error key items (detail key details)
unfolding validation_to_details
detail-validation_to_details key [] details = refl
detail-validation_to_details key (validation e ∷ items) details =
    let k = or_else e.property "unknown" in
    let v = first_constraint e.constraints in
    detail-validation_to_details key items (put k v details)
    ∙ ap (last_error key items) (detail-put key k v details)
detail-validation_to_details key (text s ∷ items) details =
    detail-validation_to_details key items details
detail-validation_to_details key (other s ∷ items) details =
    detail-validation_to_details key items details
