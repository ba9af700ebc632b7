-- ===== src/Counters/Names.antt =====
-- counter-template.util.ts: the names that templates give.
use discord_bot_backend.Prelude.{
  ℕ, zero, suc, ◌≤◌, false, Option, none, ◌≡◌, refl, ap, ◌∙◌, ◌=?◌, leb, [], ◌∷◌, take, length,
  if◌then◌else◌, arith, Bool-cases, inl, inr, All,
}
use discord_bot_backend.Counters.{Units}
use discord_bot_backend.Counters.Template.{
  match_literal, match_any, match_count, match_date, replace_from, format_counter_channel_name,
  counter_template_max_length,
}

length-take : (n : ℕ) (text : Units) → length (take n text) ≤ n
length-take zero text = omega arith
length-take (suc n) [] = omega arith
length-take (suc n) (c ∷ text) = omega (arith, length-take n text)

take-all : (n : ℕ) (text : Units) → length text ≤ n → take n text ≡ text
take-all zero [] h = refl
take-all zero (c ∷ text) h = absurd (omega arith)
take-all (suc n) [] h = refl
take-all (suc n) (c ∷ text) h = ap (λ t. c ∷ t) (take-all n text (omega arith))

abbrev pub IsPlain : Units → Type 0
IsPlain text = All (λ c. (c =? 123) ≡ false) text

replace_from-IsPlain :
    (pattern : Units → Option ℕ) (by : Units) (text : Units)
    → ((c : ℕ) (rest : Units) → (c =? 123) ≡ false → pattern (c ∷ rest) ≡ none)
    → IsPlain text
    → replace_from pattern by 0 text ≡ text
unfolding replace_from
replace_from-IsPlain pattern by [] no_match plain = refl
replace_from-IsPlain pattern by (c ∷ text) no_match plain =
    rw (no_match c text plain.0, replace_from)
      (ap (λ t. c ∷ t) (replace_from-IsPlain pattern by text no_match plain.1))

match_count-none : (c : ℕ) (rest : Units) → (c =? 123) ≡ false → match_count (c ∷ rest) ≡ none
unfolding match_literal
match_count-none c rest h = ground arith

match_date-none : (c : ℕ) (rest : Units) → (c =? 123) ≡ false → match_date (c ∷ rest) ≡ none
unfolding match_literal
match_date-none c rest h = ground arith

match_any-none : (c : ℕ) (rest : Units) → (c =? 123) ≡ false → match_any (c ∷ rest) ≡ none
unfolding match_any
match_any-none c [] h = refl
match_any-none c (d ∷ rest) h = rw h refl

cut-take :
    (r : Units)
    → (if leb (suc counter_template_max_length) (length r)
        then take counter_template_max_length r
        else r)
      ≡ take counter_template_max_length r
cut-take r = elim (Bool-cases (leb 101 (length r))) [
  | inl e ↦ rw e refl
  | inr e ↦ rw (e, take-all 100 r (ground (arith, e))) refl
]

-- The name of a channel has at most 100 units, whatever the template, the number and the date.
pub length-format_counter_channel_name :
    (template count_text date_text : Units)
    → length (format_counter_channel_name template count_text date_text)
      ≤ counter_template_max_length
unfolding format_counter_channel_name
length-format_counter_channel_name template count_text date_text =
    let result =
      replace_from match_any count_text 0
        (replace_from match_date date_text 0 (replace_from match_count count_text 0 template)) in
    omega (arith, ap length (cut-take result), length-take 100 result)

-- A template without `{` is the name itself, cut to 100 units.
pub format_counter_channel_name-IsPlain :
    (template count_text date_text : Units)
    → IsPlain template
    → format_counter_channel_name template count_text date_text
      ≡ take counter_template_max_length template
unfolding format_counter_channel_name
format_counter_channel_name-IsPlain template count_text date_text plain =
    let cut = λ (r : Units). if leb 101 (length r) then take 100 r else r in
    let dated = λ (t : Units). replace_from match_date date_text 0 t in
    let whole = λ (t : Units). replace_from match_any count_text 0 t in
    ap (λ t. cut (whole (dated t)))
      (replace_from-IsPlain match_count count_text template match_count-none plain)
    ∙ ap (λ t. cut (whole t))
        (replace_from-IsPlain match_date date_text template match_date-none plain)
    ∙ ap cut (replace_from-IsPlain match_any count_text template match_any-none plain)
    ∙ cut-take template
