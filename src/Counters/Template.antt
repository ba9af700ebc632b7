-- ===== src/Counters/Template.antt =====
-- libs/shared/src/counters/counter-template.util.ts: the name of a channel from a template. The
-- regular expressions are the functions that match them at the start of a text.
use discord_bot_backend.Prelude.{
  ℕ, zero, suc, ◌+◌, ◌-◌, Bool, true, false, Option, none, some, ◌&&◌, ◌||◌, leb, ◌=?◌, [], ◌∷◌,
  ◌++◌, take, length, if◌then◌else◌,
}
use discord_bot_backend.Counters.{Units}

abbrev pub counter_template_max_length : ℕ
counter_template_max_length = 100

-- A unit, ASCII letters in lower case: what a pattern with the flag `i` compares.
abbrev pub lower : ℕ → ℕ
lower c = if leb 65 c && leb c 90 then c + 32 else c

-- `[a-zA-Z0-9_]`
abbrev pub is_word : ℕ → Bool
is_word c = (leb 48 c && leb c 57) || (leb 65 c && leb c 90) || c =? 95 || (leb 97 c && leb c 122)

-- A literal pattern with the flag `i`, written in lower case.
unfoldable pub match_literal : Units → Units → Bool
match_literal [] text = true
match_literal (p ∷ pattern) [] = false
match_literal (p ∷ pattern) (c ∷ text) = p =? lower c && match_literal pattern text

-- The rest of `[a-zA-Z0-9_]*\}`, with the number of units it takes.
unfoldable pub match_word : Units → Option ℕ
match_word [] = none
match_word (c ∷ text) =
    let rest = match_word text in
    if c =? 125
    then some 1
    else if is_word c
    then (elim rest [ none ↦ none | some n ↦ some (suc n) ])
    else none

-- `{count}` and `{date}`
abbrev pub count_placeholder : Units
count_placeholder = 123 ∷ 99 ∷ 111 ∷ 117 ∷ 110 ∷ 116 ∷ 125 ∷ []

abbrev pub date_placeholder : Units
date_placeholder = 123 ∷ 100 ∷ 97 ∷ 116 ∷ 101 ∷ 125 ∷ []

abbrev pub match_count : Units → Option ℕ
match_count text = if match_literal count_placeholder text then some 7 else none

abbrev pub match_date : Units → Option ℕ
match_date text = if match_literal date_placeholder text then some 6 else none

-- `/\{[a-zA-Z0-9_]+\}/`
unfoldable pub match_any : Units → Option ℕ
match_any [] = none
match_any (c ∷ []) = none
match_any (c ∷ d ∷ text) =
    if c =? 123 && is_word d
    then (elim (match_word text) [ none ↦ none | some n ↦ some (n + 2) ])
    else none

-- `text.replace(/…/g, by)`; `skip` units belong to the last match. `by` has no `$`.
unfoldable pub replace_from : (Units → Option ℕ) → Units → ℕ → Units → Units
replace_from pattern by skip [] = []
replace_from pattern by (suc skip) (c ∷ text) = replace_from pattern by skip text
replace_from pattern by zero (c ∷ text) =
    let kept = replace_from pattern by zero text in
    elim (pattern (c ∷ text)) [
      | none ↦ c ∷ kept
      | some n ↦ by ++ replace_from pattern by (n - 1) text
    ]

-- `formatCounterChannelName`, with the number and the date as texts.
unfoldable pub format_counter_channel_name : Units → Units → Units → Units
format_counter_channel_name template count_text date_text =
    let result =
      replace_from match_any count_text 0
        (replace_from match_date date_text 0 (replace_from match_count count_text 0 template)) in
    if leb (suc counter_template_max_length) (length result)
    then take counter_template_max_length result
    else result

-- `1,234`
abbrev pub sample_count : Units
sample_count = 49 ∷ 44 ∷ 50 ∷ 51 ∷ 52 ∷ []

unfoldable pub preview_counter_template : Units → Units → Units
preview_counter_template template date_text =
    format_counter_channel_name template sample_count date_text
