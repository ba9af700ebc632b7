-- ===== src/GuildSync/Listing.antt =====
-- `fetchMainBotGuildIds` against the guilds that the bot is in.
use mathlib.Core.List.{append_assoc}
use discord_bot_backend.Prelude.{
  ℕ, suc, ◌*◌, ◌≤◌, ◌<◌, String, Bool, true, false, Option, none, some, ◌≡◌, refl, ap, sym, ◌∙◌,
  ltb, is_empty, is_some, Bool-cases, inl, inr, List, [], ◌∷◌, ◌++◌, take, drop, any, length,
  take-all, take-append-drop, length-take, length-drop, arith,
}
use discord_bot_backend.GuildSync.Updates.{truthy}
use discord_bot_backend.GuildSync.Reconcile.{
  Answer, unauthorized, rate_limited, granting, broken, ids, last_of, fetch_loop,
  fetch_main_bot_guild_ids,
}

-- What Discord documents of the list of the bot's guilds: the first 200, and those after a given one.
pub record Lists (page : Option String → List String) (all : List String) : Type 0 where
  pub first : page none ≡ take 200 all
  pub next :
      (before : List String) (id : String) (after : List String)
      → all ≡ before ++ id ∷ after
      → page (some id) ≡ take 200 after
  pub named : any is_empty all ≡ false

-- No request is refused for good.
abbrev pub IsCalm : List Answer → Type 0
IsCalm [] = Unit
IsCalm (unauthorized ∷ answers) = ⊥
IsCalm (broken ∷ answers) = ⊥
IsCalm (rate_limited ∷ answers) = IsCalm answers
IsCalm (granting ∷ answers) = IsCalm answers

abbrev pub granted : List Answer → ℕ
granted [] = 0
granted (granting ∷ answers) = suc (granted answers)
granted (rate_limited ∷ answers) = granted answers
granted (unauthorized ∷ answers) = granted answers
granted (broken ∷ answers) = granted answers

-- A 429 to the first request would end the loop.
abbrev goes_on : List Answer → Option String → Bool
goes_on [] after = true
goes_on (granting ∷ answers) after = true
goes_on (rate_limited ∷ answers) after = is_some (truthy after)
goes_on (unauthorized ∷ answers) after = true
goes_on (broken ∷ answers) after = true

goes_on-some :
    (answers : List Answer) (after : Option String)
    → is_some (truthy after) ≡ true
    → goes_on answers after ≡ true
goes_on-some [] after h = refl
goes_on-some (granting ∷ answers) after h = refl
goes_on-some (rate_limited ∷ answers) after h = h
goes_on-some (unauthorized ∷ answers) after h = refl
goes_on-some (broken ∷ answers) after h = refl

last_of-split :
    (o : Option String) (x : String) (xs : List String)
    → (init : List String) × (l : String) × (x ∷ xs ≡ init ++ l ∷ [])
      × (last_of o (x ∷ xs) ≡ some l)
last_of-split o x [] = ([], x, refl, refl)
last_of-split o x (y ∷ xs) =
    let (init, l, e, f) = last_of-split (some x) y xs in (x ∷ init, l, ap (λ zs. x ∷ zs) e, f)

named_of :
    (before : List String) (id : String) (after : List String)
    → any is_empty (before ++ id ∷ after) ≡ false
    → is_empty id ≡ false
named_of [] id after h = ground (arith, h)
named_of (b ∷ before) id after h = named_of before id after (ground (arith, h))

full_page : (rest : List String) → ltb (length (take 200 rest)) 200 ≡ false → 200 ≤ length rest
full_page rest h = ground (arith, h, length-take 200 rest)

short_page : (rest : List String) → ltb (length (take 200 rest)) 200 ≡ true → length rest ≤ 200
short_page rest h = ground (arith, h, length-take 200 rest)

module _ (page : Option String → List String) (all : List String) (lists : Lists page all) where
  -- The loop has the first ids, and the server goes on with the rest.
  record Reading (seen rest : List String) (after : Option String) : Type 0 where
    whole : all ≡ seen ++ rest
    follows : page (truthy after) ≡ take 200 rest

  next-Reading :
      (seen rest : List String) (after : Option String)
      → Reading seen rest after
      → 200 ≤ length rest
      → Reading (seen ++ take 200 rest) (drop 200 rest) (last_of none (take 200 rest))
        × (is_some (truthy (last_of none (take 200 rest))) ≡ true)
  next-Reading seen [] after r full = absurd (omega (arith, full))
  next-Reading seen (x ∷ rest) after r full =
      let (init, l, split, last) = last_of-split none x (take 199 rest) in
      let whole : all ≡ (seen ++ take 200 (x ∷ rest)) ++ drop 200 (x ∷ rest) =
        r.whole
        ∙ ap (λ ms. seen ++ ms) (sym (take-append-drop 200 (x ∷ rest)))
        ∙ sym (append_assoc seen (take 200 (x ∷ rest)) (drop 200 (x ∷ rest))) in
      let placed : all ≡ (seen ++ init) ++ l ∷ drop 200 (x ∷ rest) =
        whole ∙ ap (λ ms. (seen ++ ms) ++ drop 200 (x ∷ rest)) split ∙ simp append_assoc in
      let named : is_empty l ≡ false =
        named_of (seen ++ init) l (drop 200 (x ∷ rest))
          (ap (any is_empty) (sym placed) ∙ lists.named) in
      let kept : truthy (last_of none (take 200 (x ∷ rest))) ≡ some l =
        ap truthy last ∙ ground (arith, named) in
      (
        record {
          whole = whole;
          follows = ap page kept ∙ lists.next (seen ++ init) l (drop 200 (x ∷ rest)) placed;
        },
        ap is_some kept,
      )

  fetch_loop_complete :
      (answers : List Answer) (seen rest : List String) (after : Option String)
      → Reading seen rest after
      → goes_on answers after ≡ true
      → IsCalm answers
      → length rest < 200 * granted answers
      → fetch_loop page answers after seen ≡ ids all
  unfolding fetch_loop
  fetch_loop_complete [] seen rest after r go calm enough = absurd (omega (arith, enough))
  fetch_loop_complete (unauthorized ∷ answers) seen rest after r go calm enough = absurd calm
  fetch_loop_complete (broken ∷ answers) seen rest after r go calm enough = absurd calm
  fetch_loop_complete (rate_limited ∷ answers) seen rest after r go calm enough =
      rw (go, fetch_loop)
        (fetch_loop_complete answers seen rest after r (goes_on-some answers after go) calm enough)
  fetch_loop_complete (granting ∷ answers) seen rest after r go calm enough =
      let sent = take 200 rest in
      elim (Bool-cases (ltb (length sent) 200)) [
        | inl short ↦
            rw (r.follows, fetch_loop)
              (rw (short, fetch_loop)
                (ap ids (
                  ap (λ ms. seen ++ ms) (take-all 200 rest (short_page rest short)) ∙ sym r.whole)))
        | inr full ↦
            let long : 200 ≤ length rest = full_page rest full in
            let (next, more) = next-Reading seen rest after r long in
            rw (r.follows, fetch_loop)
              (rw (full, more, fetch_loop)
                (fetch_loop_complete answers (seen ++ sent) (drop 200 rest) (last_of none sent) next
                  (goes_on-some answers (last_of none sent) more) calm
                  (omega (arith, enough, long, length-drop 200 rest))))
      ]

  -- Where the first request is granted and none is refused for good, the loop lists the guilds that the
  -- bot is in, whatever later requests are rate limited; one granted request for each 200 guilds, and
  -- one more, is enough for it to end.
  pub fetch_main_bot_guild_ids_complete :
      (answers : List Answer)
      → IsCalm answers
      → length all < 200 * suc (granted answers)
      → fetch_main_bot_guild_ids page (granting ∷ answers) ≡ ids all
  unfolding fetch_main_bot_guild_ids
  fetch_main_bot_guild_ids_complete answers calm enough =
      fetch_loop_complete (granting ∷ answers) [] all none
        (record { whole = refl; follows = lists.first }) refl calm enough

-- Where the first request is rate limited, the loop ends with an empty list, whatever follows.
pub fetch_main_bot_guild_ids-rate_limited :
    (page : Option String → List String) (answers : List Answer)
    → fetch_main_bot_guild_ids page (rate_limited ∷ answers) ≡ ids []
unfolding fetch_main_bot_guild_ids fetch_loop
fetch_main_bot_guild_ids-rate_limited page answers = refl
