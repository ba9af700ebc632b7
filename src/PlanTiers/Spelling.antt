-- ===== src/PlanTiers/Spelling.antt =====
-- The spellings of a plan's name, against `normalizePlanTier`.
use discord_bot_backend.Prelude.{
  ℕ, ◌+◌, ◌≤◌, String, true, some, ◌≡◌, refl, ◌⊎◌, inl, inr, ◌&&◌, leb, ◌=?◌, List, [], ◌∷◌, map,
  codes, All, arith, Bool-cases,
}
use discord_bot_backend.PlanTiers.{
  plan_tier_limits, lower_case, same_codes, normalize_plan_tier, get_retention_days_for_tier,
}

-- A text that is the word, but for letters of it that are capitals.
abbrev pub IsSpelled : List ℕ → List ℕ → Type 0
IsSpelled [] [] = Unit
IsSpelled (a ∷ text) (b ∷ word) = ((a ≡ b) ⊎ (a + 32 ≡ b)) × IsSpelled text word
IsSpelled _ _ = ⊥

abbrev IsSmall : ℕ → Type 0
IsSmall b = (97 ≤ b) × (b ≤ 122)

lower_case-cases : (a b : ℕ) → lower_case a ≡ b → (a ≡ b) ⊎ (a + 32 ≡ b)
lower_case-cases a b e = elim (Bool-cases (leb 65 a && leb a 90)) [
  | inl capital ↦ inr (ground (arith, capital, e))
  | inr other ↦ inl (ground (arith, other, e))
]

lower_case-small : (a b : ℕ) → IsSmall b → (a ≡ b) ⊎ (a + 32 ≡ b) → lower_case a ≡ b
lower_case-small a b small (inl e) = ground (arith, small.0, small.1, e)
lower_case-small a b small (inr e) = ground (arith, small.0, small.1, e)

same_codes-IsSpelled :
    (text word : List ℕ) → same_codes (map lower_case text) word ≡ true → IsSpelled text word
unfolding same_codes
same_codes-IsSpelled [] [] h = tt
same_codes-IsSpelled [] (b ∷ word) h = absurd (ground (arith, h))
same_codes-IsSpelled (a ∷ text) [] h = absurd (ground (arith, h))
same_codes-IsSpelled (a ∷ text) (b ∷ word) h = elim (Bool-cases (lower_case a =? b)) [
  | inl same ↦ (
    lower_case-cases a b (ground (arith, same)),
    same_codes-IsSpelled text word (ground (arith, same, h)),
  )
  | inr other ↦ absurd (ground (arith, other, h))
]

IsSpelled-same_codes :
    (text word : List ℕ)
    → All IsSmall word
    → IsSpelled text word
    → same_codes (map lower_case text) word ≡ true
unfolding same_codes
IsSpelled-same_codes [] [] small h = refl
IsSpelled-same_codes [] (b ∷ word) small h = absurd h
IsSpelled-same_codes (a ∷ text) [] small h = absurd h
IsSpelled-same_codes (a ∷ text) (b ∷ word) (b_small, small) (h, spelled) =
    ground (arith, lower_case-small a b b_small h, IsSpelled-same_codes text word small spelled)

abbrev pub IsPremium : String → Type 0
IsPremium tier = IsSpelled (codes tier) (codes "premium")

letters : All IsSmall (codes "premium")
letters = (
  (omega arith, omega arith),
  (
    (omega arith, omega arith),
    (
      (omega arith, omega arith),
      (
        (omega arith, omega arith),
        (
          (omega arith, omega arith),
          ((omega arith, omega arith), ((omega arith, omega arith), tt)),
        ),
      ),
    ),
  ),
)

-- The days for which a plan's events are kept: those of the two plans.
pub get_retention_days_for_tier-cases :
    (tier : String)
    → (IsPremium tier × (get_retention_days_for_tier (some tier) ≡ 365))
      ⊎ ((¬ IsPremium tier) × (get_retention_days_for_tier (some tier) ≡ 30))
unfolding get_retention_days_for_tier normalize_plan_tier plan_tier_limits
get_retention_days_for_tier-cases tier =
    elim (Bool-cases (same_codes (map lower_case (codes tier)) (codes "premium"))) [
      | inl same ↦ inl (
        same_codes-IsSpelled (codes tier) (codes "premium") same,
        rw (same, get_retention_days_for_tier, normalize_plan_tier) refl,
      )
      | inr other ↦ inr (
        λ spelled. absurd (
            ground
              (arith, other, IsSpelled-same_codes (codes tier) (codes "premium") letters spelled)),
        rw (other, get_retention_days_for_tier, normalize_plan_tier) refl,
      )
    ]
