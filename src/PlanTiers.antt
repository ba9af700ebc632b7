-- ===== src/PlanTiers.antt =====
-- libs/shared/src/plan-tiers/plan-tiers.constants.ts: what the two plans allow.
pub mod Spelling
mod Tests
use discord_bot_backend.Prelude.{
  ℕ, ◌+◌, ◌≤◌, String, Bool, true, false, Option, none, some, ◌≡◌, refl, ap, ◌&&◌, leb, ◌=?◌, List,
  [], ◌∷◌, map, codes, or_else, if◌then◌else◌, arith, Bool-cases, inl, inr,
}

pub data PlanTierId : Type 0 where
  free premium : PlanTierId

-- No maximum of days is `none`.
pub record PlanTierLimits : Type 0 where
  pub analytics_max_days : Option ℕ
  pub retention_days : ℕ
  pub max_counters_per_guild : ℕ

unfoldable pub plan_tier_limits : PlanTierId → PlanTierLimits
plan_tier_limits free = record {
  analytics_max_days = some 365;
  retention_days = 30;
  max_counters_per_guild = 5;
}
plan_tier_limits premium = record {
  analytics_max_days = none;
  retention_days = 365;
  max_counters_per_guild = 50;
}

abbrev pub max_data_retention_days : ℕ
max_data_retention_days = 365

-- `toLowerCase`, as far as it can give the letters of `premium`: no letter outside ASCII does.
abbrev pub lower_case : ℕ → ℕ
lower_case c = if leb 65 c && leb c 90 then c + 32 else c

unfoldable pub same_codes : List ℕ → List ℕ → Bool
same_codes [] [] = true
same_codes (a ∷ xs) (b ∷ ys) = a =? b && same_codes xs ys
same_codes _ _ = false

unfoldable pub normalize_plan_tier : Option String → PlanTierId
unfolding same_codes
normalize_plan_tier tier =
    if same_codes (map lower_case (codes (or_else tier "free"))) (codes "premium")
    then premium
    else free

unfoldable pub get_retention_days_for_tier : Option String → ℕ
unfolding plan_tier_limits normalize_plan_tier
get_retention_days_for_tier tier = (plan_tier_limits (normalize_plan_tier tier)).retention_days

unfoldable pub get_analytics_max_days_for_tier : Option String → Option ℕ
unfolding plan_tier_limits normalize_plan_tier
get_analytics_max_days_for_tier tier =
    (plan_tier_limits (normalize_plan_tier tier)).analytics_max_days

unfoldable pub get_plan_tier_limits : Option String → PlanTierLimits
unfolding plan_tier_limits normalize_plan_tier
get_plan_tier_limits tier = plan_tier_limits (normalize_plan_tier tier)
