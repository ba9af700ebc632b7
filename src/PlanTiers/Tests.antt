-- ===== src/PlanTiers/Tests.antt =====
-- Spellings of a plan's name.
use discord_bot_backend.Prelude.{some, ◌≡◌, refl}
use discord_bot_backend.PlanTiers.{
  premium, free, plan_tier_limits, same_codes, normalize_plan_tier, get_plan_tier_limits,
  get_retention_days_for_tier, get_analytics_max_days_for_tier,
}

plans : Unit {0}
unfolding plan_tier_limits same_codes normalize_plan_tier get_plan_tier_limits
    get_retention_days_for_tier get_analytics_max_days_for_tier
plans = tt

normalized :
    (normalize_plan_tier (some "PREMIUM") ≡ premium) × (normalize_plan_tier (some "pro") ≡ free)
unfolding plans
normalized = (refl, refl)
