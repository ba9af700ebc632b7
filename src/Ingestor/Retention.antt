-- ===== src/Ingestor/Retention.antt =====
-- How long a row of ClickHouse is kept.
use discord_bot_backend.Prelude.{ℕ, ◌+◌, ◌*◌, String, ◌≡◌, ◌⊎◌, inl, inr, arith}
use discord_bot_backend.Ingestor.{RawEvent}
use discord_bot_backend.Ingestor.Row.{to_click_house_row, compute_retention_until}
use discord_bot_backend.PlanTiers.Spelling.{IsPremium, get_retention_days_for_tier-cases}

module _ (digest : String → String) where
  -- The row of an event is kept for 365 days after the event, to the second, if the event's plan is
  -- the word premium in any mixture of capitals and small letters, and for 30 days with any other
  -- text for the plan.
  pub to_click_house_row-retention :
      (e : RawEvent) (salt : String) (now : ℕ)
      → let row = to_click_house_row digest e salt now in
        (IsPremium e.plan_tier × (row.retention_until ≡ row.event_time + 365 * 86_400))
        ⊎ ((¬ IsPremium e.plan_tier) × (row.retention_until ≡ row.event_time + 30 * 86_400))
  unfolding to_click_house_row compute_retention_until
  to_click_house_row-retention e salt now = elim (get_retention_days_for_tier-cases e.plan_tier) [
    | inl (premium, days) ↦ inl (premium, omega (arith, days))
    | inr (other, days) ↦ inr (other, omega (arith, days))
  ]
