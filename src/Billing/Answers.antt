-- ===== src/Billing/Answers.antt =====
-- What the site is told of subscriptions, and of upgrades that fail.
use discord_bot_backend.Prelude.{
  ℕ, String, true, false, Option, none, some, ◌≡◌, refl, ap, sym, ◌∙◌, ◌==◌, ◌&&◌, eq_iff,
  Option-cases, inl, inr, arith,
}
use discord_bot_backend.Orm.{Orm}
use discord_bot_backend.Orm.Keys.{find_one-get}
use discord_bot_backend.Entities.{User, UserPlan}
use discord_bot_backend.Filter.{Envelope, catch, Reply, returned, raised}
use discord_bot_backend.Billing.{
  BillingDb, SubscriptionPlan, Subscription, PricePeriod, plan_key, plan_id, user_key, user_by_id,
  same_period, subscription_of, is_free, with_plan, get_subscription, upgrade_subscription,
}

-- The answer that the exception filter makes of what a method throws.
abbrev pub answer_of {ℓ} : {A : Type ℓ} → Reply A → Option (ℕ × Envelope)
answer_of (returned a) = none
answer_of (raised e) = some (catch e)

module _ (orm : Orm) where
  abbrev offered : UserPlan → PricePeriod → BillingDb orm → Option SubscriptionPlan
  offered plan period db =
      orm.find_one plan_key (λ p. p.id == plan_id plan && same_period p.price_period period)
        db.plans

  plan-get :
      (plan : UserPlan) (period : PricePeriod) (db : BillingDb orm) (p : SubscriptionPlan)
      → offered plan period db ≡ some p
      → orm.find_one plan_key (λ q. q.id == plan_id plan) db.plans ≡ some p
  plan-get plan period db p there =
      let (stored, passes) = orm.find_one-eq-some plan_key _ db.plans p there in
      let same : (p.id == plan_id plan) ≡ true = ground (arith, passes) in
      find_one-get orm plan_key (plan_id plan) db.plans
      ∙ ap (λ k. orm.get plan_key k db.plans) (sym ((eq_iff p.id (plan_id plan)).0 same))
      ∙ stored

  user-get :
      (user : String) (plan : UserPlan) (db : BillingDb orm) (u : User)
      → user_by_id orm user db ≡ some u
      → user_by_id orm user (with_plan orm plan u db) ≡ some (record u { plan = plan })
  user-get user plan db u there =
      let (stored, same) = orm.find_one-eq-some user_key _ db.users u there in
      find_one-get orm user_key user (with_plan orm plan u db).users
      ∙ orm.get-save user_key user (record u { plan = plan }) db.users
      ∙ ground (arith, same)

  -- After an upgrade to a paid plan that succeeds, the site is told of just the subscription that the
  -- upgrade answered.
  pub get_subscription-upgrade_subscription :
      (user : String) (plan : UserPlan) (period : PricePeriod) (db db' : BillingDb orm)
      (s : Subscription)
      → is_free orm plan ≡ false
      → upgrade_subscription orm user plan period db ≡ (returned s, db')
      → get_subscription orm user db' ≡ returned s
  unfolding get_subscription upgrade_subscription
  get_subscription-upgrade_subscription user plan period db db' s paid h =
      elim (Option-cases (user_by_id orm user db)) [
        | inl nobody ↦ absurd (ground (arith, nobody, h))
        | inr (u, there) ↦ elim (Option-cases (offered plan period db)) [
          | inl unknown ↦ absurd (ground (arith, there, unknown, paid, h))
          | inr (p, priced) ↦
              let result : upgrade_subscription orm user plan period db
                  ≡ (returned (subscription_of p), with_plan orm plan u db) =
                rw (there, priced, upgrade_subscription) refl in
              let got : get_subscription orm user (with_plan orm plan u db)
                  ≡ returned (subscription_of p) =
                rw
                  (
                    user-get user plan db u there,
                    plan-get plan period db p priced,
                    get_subscription,
                  )
                  refl in
              ap (λ (r : Reply Subscription × BillingDb orm). get_subscription orm user r.1)
                (sym h ∙ result)
              ∙ got
              ∙ ap (λ (r : Reply Subscription × BillingDb orm). r.0) (sym result ∙ h)
        ]
      ]

  -- An upgrade of a stored user to a paid plan that is not offered for the period is answered with the
  -- code of a validation error and the message of an internal error, and changes nothing.
  pub upgrade_subscription-unoffered :
      (user : String) (plan : UserPlan) (period : PricePeriod) (db : BillingDb orm) (u : User)
      → user_by_id orm user db ≡ some u
      → offered plan period db ≡ none
      → is_free orm plan ≡ false
      → (answer_of (upgrade_subscription orm user plan period db).0
          ≡ some (
            400,
            record { code = "VALIDATION_ERROR"; message = "Internal server error"; details = none },
          ))
        × ((upgrade_subscription orm user plan period db).1 ≡ db)
  unfolding upgrade_subscription catch
  upgrade_subscription-unoffered user plan period db u there unknown paid =
      rw (there, unknown, paid, upgrade_subscription) (refl, refl)
