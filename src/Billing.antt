-- ===== src/Billing.antt =====
-- apps/frontend-api/src/billing/billing.service.ts. Amounts are hundredths, as the database keeps them,
-- and times milliseconds, also where the source prints them.
pub mod Answers
mod Tests
use Prim.Native.String.{◌++◌ as append}
use discord_bot_backend.Prelude.{
  ℕ, suc, ◌+◌, ◌-◌, ◌*◌, min, max, String, Bool, true, false, Option, none, some, ◌==◌, ◌&&◌, ltb,
  leb, if◌then◌else◌, List, [], ◌∷◌, map,
}
use discord_bot_backend.Orm.{Orm}
use discord_bot_backend.Entities.{User, UserPlan, free, pro, enterprise}
use discord_bot_backend.Filter.{
  Exception, http, Body, object, absent, not_found_exception, Reply, returned, raised,
}
use discord_bot_backend.Team.Members.{Meta, total_pages}

pub data PricePeriod : Type 0 where
  month year : PricePeriod

pub record SubscriptionPlan : Type 0 where
  pub id : String
  pub name : String
  pub price : ℕ
  pub price_period : PricePeriod

pub record UsageLimits : Type 0 where
  pub user_id : String
  pub servers_limit : ℕ
  pub members_limit : ℕ
  pub messages_limit : ℕ
  pub servers_used : ℕ
  pub members_used : ℕ
  pub messages_used : ℕ

pub record PlanLimits : Type 0 where
  pub plan_id : String
  pub servers_limit : ℕ
  pub members_limit : ℕ
  pub messages_limit : ℕ

pub data InvoiceStatus : Type 0 where
  paid pending failed : InvoiceStatus

pub record Invoice : Type 0 where
  pub id : String
  pub user_id : Option String
  pub amount : ℕ
  pub currency : String
  pub date : ℕ
  pub status : InvoiceStatus
  pub download_url : Option String

pub record BillingDb (orm : Orm) : Type 0 where
  pub users : orm.Table User
  pub plans : orm.Table SubscriptionPlan
  pub usage : orm.Table UsageLimits
  pub limits : orm.Table PlanLimits
  pub invoices : orm.Table Invoice

abbrev pub user_key : User → String
user_key u = u.id

abbrev pub plan_key : SubscriptionPlan → String
plan_key p = p.id

abbrev pub plan_id : UserPlan → String
plan_id free = "free"
plan_id pro = "pro"
plan_id enterprise = "enterprise"

abbrev pub same_period : PricePeriod → PricePeriod → Bool
same_period month month = true
same_period month year = false
same_period year month = false
same_period year year = true

pub record Subscription : Type 0 where
  pub id : String
  pub name : String
  pub price : ℕ
  pub price_period : PricePeriod

abbrev pub subscription_of : SubscriptionPlan → Subscription
subscription_of p = record {
  id = p.id;
  name = p.name;
  price = p.price;
  price_period = p.price_period;
}

abbrev pub unpriced : UserPlan → PricePeriod → Subscription
unpriced plan period = record {
  id = plan_id plan;
  name = plan_id plan;
  price = 0;
  price_period = period;
}

-- The exception of a failed upgrade: its code stands under `error`, not in a field of its own.
abbrev pub upgrade_failed : Exception
upgrade_failed = http false 400 (object none absent)

pub record Quota : Type 0 where
  pub used : ℕ
  pub limit : ℕ
  pub is_over_limit : Bool

abbrev pub quota : ℕ → ℕ → Quota
quota used limit = record {
  used = used;
  limit = limit;
  is_over_limit = ltb 0 limit && leb limit used;
}

pub record Usage : Type 0 where
  pub servers : Quota
  pub members : Quota
  pub messages : Quota

abbrev pub count_of {ℓ} : {A : Type ℓ} → (A → ℕ) → Option A → ℕ
count_of f none = 0
count_of f (some a) = f a

pub record InvoiceView : Type 0 where
  pub id : String
  pub amount : ℕ
  pub currency : String
  pub date : ℕ
  pub status : InvoiceStatus
  pub download_url : Option String

abbrev pub invoice_view : Invoice → InvoiceView
invoice_view i = record {
  id = i.id;
  amount = i.amount;
  currency = i.currency;
  date = i.date;
  status = i.status;
  download_url = i.download_url;
}

-- The last time that a `Date` can have: the order by falling dates is that by rising time until then.
abbrev pub last_date : ℕ
last_date = 8_640_000_000_000_000

abbrev pub is_user : String → Option String → Bool
is_user id none = false
is_user id (some user) = user == id

abbrev pub invoice_page_size : ℕ → ℕ
invoice_page_size limit = min 50 (max 1 limit)

abbrev pub invoice_skip : ℕ → ℕ → ℕ
invoice_skip page limit = (max 1 page - 1) * invoice_page_size limit

module _ (orm : Orm) where
  abbrev pub user_by_id : String → BillingDb orm → Option User
  user_by_id user db = orm.find_one user_key (λ u. u.id == user) db.users

  unfoldable pub get_subscription : String → BillingDb orm → Reply Subscription
  get_subscription user db = elim (user_by_id user db) [
    | none ↦ raised not_found_exception
    | some u ↦ elim (orm.find_one plan_key (λ p. p.id == plan_id u.plan) db.plans) [
      | none ↦ returned (unpriced u.plan month)
      | some p ↦ returned (subscription_of p)
    ]
  ]

  abbrev pub with_plan : UserPlan → User → BillingDb orm → BillingDb orm
  with_plan plan u db = record db { users = orm.save user_key (record u { plan = plan }) db.users }

  abbrev pub is_free : UserPlan → Bool
  is_free free = true
  is_free pro = false
  is_free enterprise = false

  unfoldable pub upgrade_subscription :
      String → UserPlan → PricePeriod → BillingDb orm → Reply Subscription × BillingDb orm
  upgrade_subscription user plan period db = elim (user_by_id user db) [
    | none ↦ (raised not_found_exception, db)
    | some u ↦
        elim (orm.find_one plan_key (λ p. p.id == plan_id plan && same_period p.price_period period)
          db.plans) [
            | none ↦
                if is_free plan
                then (returned (unpriced plan period), with_plan plan u db)
                else (raised upgrade_failed, db)
            | some p ↦ (returned (subscription_of p), with_plan plan u db)
          ]
  ]

  unfoldable pub cancel_subscription : String → BillingDb orm → Reply (Unit {0}) × BillingDb orm
  cancel_subscription user db = elim (user_by_id user db) [
    | none ↦ (raised not_found_exception, db)
    | some u ↦ (returned tt, with_plan free u db)
  ]

  unfoldable pub get_usage : String → BillingDb orm → Reply Usage
  get_usage user db = elim (user_by_id user db) [
    | none ↦ raised not_found_exception
    | some u ↦
        let used =
          orm.find_one (λ (x : UsageLimits). x.user_id) (λ x. x.user_id == user) db.usage in
        let limits =
          orm.find_one (λ (x : PlanLimits). x.plan_id) (λ x. x.plan_id == plan_id u.plan)
            db.limits in
        returned (record {
          servers =
              quota (count_of (λ (x : UsageLimits). x.servers_used) used)
                (count_of (λ (x : PlanLimits). x.servers_limit) limits);
          members =
              quota (count_of (λ (x : UsageLimits). x.members_used) used)
                (count_of (λ (x : PlanLimits). x.members_limit) limits);
          messages =
              quota (count_of (λ (x : UsageLimits). x.messages_used) used)
                (count_of (λ (x : PlanLimits). x.messages_limit) limits);
        })
  ]

  unfoldable pub get_invoices : String → ℕ → ℕ → BillingDb orm → List InvoiceView × Meta
  get_invoices user page limit db =
      let size = invoice_page_size limit in
      let (rows, total) =
        orm.find_and_count (λ (i : Invoice). i.id) (λ i. is_user user i.user_id)
          (λ i. last_date - i.date) (invoice_skip page limit) size db.invoices in
      (
        map invoice_view rows,
        record {
          total = total;
          page = max 1 page;
          limit = size;
          total_pages = total_pages total size;
        },
      )

  -- The name of the file; its content is a placeholder.
  unfoldable pub get_invoice_download : String → String → BillingDb orm → Option String
  get_invoice_download user invoice db =
      elim (orm.find_one (λ (i : Invoice). i.id) (λ i. i.id == invoice && is_user user i.user_id)
        db.invoices) [ none ↦ none | some i ↦ some (append "invoice-" (append invoice ".pdf")) ]
