-- ===== src/Billing/Tests.antt =====
-- Upgrades of a small table, and the theorems at them.
use discord_bot_backend.Prelude.{ℕ, String, none, some, ◌≡◌, refl, [], ◌∷◌}
use discord_bot_backend.Orm.Memory.{memory, get, scan, collect}
use discord_bot_backend.Entities.{User, free, pro, UserStatus}
use discord_bot_backend.Filter.{returned, raised, catch, not_found_exception}
use discord_bot_backend.Billing.{
  BillingDb, SubscriptionPlan, Invoice, InvoiceStatus, month, year, subscription_of, quota,
  get_subscription, upgrade_subscription, cancel_subscription, get_usage, get_invoices,
  get_invoice_download, with_plan, unpriced,
}
use discord_bot_backend.Billing.Answers.{
  answer_of, get_subscription-upgrade_subscription, upgrade_subscription-unoffered,
}

abbrev ann : User
ann = record {
  id = "ann";
  discord_id = none;
  username = "ann";
  discriminator = none;
  avatar_url = none;
  email = none;
  password_hash = none;
  plan = free;
  status = UserStatus.active;
  created_at = 0;
  last_login_at = none;
}

abbrev pro_plan : SubscriptionPlan
pro_plan = record { id = "pro"; name = "Pro"; price = 999; price_period = month }

abbrev invoice : String → ℕ → Invoice
invoice id date = record {
  id = id;
  user_id = some "ann";
  amount = 999;
  currency = "USD";
  date = date;
  status = InvoiceStatus.paid;
  download_url = none;
}

abbrev db : BillingDb memory
db = record {
  users = ann ∷ [];
  plans = pro_plan ∷ [];
  usage =
      record {
        user_id = "ann";
        servers_limit = 0;
        members_limit = 0;
        messages_limit = 0;
        servers_used = 3;
        members_used = 2;
        messages_used = 0;
      }
      ∷ [];
  limits =
      record { plan_id = "free"; servers_limit = 3; members_limit = 0; messages_limit = 100 } ∷ [];
  invoices = invoice "i1" 5 ∷ invoice "i2" 9 ∷ [];
}

billing : Unit {0}
unfolding get scan collect catch get_subscription upgrade_subscription cancel_subscription get_usage
    get_invoices get_invoice_download
billing = tt

calls :
    (get_subscription memory "ann" db ≡ returned (unpriced free month))
    × (upgrade_subscription memory "ann" pro month db
        ≡ (returned (subscription_of pro_plan), with_plan memory pro ann db))
    × ((upgrade_subscription memory "bob" pro month db).0 ≡ raised not_found_exception)
    × (cancel_subscription memory "ann" (with_plan memory pro ann db) ≡ (
      returned tt,
      with_plan memory free (record ann { plan = pro }) (with_plan memory pro ann db),
    ))
    × (get_usage memory "ann" db
        ≡ returned (record { servers = quota 3 3; members = quota 2 0; messages = quota 0 100 }))
    × ((get_invoices memory "ann" 0 70 db).1.limit ≡ 50)
    × ((get_invoices memory "ann" 0 70 db).1.total ≡ 2)
    × (get_invoice_download memory "ann" "i1" db ≡ some "invoice-i1.pdf")
    × (get_invoice_download memory "bob" "i1" db ≡ none)
unfolding billing
calls = (refl, refl, refl, refl, refl, refl, refl, refl, refl)

get_subscription-upgrade_subscription_example :
    get_subscription memory "ann" (with_plan memory pro ann db)
    ≡ returned (subscription_of pro_plan)
get_subscription-upgrade_subscription_example =
    get_subscription-upgrade_subscription memory "ann" pro month db (with_plan memory pro ann db)
      (subscription_of pro_plan) refl calls.1

upgrade_subscription-unoffered_example :
    (answer_of (upgrade_subscription memory "ann" pro year db).0
      ≡ some (
        400,
        record { code = "VALIDATION_ERROR"; message = "Internal server error"; details = none },
      ))
    × ((upgrade_subscription memory "ann" pro year db).1 ≡ db)
unfolding billing
upgrade_subscription-unoffered_example =
    upgrade_subscription-unoffered memory "ann" pro year db ann refl refl refl
