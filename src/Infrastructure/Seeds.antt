-- ===== src/Infrastructure/Seeds.antt =====
-- migrations/0002_seed_templates.py. The migration runs on a table of templates, of which the two
-- queries that it makes are an interface with Django's documented behaviour.
pub mod Laws
use notifyfork.Common.{
  String, ◌≡◌, Bool, true, Option, none, some, List, [], ◌∷◌, any, map, if◌then◌else◌, ◌==◌,
}
use notifyfork.Python.Dict.{Dict}
use notifyfork.Application.Interfaces.Database.{TemplateRow}

-- The row that `defaults` gives; `is_active` is true by default.
abbrev shipped : String → String → Option String → String → Dict String → TemplateRow
shipped id body subject mode variable_mapping = record {
  id = id;
  body = body;
  subject = subject;
  mode = mode;
  variable_mapping = some variable_mapping;
  is_active = true;
}

abbrev pub otp_sms : TemplateRow
otp_sms =
    shipped "otp_sms" "Your NotifyFork verification code is: $code. Valid for 10 minutes." (none)
      "local" ([])

abbrev pub payment_failed_sms : TemplateRow
payment_failed_sms =
    shipped "payment_failed_sms"
      "Payment of $amount failed for order $order_id. Please update your payment method." (none)
      "local" ([])

abbrev pub email_verification : TemplateRow
email_verification =
    shipped "email_verification"
      "<p>Hi $name,</p><p>Click <a href='$link'>here</a> to verify your email.</p>"
      (some "Verify your email address") "local" ([])

abbrev pub order_confirmed : TemplateRow
order_confirmed =
    shipped "order_confirmed"
      "<p>Hi $name,</p><p>Your order <strong>$order_id</strong> is confirmed. Total: $total</p>"
      (some "Order $order_id confirmed") "local" ([])

abbrev pub order_shipped_wa : TemplateRow
order_shipped_wa =
    shipped "order_shipped_wa" "REPLACE_WITH_YOUR_TWILIO_CONTENT_SID" (none) "external"
      (("name", "1") ∷ ("tracking_code", "2") ∷ ("carrier", "3") ∷ [])

abbrev pub order_confirmed_sg : TemplateRow
order_confirmed_sg =
    shipped "order_confirmed_sg" "REPLACE_WITH_YOUR_SENDGRID_TEMPLATE_ID" (none) "external"
      (("name", "customer_name") ∷ ("order_id", "order_id") ∷ ("total", "order_total") ∷ [])

abbrev pub flash_sale_push : TemplateRow
flash_sale_push =
    shipped "flash_sale_push" "Hurry! $discount OFF everything. Ends in $expires_in."
      (some "Flash Sale — $discount OFF") "local" ([])

abbrev pub pickup_ready_push : TemplateRow
pickup_ready_push =
    shipped "pickup_ready_push" "Your order $order_id is ready for pickup at $location."
      (some "Your order is ready!") "local" ([])

abbrev pub system_error_slack : TemplateRow
system_error_slack =
    shipped "system_error_slack" "*Service:* $service\n*Error:* $error\n*Environment:* $env"
      (some "🚨 Error in $service") "local" ([])

abbrev pub deploy_done_slack : TemplateRow
deploy_done_slack =
    shipped "deploy_done_slack"
      "*Service:* $service deployed successfully\n*Version:* $version\n*By:* $author"
      (some "✅ Deploy completed — $service") "local" ([])

-- `TEMPLATES`
abbrev pub templates : List TemplateRow
templates =
    otp_sms ∷ payment_failed_sms ∷ email_verification ∷ order_confirmed ∷ order_shipped_wa
    ∷ order_confirmed_sg ∷ flash_sale_push ∷ pickup_ready_push ∷ system_error_slack
    ∷ deploy_done_slack ∷ []

-- The queries on `NotificationTemplateModel.objects`.
pub record TemplateOrm (DB : Type 0) : Type 0 where
  -- The row with an id.
  pub find : String → DB → Option TemplateRow
  -- `get_or_create(id=t["id"], defaults=t)`
  pub get_or_create : TemplateRow → DB → DB
  -- `filter(id__in=ids).delete()`
  pub delete_in : List String → DB → DB

-- `a or b`, of an optional row.
abbrev pub or_row : Option TemplateRow → Option TemplateRow → Option TemplateRow
or_row none other = other
or_row (some row) other = some row

-- What the Django documentation says of these queries.
pub record TemplateLaws {DB : Type 0} (orm : TemplateOrm DB) : Type 0 where
  pub find-get_or_create :
      (t : TemplateRow) (i : String) (db : DB)
      → orm.find i (orm.get_or_create t db)
        ≡ (if t.id == i then or_row (orm.find i db) (some t) else orm.find i db)
  pub find-delete_in :
      (ids : List String) (i : String) (db : DB)
      → orm.find i (orm.delete_in ids db) ≡ (if any (λ k. k == i) ids then none else orm.find i db)

module _ {DB : Type 0} (orm : TemplateOrm DB) where
  -- The loop of `seed_templates`.
  unfoldable pub seed_all : List TemplateRow → DB → DB
  seed_all [] db = db
  seed_all (t ∷ ts) db = seed_all ts (orm.get_or_create t db)

  unfoldable pub seed_templates : DB → DB
  unfolding seed_all
  seed_templates db = seed_all templates db

  unfoldable pub unseed_templates : DB → DB
  unseed_templates db = orm.delete_in (map (λ (t : TemplateRow). t.id) templates) db
