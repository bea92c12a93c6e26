-- ===== src/Examples/Shipped.antt =====
-- The seed migration on a table that is a function.
use notifyfork.Common.{String, ◌≡◌, refl, Option, none, some, any, if◌then◌else◌, ◌==◌}
use notifyfork.Application.Interfaces.Database.{TemplateRow}
use notifyfork.Infrastructure.Seeds.{
  otp_sms, TemplateOrm, TemplateLaws, or_row, seed_templates, unseed_templates,
}
use notifyfork.Infrastructure.Seeds.Laws.{seed_templates_lem}

abbrev by_id : TemplateOrm (String → Option TemplateRow)
by_id = record {
  find = λ i db. db i;
  get_or_create = λ t db i. (if t.id == i then or_row (db i) (some t) else db i);
  delete_in = λ ids db i. (if any (λ k. k == i) ids then none else db i);
}

by_id_laws : TemplateLaws by_id
by_id_laws = record { find-get_or_create = λ t i db. refl; find-delete_in = λ ids i db. refl }

-- Only an edited row of the first template is there.
abbrev edited : String → Option TemplateRow
edited i = if i == "otp_sms" then some (record otp_sms { body = "Code: $code" }) else none

seed_templates_example :
    (seed_templates by_id edited "otp_sms" ≡ some (record otp_sms { body = "Code: $code" }))
    × (seed_templates by_id (seed_templates by_id edited) "otp_sms"
        ≡ seed_templates by_id edited "otp_sms")
    × (unseed_templates by_id (seed_templates by_id edited) "otp_sms" ≡ none)
seed_templates_example = seed_templates_lem by_id by_id_laws "otp_sms" edited
