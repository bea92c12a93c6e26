-- ===== src/Infrastructure/Providers/Delivery.antt =====
-- When each provider delivers: what the loop of the use case reads as a delivery.
use notifyfork.Common.{
  ℕ, String, ◌≡◌, ◌↔◌, ◌⊎◌, refl, sym, subst, nat_eq_iff, true, ◌||◌, Option, arith, nat_eq,
  Bool-cases, inl, inr,
}
use notifyfork.Python.Dict.{Dict}
use notifyfork.Python.Json.{Json, Fields, object, get_field, json_get, given_true, text_column}
use notifyfork.Python.Result.{Error, Result, ok, err, ◌>>=◌}
use notifyfork.Python.Template.{Str}
use notifyfork.Domain.Template.{NotificationTemplate}
use notifyfork.Application.Interfaces.Provider.{Attempt}
use notifyfork.Infrastructure.Providers.Delivers.{
  Delivers, not-Delivers_failed, not-Delivers_raised, Delivers-succeeded, sends_iff,
}
use notifyfork.Infrastructure.Providers.Http.{
  Post, Response, HttpReply, response, http_error, other_error,
}
use notifyfork.Infrastructure.Providers.SendGrid.{
  Mail, attempt_of_status, read_sendgrid, sendgrid_mail, sendgrid_provider,
}
use notifyfork.Infrastructure.Providers.Resend.{
  ResendMail, attempt_of_id, attempt_of_answer, read_resend, resend_mail, resend_provider,
}
use notifyfork.Infrastructure.Providers.Slack.{
  SlackMessage, result_of_data, attempt_of_result, read_slack, slack_message, slack_provider,
}

module _ (Reads : Response → Option String → Type 0) where
  -- A reply that is a response with this property.
  abbrev pub Answered : HttpReply → Option String → Type 0
  Answered reply o = (r : Response) × (reply ≡ response r) × Reads r o

  not-Answered_error : (text : String) (o : Option String) → ¬ Answered (http_error text) o
  not-Answered_error text o (r, same, h) = cc

  not-Answered_other : (e : Error) (o : Option String) → ¬ Answered (other_error e) o
  not-Answered_other e o (r, same, h) = cc

  -- A provider that reads responses so, and whose other replies are no deliveries.
  read_iff :
      (read : HttpReply → Attempt)
      → ((r : Response) (o : Option String) → Delivers (read (response r)) o ↔ Reads r o)
      → ((text : String) (o : Option String) → ¬ Delivers (read (http_error text)) o)
      → ((e : Error) (o : Option String) → ¬ Delivers (read (other_error e)) o)
      → (reply : HttpReply) (o : Option String) → Delivers (read reply) o ↔ Answered reply o
  read_iff read h fails raises (response r) o = (
    λ d. (r, refl, (h r o).0 d),
    λ (q, same, d). (h r o).1 (subst (λ t. Reads t o) (sym (response-injective same)) d),
  )
    where
      response-injective : {a b : Response} → response a ≡ response b → a ≡ b
      response-injective e = cc
  read_iff read h fails raises (http_error text) o =
      (λ d. absurd (fails text o d), λ a. absurd (not-Answered_error text o a))
  read_iff read h fails raises (other_error e) o =
      (λ d. absurd (raises e o d), λ a. absurd (not-Answered_other e o a))

json_get-eq-ok :
    (k : String) (j : Json) (v : Option Json)
    → json_get k j ≡ ok v
    → (fs : Fields) × (j ≡ object fs) × (get_field k fs ≡ v)
unfolding json_get
json_get-eq-ok k (object fs) v e = (fs, refl, cc)
json_get-eq-ok k _ v e = cc

-- SendGrid took the mail: the status is 202, and the id is in a header.
abbrev pub TakenBySendGrid : Response → Option String → Type 0
TakenBySendGrid r o = (r.status_code ≡ 202) × (r.message_header ≡ o)

-- Resend took the mail: the status is 200 or 201, and the JSON object of the body has the id.
abbrev pub TakenByResend : ⦃j : Str Json⦄ → Response → Option String → Type 0
TakenByResend r o =
    ((r.status_code ≡ 200) ⊎ (r.status_code ≡ 201))
    × ((fs : Fields) × (r.json ≡ ok (object fs)) × (text_column (get_field "id" fs) ≡ o))

-- Slack posted the message: the JSON object of the body says `ok`, and has the timestamp.
abbrev pub TakenBySlack : ⦃j : Str Json⦄ → Response → Option String → Type 0
TakenBySlack r o =
    (fs : Fields) × (r.json ≡ ok (object fs))
    × (given_true (get_field "ok" fs) ≡ true)
    × (text_column (get_field "ts" fs) ≡ o)

module _ ⦃code : Str ℕ⦄ where
  attempt_of_status_iff :
      (r : Response) (o : Option String) → Delivers (attempt_of_status r) o ↔ TakenBySendGrid r o
  unfolding attempt_of_status
  attempt_of_status_iff r o = elim (Bool-cases (nat_eq r.status_code 202)) [
    | inl good ↦ rw good (
      λ d. ((nat_eq_iff r.status_code 202).0 good, (Delivers-succeeded _ _ o).0 d),
      λ (same, h). (Delivers-succeeded _ _ o).1 h,
    )
    | inr poor ↦ rw poor (
      λ d. absurd (not-Delivers_failed _ _ o d),
      λ (same, h). cc ((nat_eq_iff r.status_code 202).1 same),
    )
  ]

  read_sendgrid_iff :
      (reply : HttpReply) (o : Option String)
      → Delivers (read_sendgrid reply) o ↔ Answered TakenBySendGrid reply o
  unfolding read_sendgrid
  read_sendgrid_iff =
      read_iff TakenBySendGrid read_sendgrid attempt_of_status_iff
        (λ text o. not-Delivers_failed _ _ o) (λ e o. not-Delivers_raised e o)

  module _ ⦃j : Str Json⦄ where
    attempt_of_id_iff :
        (r : Result Json) (o : Option String)
        → Delivers (attempt_of_id (r >>= λ data_. json_get "id" data_)) o
          ↔ ((fs : Fields) × (r ≡ ok (object fs)) × (text_column (get_field "id" fs) ≡ o))
    unfolding attempt_of_id json_get
    attempt_of_id_iff (err e) o = (λ d. absurd (not-Delivers_raised e o d), λ (fs, same, h). cc)
    attempt_of_id_iff (ok (object fs)) o = (
      λ d. (fs, refl, (Delivers-succeeded _ _ o).0 d),
      λ (gs, same, h). (Delivers-succeeded _ _ o).1 cc,
    )
    attempt_of_id_iff (ok _) o = (λ d. absurd (not-Delivers_raised _ o d), λ (fs, same, h). cc)

    attempt_of_answer_iff :
        (r : Response) (o : Option String) → Delivers (attempt_of_answer r) o ↔ TakenByResend r o
    unfolding attempt_of_answer
    attempt_of_answer_iff r o =
        elim (Bool-cases (nat_eq r.status_code 200 || nat_eq r.status_code 201)) [
          | inl good ↦ rw good (
            λ d. (
              ground (arith, nat_eq_iff r.status_code 200, nat_eq_iff r.status_code 201),
              (attempt_of_id_iff r.json o).0 d,
            ),
            λ (same, h). (attempt_of_id_iff r.json o).1 h,
          )
          | inr poor ↦ rw poor (
            λ d. absurd (not-Delivers_failed _ _ o d),
            λ (same, h). ground (arith, nat_eq_iff r.status_code 200, nat_eq_iff r.status_code 201),
          )
        ]

    read_resend_iff :
        (reply : HttpReply) (o : Option String)
        → Delivers (read_resend reply) o ↔ Answered TakenByResend reply o
    unfolding read_resend
    read_resend_iff =
        read_iff TakenByResend read_resend attempt_of_answer_iff
          (λ text o. not-Delivers_failed _ _ o) (λ e o. not-Delivers_raised e o)

module _ ⦃j : Str Json⦄ where
  attempt_of_data_iff :
      (r : Result Json) (o : Option String)
      → Delivers (attempt_of_result (r >>= λ data_. result_of_data data_)) o ↔ (
          (fs : Fields) × (r ≡ ok (object fs))
          × (given_true (get_field "ok" fs) ≡ true)
          × (text_column (get_field "ts" fs) ≡ o))
  unfolding attempt_of_result result_of_data json_get
  attempt_of_data_iff (err e) o = (λ d. absurd (not-Delivers_raised e o d), λ (fs, same, g, h). cc)
  attempt_of_data_iff (ok (object fs)) o = elim (Bool-cases (given_true (get_field "ok" fs))) [
    | inl good ↦ rw good (
      λ d. (fs, refl, good, (Delivers-succeeded _ _ o).0 d),
      λ (gs, same, g, h). (Delivers-succeeded _ _ o).1 cc,
    )
    | inr poor ↦ rw poor (λ d. absurd (not-Delivers_failed _ _ o d), λ (gs, same, g, h). cc)
  ]
  attempt_of_data_iff (ok _) o = (λ d. absurd (not-Delivers_raised _ o d), λ (fs, same, g, h). cc)

  read_slack_iff :
      (reply : HttpReply) (o : Option String)
      → Delivers (read_slack reply) o ↔ Answered TakenBySlack reply o
  unfolding read_slack
  read_slack_iff =
      read_iff TakenBySlack read_slack (λ r. attempt_of_data_iff r.json)
        (λ text o. not-Delivers_failed _ _ o) (λ e o. not-Delivers_raised e o)

module _ {V X : Type 0} ⦃code : Str ℕ⦄ ⦃j : Str Json⦄ ⦃s : Str V⦄
    (key from_email from_name : String) (recipient : String) (template : NotificationTemplate)
    (context : Dict V) (x : X) (o : Option String) where
  -- The providers over HTTP deliver exactly when the request can be built from the template and
  -- the vendor's response says so: SendGrid by the status 202, Resend by 200 or 201 with an object
  -- in the body, Slack by a true `ok` in it. The message id is the header, `id` or `ts`.
  pub http-Delivers_iff :
      (post_mail : Post (Mail V) → X → HttpReply × X)
      (post_resend : Post ResendMail → X → HttpReply × X)
      (post_slack : Post SlackMessage → X → HttpReply × X)
      → (Delivers
            ((sendgrid_provider post_mail key from_email from_name).send_with_template recipient
              template context x).0
            o
          ↔ ((request : Post (Mail V)) × (sendgrid_mail post_mail key from_email from_name recipient
                  template context
                ≡ ok request)
              × Answered TakenBySendGrid (post_mail request x).0 o))
        × (Delivers
              ((resend_provider post_resend key from_email from_name).send_with_template recipient
                template context x).0
              o
            ↔ ((request : Post ResendMail) × (resend_mail post_resend key from_email from_name
                    recipient template context
                  ≡ ok request)
                × Answered TakenByResend (post_resend request x).0 o))
        × (Delivers
              ((slack_provider post_slack key).send_with_template recipient template context x).0
              o
            ↔ ((request : Post SlackMessage) × (slack_message post_slack key recipient template
                    context
                  ≡ ok request)
                × Answered TakenBySlack (post_slack request x).0 o))
  unfolding sendgrid_provider resend_provider slack_provider
  http-Delivers_iff post_mail post_resend post_slack = (
    sends_iff post_mail read_sendgrid (Answered TakenBySendGrid) read_sendgrid_iff _ x o,
    sends_iff post_resend read_resend (Answered TakenByResend) read_resend_iff _ x o,
    sends_iff post_slack read_slack (Answered TakenBySlack) read_slack_iff _ x o,
  )
