-- ===== src/Infrastructure/Providers/Laws.antt =====
-- When the Twilio providers deliver, and what they leave alone.
use notifyfork.Common.{
  String, ◌≡◌, ◌↔◌, ◌⊎◌, refl, ap, ◌∙◌, true, Option, some, List, ◌∷◌, nat_eq_iff, code, Bool-cases,
  inl, inr,
}
use notifyfork.Python.Dict.{Dict}
use notifyfork.Python.Result.{error_text, Result, ok, err}
use notifyfork.Python.Template.{Str}
use notifyfork.Python.Text.{starts_with}
use notifyfork.Domain.Template.{NotificationTemplate, is_external, cannot_render, render}
use notifyfork.Application.Interfaces.Provider.{raised, Provider}
use notifyfork.Application.UseCase.{delivery, read_attempt, try_candidates}
use notifyfork.Infrastructure.Providers.{
  Message, Reply, created, rest_error, other_error, attempt_of_reply, whatsapp_prefix,
  whatsapp_address, send_message, sms_message, twilio_sms_provider, whatsapp_message,
  twilio_whatsapp_provider,
}
use Prim.Native.String
use text.Mathlib.TextLemmas.{cons-append}

whatsapp_address_cases :
    (value : String)
    → ((starts_with whatsapp_prefix value ≡ true) × (whatsapp_address value ≡ value))
      ⊎ (whatsapp_address value ≡ String.◌++◌ whatsapp_prefix value)
unfolding whatsapp_address
whatsapp_address_cases value = elim (Bool-cases (starts_with whatsapp_prefix value)) [
  | inl there ↦ inl (there, rw there)
  | inr missing ↦ inr (rw missing)
]

starts_with-append : (prefix value : String) → starts_with prefix (String.◌++◌ prefix value) ≡ true
unfolding starts_with
starts_with-append String.[] value = refl
starts_with-append (String.◌∷◌ c prefix) value =
    rw (cons-append, (nat_eq_iff (code c) (code c)).1 refl) (starts_with-append prefix value)

whatsapp_address_idem :
    (value : String) → whatsapp_address (whatsapp_address value) ≡ whatsapp_address value
unfolding whatsapp_address
whatsapp_address_idem value = elim (Bool-cases (starts_with whatsapp_prefix value)) [
  | inl there ↦ rw (there, there)
  | inr missing ↦ rw (missing, starts_with-append whatsapp_prefix value)
]

created-eq :
    (name label : String) (reply : Reply) (o : Option String)
    → (read_attempt (attempt_of_reply name label reply) ≡ delivery o)
      ↔ ((sid : String) × (reply ≡ created sid) × (o ≡ some sid))
unfolding attempt_of_reply read_attempt
created-eq name label (created sid) o = (λ e. (sid, refl, cc), λ (id, same, given). cc)
created-eq name label (rest_error code text) o = (λ e. cc, λ (id, same, given). cc)
created-eq name label (other_error x) o = (λ e. cc, λ (id, same, given). cc)

module _ {V X : Type 0} (create : Message V → X → Reply × X) where
  send_message_iff :
      (name label : String) (r : Result (Message V)) (x : X) (o : Option String)
      → (read_attempt (send_message create name label r x).0 ≡ delivery o) ↔ (
          (m : Message V) × (sid : String) × (r ≡ ok m)
          × ((create m x).0 ≡ created sid)
          × (o ≡ some sid))
  unfolding send_message read_attempt
  send_message_iff name label (err e) x o = (λ h. cc, λ (m, sid, same, made, given). cc)
  send_message_iff name label (ok m) x o = (
    λ h.
        let (sid, made, given) = (created-eq name label (create m x).0 o).0 h in
        (m, sid, refl, made, given),
    λ (n, sid, same, made, given).
        (created-eq name label (create m x).0 o).1
          (sid, ap (λ k. (create k x).0) (ok-injective same) ∙ made, given),
  )
    where
      ok-injective : {a b : Message V} → ok a ≡ ok b → a ≡ b
      ok-injective e = cc

  module _ ⦃s : Str V⦄ (from_number : String) where
    -- The SMS and the WhatsApp provider deliver exactly when the message can be built from the
    -- template and Twilio answers its creation with a `sid`, and that `sid` is the message id.
    pub delivers_iff :
        (recipient : String) (template : NotificationTemplate) (context : Dict V) (x : X)
        (o : Option String)
        → ((read_attempt
                ((twilio_sms_provider create from_number).send_with_template recipient template
                  context x).0
              ≡ delivery o)
            ↔ ((m : Message V) × (sid : String) × (sms_message create from_number recipient template
                    context
                  ≡ ok m)
                × ((create m x).0 ≡ created sid)
                × (o ≡ some sid)))
          × ((read_attempt
                  ((twilio_whatsapp_provider create from_number).send_with_template recipient
                    template context x).0
                ≡ delivery o)
              ↔ ((m : Message V) × (sid : String) × (whatsapp_message create from_number recipient
                      template context
                    ≡ ok m)
                  × ((create m x).0 ≡ created sid)
                  × (o ≡ some sid)))
    unfolding twilio_sms_provider twilio_whatsapp_provider
    delivers_iff recipient template context x o = (
      send_message_iff "twilio_sms" "Twilio" _ x o,
      send_message_iff "twilio_whatsapp" "Twilio WhatsApp" _ x o,
    )

    sms_external :
        (recipient : String) (template : NotificationTemplate) (context : Dict V) (x : X)
        → is_external template ≡ true
        → (twilio_sms_provider create from_number).send_with_template recipient template context x
          ≡ (raised cannot_render, x)
    unfolding twilio_sms_provider sms_message render
    sms_external recipient template context x ext = rw (ext, send_message)

    -- In the use case's loop an EXTERNAL template passes the SMS provider by: Twilio is not called,
    -- and the next candidates are tried with the error of `render` as the last error.
    pub external_passes_sms :
        (recipient : String) (template : NotificationTemplate) (context : Dict V) (error : String)
        (ps : List (Provider V X)) (x : X)
        → is_external template ≡ true
        → try_candidates recipient template context error
            (twilio_sms_provider create from_number ∷ ps)
            x
          ≡ try_candidates recipient template context (error_text cannot_render) ps x
    unfolding try_candidates read_attempt
    external_passes_sms recipient template context error ps x ext =
        let skipped = sms_external recipient template context x ext in
        rw (skipped, try_candidates, skipped)

    -- A WhatsApp recipient may be given with or without the prefix `whatsapp:`: the provider does
    -- the same with both.
    pub send_whatsapp_prefixed :
        (recipient : String) (template : NotificationTemplate) (context : Dict V) (x : X)
        → (twilio_whatsapp_provider create from_number).send_with_template
            (whatsapp_address recipient)
            template
            context
            x
          ≡ (twilio_whatsapp_provider create from_number).send_with_template recipient template
              context x
    unfolding twilio_whatsapp_provider whatsapp_message
    send_whatsapp_prefixed recipient template context x = rw (whatsapp_address_idem recipient)
