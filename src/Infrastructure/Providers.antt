-- ===== src/Infrastructure/Providers.antt =====
-- providers/twilio_provider.py and providers/whatsapp_provider.py. `create` is the SDK's
-- `client.messages.create`: it gets a message and acts on the outside.
pub mod Laws
pub mod Http
pub mod SendGrid
pub mod Resend
pub mod Slack
pub mod Smtp
pub mod Firebase
pub mod Delivers
pub mod Delivery
pub mod Sessions
pub mod Local
pub mod Whole
pub mod Xpto
use notifyfork.Common.{String, Bool, true, false, Option, none, some, List, [], ◌∷◌, if◌then◌else◌}
use notifyfork.Python.Dict.{Dict}
use notifyfork.Python.Result.{Error, Result, ok, err, ◌>>=◌}
use notifyfork.Python.Template.{Str}
use notifyfork.Python.Text.{starts_with}
use notifyfork.Domain.Template.{
  NotificationTemplate, is_external, external_template_id, render, translate_variables,
}
use notifyfork.Application.Interfaces.Provider.{
  ProviderResult, Attempt, returned, raised, Provider, listed_channel,
}
use Prim.Native.String

-- The arguments of `messages.create`; `content_variables` is the JSON text of the dictionary.
pub data Message (V : Type 0) : Type 0 where
  body_message : String → String → String → Message V
  content_message : String → Dict V → String → String → Message V

-- The `sid` of the message, a TwilioRestException with its code and text, or another exception.
pub data Reply : Type 0 where
  created : String → Reply
  rest_error : String → String → Reply
  other_error : Error → Reply

-- The `try` around `messages.create`, whose handler writes the vendor's `label`.
unfoldable pub attempt_of_reply : String → String → Reply → Attempt
attempt_of_reply name label (created sid) =
    returned (record { success = true; provider_name = name; external_id = some sid; error = none })
attempt_of_reply name label (rest_error code text) = returned (record {
  success = false;
  provider_name = name;
  external_id = none;
  error = some (String.◌++◌ label (String.◌++◌ " [" (String.◌++◌ code (String.◌++◌ "]: " text))));
})
attempt_of_reply name label (other_error e) = raised e

abbrev pub whatsapp_prefix : String
whatsapp_prefix = "whatsapp:"

-- `value if value.startswith("whatsapp:") else f"whatsapp:{value}"`
unfoldable pub whatsapp_address : String → String
unfolding starts_with
whatsapp_address value =
    if starts_with whatsapp_prefix value then value else String.◌++◌ whatsapp_prefix value

module _ {V X : Type 0} (create : Message V → X → Reply × X) where
  -- Nothing is sent if building the message raises.
  unfoldable pub send_message : String → String → Result (Message V) → X → Attempt × X
  unfolding attempt_of_reply
  send_message name label (err e) x = (raised e, x)
  send_message name label (ok message) x =
      let (reply, x') = create message x in (attempt_of_reply name label reply, x')

  module _ ⦃s : Str V⦄ (from_number : String) where
    unfoldable pub sms_message : String → NotificationTemplate → Dict V → Result (Message V)
    sms_message recipient template context = do
      body ← render template context
      ok (body_message body from_number recipient)

    -- TwilioSMSProvider
    unfoldable pub twilio_sms_provider : Provider V X
    unfolding send_message sms_message listed_channel
    twilio_sms_provider = record {
      name = "twilio_sms";
      supports = some (listed_channel ("sms" ∷ "twilio_sms" ∷ []));
      send_with_template = λ recipient template context x.
          send_message "twilio_sms" "Twilio" (sms_message recipient template context) x;
    }

    -- `_send_external` and `_send_local`, up to the call.
    unfoldable pub whatsapp_message : String → NotificationTemplate → Dict V → Result (Message V)
    unfolding is_external external_template_id translate_variables whatsapp_address
    whatsapp_message recipient template context =
        if is_external template
        then (external_template_id template >>= λ sid. ok (
            content_message sid (translate_variables template context)
              (whatsapp_address from_number) (whatsapp_address recipient)))
        else (render template context >>= λ body.
            ok (body_message body (whatsapp_address from_number) (whatsapp_address recipient)))

    -- TwilioWhatsAppProvider
    unfoldable pub twilio_whatsapp_provider : Provider V X
    unfolding send_message whatsapp_message listed_channel
    twilio_whatsapp_provider = record {
      name = "twilio_whatsapp";
      supports = some (listed_channel ("whatsapp" ∷ "twilio_whatsapp" ∷ []));
      send_with_template = λ recipient template context x.
          send_message "twilio_whatsapp" "Twilio WhatsApp"
            (whatsapp_message recipient template context) x;
    }
