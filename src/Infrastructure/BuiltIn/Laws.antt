-- ===== src/Infrastructure/BuiltIn/Laws.antt =====
-- Which channels the built-in providers serve.
use notifyfork.Common.{
  ℕ, String, ◌≡◌, ◌↔◌, ◌⊎◌, refl, sym, ap, ◌∙◌, true, some, List, [], ◌∷◌, All, All-map, All-append,
  All-of_mem, mem-All, ◌++◌, filter, ◌==◌, eq_iff, Bool-cases, inl, inr,
}
use mathlib.Core.Option.{some-injective}
use notifyfork.Python.Dict.{Dict, get}
use notifyfork.Python.Json.{Json}
use notifyfork.Python.Result.{Result, ok, >>=-eq-ok}
use notifyfork.Python.Template.{Str}
use notifyfork.Application.Interfaces.Provider.{Provider, listed_channel}
use notifyfork.Application.UseCase.{resolve_providers, require_some}
use notifyfork.Application.UseCase.Candidates.{HasSupports, serves, resolve_providers_lem}
use notifyfork.Application.UseCase.Outcome.{IsWhole}
use notifyfork.Domain.Template.{NotificationTemplate}
use notifyfork.Infrastructure.Container.{
  Config, twilio_sms, twilio_whatsapp, sendgrid_email, resend_email, smtp_email, firebase_push,
  slack, configs, instances, ordered, build_providers,
}
use notifyfork.Infrastructure.Container.Order.{mem_of-ordered}
use notifyfork.Infrastructure.Providers.{twilio_sms_provider, twilio_whatsapp_provider}
use notifyfork.Infrastructure.Providers.SendGrid.{sendgrid_provider}
use notifyfork.Infrastructure.Providers.Resend.{resend_provider}
use notifyfork.Infrastructure.Providers.Slack.{slack_provider}
use notifyfork.Infrastructure.Providers.Smtp.{smtp_provider}
use notifyfork.Infrastructure.Providers.Firebase.{firebase_provider, ensure_app}
use notifyfork.Infrastructure.Providers.Whole.{
  twilio_sms_provider-IsWhole, twilio_whatsapp_provider-IsWhole, sendgrid_provider-IsWhole,
  resend_provider-IsWhole, smtp_provider-IsWhole, firebase_provider-IsWhole, slack_provider-IsWhole,
}
use notifyfork.Infrastructure.BuiltIn.{Vendors, construct}

-- The generic channel of each vendor.
abbrev pub generic_channels : Dict String
generic_channels =
    ("twilio_sms", "sms")
    ∷ ("twilio_whatsapp", "whatsapp")
    ∷ ("sendgrid_email", "email")
    ∷ ("resend_email", "email")
    ∷ ("smtp_email", "email")
    ∷ ("firebase_push", "push")
    ∷ ("slack", "slack")
    ∷ []

module _ {V X : Type 0} where
  -- The provider has a `supports`, which says yes to its own name and to its generic channel, and
  -- its results have the attributes that the use case reads.
  pub record IsBuiltIn (p : Provider V X) : Type 0 where
    pub has : HasSupports p
    pub channels :
        (channel : String)
        → (serves channel p ≡ true)
          ↔ ((channel ≡ p.name) ⊎ (get p.name generic_channels ≡ some channel))
    pub whole :
        (recipient : String) (template : NotificationTemplate) (context : Dict V)
        → IsWhole recipient template context p

two_channels :
    (name generic channel : String)
    → get name generic_channels ≡ some generic
    → (listed_channel (generic ∷ name ∷ []) channel ≡ true)
      ↔ ((channel ≡ name) ⊎ (get name generic_channels ≡ some channel))
unfolding listed_channel
two_channels name generic channel known = elim (Bool-cases (generic == channel)) [
  | inl same ↦ rw same (λ h. inr (known ∙ ap some ((eq_iff generic channel).0 same)), λ h. refl)
  | inr other ↦ elim (Bool-cases (name == channel)) [
    | inl own ↦ rw (other, own) (λ h. inl (sym ((eq_iff name channel).0 own)), λ h. refl)
    | inr neither ↦
        rw (other, neither)
          (
            (λ h. cc),
            λ h. elim h [
              | inl own ↦ cc ((eq_iff name channel).1 (sym own))
              | inr wide ↦
                  cc
                    ((eq_iff generic channel).1 (some-injective generic channel (sym known ∙ wide)))
            ],
          )
  ]
]

one_channel :
    (name channel : String)
    → get name generic_channels ≡ some name
    → (listed_channel (name ∷ []) channel ≡ true)
      ↔ ((channel ≡ name) ⊎ (get name generic_channels ≡ some channel))
unfolding listed_channel
one_channel name channel known = elim (Bool-cases (name == channel)) [
  | inl own ↦ rw own (λ h. inl (sym ((eq_iff name channel).0 own)), λ h. refl)
  | inr other ↦ rw other (
    (λ h. cc),
    λ h. elim h [
      | inl own ↦ cc ((eq_iff name channel).1 (sym own))
      | inr wide ↦ cc ((eq_iff name channel).1 (some-injective name channel (sym known ∙ wide)))
    ],
  )
]

module _ {V X : Type 0} where
  IsBuiltIn-of_ok : (p q : Provider V X) → ok p ≡ ok q → IsBuiltIn p → IsBuiltIn q
  IsBuiltIn-of_ok p q e h = let same : p ≡ q = cc (e) in rw (← same) h

module _ {V X App : Type 0} ⦃code : Str ℕ⦄ ⦃j : Str Json⦄ ⦃s : Str V⦄
    (vendors : Vendors V X App) where
  construct-IsBuiltIn : (c : Config) (p : Provider V X) → construct vendors c ≡ ok p → IsBuiltIn p
  unfolding construct twilio_sms_provider twilio_whatsapp_provider sendgrid_provider resend_provider
      smtp_provider firebase_provider slack_provider get
  construct-IsBuiltIn (twilio_sms sid token from_number) p h =
      let (create, made, e) = >>=-eq-ok (vendors.twilio_client sid token) _ h in
      IsBuiltIn-of_ok _ p e (record {
        has = (λ e. cc);
        channels = (λ channel. two_channels "twilio_sms" "sms" channel refl);
        whole = twilio_sms_provider-IsWhole create from_number;
      })
  construct-IsBuiltIn (twilio_whatsapp sid token from_number) p h =
      let (create, made, e) = >>=-eq-ok (vendors.twilio_client sid token) _ h in
      IsBuiltIn-of_ok _ p e (record {
        has = (λ e. cc);
        channels = (λ channel. two_channels "twilio_whatsapp" "whatsapp" channel refl);
        whole = twilio_whatsapp_provider-IsWhole create from_number;
      })
  construct-IsBuiltIn (sendgrid_email api_key from_email from_name) p h =
      IsBuiltIn-of_ok _ p h (record {
        has = (λ e. cc);
        channels = (λ channel. two_channels "sendgrid_email" "email" channel refl);
        whole = sendgrid_provider-IsWhole vendors.post_mail api_key from_email from_name;
      })
  construct-IsBuiltIn (resend_email api_key from_email from_name) p h =
      IsBuiltIn-of_ok _ p h (record {
        has = (λ e. cc);
        channels = (λ channel. two_channels "resend_email" "email" channel refl);
        whole = resend_provider-IsWhole vendors.post_resend api_key from_email from_name;
      })
  construct-IsBuiltIn (smtp_email host port username password from_email) p h =
      IsBuiltIn-of_ok _ p h (record {
        has = (λ e. cc);
        channels = (λ channel. two_channels "smtp_email" "email" channel refl);
        whole = smtp_provider-IsWhole vendors.smtp host port username password from_email;
      })
  construct-IsBuiltIn (firebase_push credentials_path) p h =
      let (app, made, e) =
        >>=-eq-ok (ensure_app vendors.initialize_app credentials_path vendors.default_app) _ h in
      IsBuiltIn-of_ok _ p e (record {
        has = (λ e. cc);
        channels = (λ channel. two_channels "firebase_push" "push" channel refl);
        whole = firebase_provider-IsWhole vendors.push;
      })
  construct-IsBuiltIn (slack bot_token) p h = IsBuiltIn-of_ok _ p h (record {
    has = (λ e. cc);
    channels = (λ channel. one_channel "slack" channel refl);
    whole = slack_provider-IsWhole vendors.post_slack bot_token;
  })

  instances-IsBuiltIn :
      (cs : List (Result Config)) (ps : List (Provider V X))
      → instances (λ (p : Provider V X). p.name) (construct vendors) cs ≡ ok ps
      → All IsBuiltIn ps
  unfolding instances
  instances-IsBuiltIn [] [] h = tt
  instances-IsBuiltIn [] (p ∷ ps) h = cc
  instances-IsBuiltIn (c ∷ cs) ps h =
      let (config, given, e1) = >>=-eq-ok c _ h in
      let (q, made, e2) = >>=-eq-ok (construct vendors config) _ e1 in
      let (qs, rest, e3) =
        >>=-eq-ok (instances (λ (p : Provider V X). p.name) (construct vendors) cs) _ e2 in
      let same : q ∷ qs ≡ ps = cc (e3) in
      rw (← same) (construct-IsBuiltIn config q made, instances-IsBuiltIn cs qs rest)

  build_providers-IsBuiltIn :
      (env : Dict String) (ps : List (Provider V X))
      → build_providers (λ p. p.name) (construct vendors) env [] ≡ ok ps
      → All IsBuiltIn ps
  unfolding build_providers
  build_providers-IsBuiltIn env ps h =
      let (qs, made, e) =
        >>=-eq-ok (instances (λ (p : Provider V X). p.name) (construct vendors) (configs env)) _
          h in
      let raw = get "NOTIFYFORK_PROVIDER_ORDER" env in
      let same : ordered (λ (p : Provider V X). p.name) raw (qs ++ []) ≡ ps = cc (e) in
      rw (← same) (
        All-of_mem IsBuiltIn _ (λ p m.
          mem-All IsBuiltIn (qs ++ []) p
            (All-append IsBuiltIn qs [] (instances-IsBuiltIn (configs env) qs made) tt)
            (mem_of-ordered (λ (p : Provider V X). p.name) raw (qs ++ []) p m)))

  -- Where no class is registered from outside, each provider that the container builds from the
  -- environment serves exactly two channels, its own name and the generic one of its kind (one and
  -- the same for Slack), and for any channel the candidates are those that serve it, in the
  -- container's order, or there is the error that no provider is available.
  pub environment_channels :
      (env : Dict String) (channel : String) (ps : List (Provider V X))
      → build_providers (λ p. p.name) (construct vendors) env [] ≡ ok ps
      → All IsBuiltIn ps
        × (resolve_providers ps channel ≡ require_some channel (ok (filter (serves channel) ps)))
  environment_channels env channel ps h =
      let built = build_providers-IsBuiltIn env ps h in
      (
        built,
        (resolve_providers_lem ps channel).0
            (All-map IsBuiltIn HasSupports (λ p b. b.has) ps built),
      )
