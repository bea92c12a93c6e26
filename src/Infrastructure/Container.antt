-- ===== src/Infrastructure/Container.antt =====
-- container/providers.py: which providers are built from the environment, in which order they are
-- tried, and the cached list that the `provider` decorator invalidates. `P` is the type of provider
-- objects; a constructor of an SDK's client may raise, so `make` returns a result.
pub mod Order
pub mod Cache
use notifyfork.Common.{
  ℕ, String, Bool, true, false, not, ◌&&◌, Option, none, some, List, [], ◌∷◌, ◌++◌, map, any,
  filter, ◌==◌, if◌then◌else◌,
}
use notifyfork.Python.Dict.{Dict, get, get_or, put_all}
use notifyfork.Python.Int.{ℤ, int_of_text}
use notifyfork.Python.Result.{Error, value_error, Result, ok, err, ◌>>=◌}
use notifyfork.Python.Text.{strip, split}

-- The arguments with which `_build_providers` calls a provider's class.
pub data Config : Type 0 where
  twilio_sms : String → String → String → Config
  twilio_whatsapp : String → String → String → Config
  sendgrid_email : String → String → String → Config
  resend_email : String → String → String → Config
  smtp_email : String → ℤ → String → String → String → Config
  firebase_push : String → Config
  slack : String → Config

abbrev pub default_provider_order : List String
default_provider_order =
    "twilio_sms" ∷ "twilio_whatsapp" ∷ "sendgrid_email" ∷ "resend_email" ∷ "smtp_email"
    ∷ "firebase_push" ∷ "slack" ∷ []

-- Truth of `os.environ.get(name)`: set, and not empty.
unfoldable pub is_set : Option String → Bool
is_set none = false
is_set (some value) = not (value == "")

unfoldable pub all_set : List (Option String) → Bool
unfolding is_set
all_set [] = true
all_set (value ∷ values) = is_set value && all_set values

-- `if all([...]): providers.append(...)`, where the arguments of the class may raise.
unfoldable pub when_set : List (Option String) → Result Config → List (Result Config)
unfolding all_set
when_set values config = if all_set values then config ∷ [] else []

-- `int(os.environ.get("SMTP_PORT", "465"))`
unfoldable pub smtp_port : Dict String → Result ℤ
unfolding int_of_text get get_or
smtp_port env = elim (int_of_text (get_or (get "SMTP_PORT" env) "465")) [
  | none ↦ err (value_error "invalid literal for int() with base 10")
  | some port ↦ ok port
]

-- The built-in providers that the environment has credentials for, in the order of the code.
unfoldable pub configs : Dict String → List (Result Config)
unfolding when_set smtp_port get get_or
configs env =
    when_set (sid ∷ token ∷ from ∷ []) (ok (twilio_sms (text sid) (text token) (text from)))
    ++ when_set (sid ∷ token ∷ wa_from ∷ [])
        (ok (twilio_whatsapp (text sid) (text token) (text wa_from)))
    ++ when_set (sg_key ∷ sg_from ∷ []) (
        ok (
          sendgrid_email (text sg_key) (text sg_from)
            (get_or (get "SENDGRID_FROM_NAME" env) "NotifyFork")))
    ++ when_set (re_key ∷ re_from ∷ [])
        (ok (resend_email (text re_key) (text re_from) (get_or (get "RESEND_FROM_NAME" env) "")))
    ++ when_set (host ∷ user ∷ password ∷ smtp_from ∷ []) (
        smtp_port env >>= λ port.
        ok (smtp_email (text host) port (text user) (text password) (text smtp_from)))
    ++ when_set (creds ∷ []) (ok (firebase_push (text creds)))
    ++ when_set (bot ∷ []) (ok (slack (text bot)))
  where
    text : Option String → String
    text value = get_or value ""

    sid : Option String
    sid = get "TWILIO_ACCOUNT_SID" env

    token : Option String
    token = get "TWILIO_AUTH_TOKEN" env

    from : Option String
    from = get "TWILIO_FROM_NUMBER" env

    wa_from : Option String
    wa_from = get "TWILIO_WHATSAPP_FROM_NUMBER" env

    sg_key : Option String
    sg_key = get "SENDGRID_API_KEY" env

    sg_from : Option String
    sg_from = get "SENDGRID_FROM_EMAIL" env

    re_key : Option String
    re_key = get "RESEND_API_KEY" env

    re_from : Option String
    re_from = get "RESEND_FROM_EMAIL" env

    host : Option String
    host = get "SMTP_HOST" env

    user : Option String
    user = get "SMTP_USERNAME" env

    password : Option String
    password = get "SMTP_PASSWORD" env

    smtp_from : Option String
    smtp_from = get "SMTP_FROM_EMAIL" env

    creds : Option String
    creds = get "FIREBASE_CREDENTIALS_PATH" env

    bot : Option String
    bot = get "SLACK_BOT_TOKEN" env

-- `[name.strip() for name in raw.split(",")] if raw else DEFAULT_PROVIDER_ORDER`
unfoldable pub provider_order : Option String → List String
unfolding strip split
provider_order none = default_provider_order
provider_order (some raw) = if raw == "" then default_provider_order else map strip (split b',' raw)

module _ {P : Type 0} (name : P → String) where
  -- `{p.name: p for p in providers}`
  unfoldable pub by_name : List P → Dict P
  by_name ps = put_all (map (λ p. (name p, p)) ps) []

  -- `[by_name[name] for name in order if name in by_name]`
  unfoldable pub listed : List String → Dict P → List P
  listed [] d = []
  listed (n ∷ order) d =
      let rest = listed order d in elim (get n d) [ none ↦ rest | some p ↦ p ∷ rest ]

  -- `[p for p in providers if p.name not in order]`
  unfoldable pub remaining : List String → List P → List P
  remaining order ps = filter (λ p. not (any (λ n. n == name p) order)) ps

  unfoldable pub ordered : Option String → List P → List P
  unfolding provider_order by_name listed remaining
  ordered raw ps = let order = provider_order raw in listed order (by_name ps) ++ remaining order ps

  module _ (make : Config → Result P) where
    unfoldable pub instances : List (Result Config) → Result (List P)
    instances [] = ok []
    instances (c ∷ cs) = do config ← c; p ← make config; ps ← instances cs; ok (p ∷ ps)

    -- `_build_providers`, with the providers that are registered from outside.
    unfoldable pub build_providers : Dict String → List P → Result (List P)
    unfolding configs instances ordered get
    build_providers env extra = do
      ps ← instances (configs env)
      ok (ordered (get "NOTIFYFORK_PROVIDER_ORDER" env) (ps ++ extra))

-- `_extra_providers`, and the `lru_cache` of `Container.providers`.
pub record Registry (P : Type 0) : Type 0 where
  pub extra : List P
  pub cached : Option (List P)

module _ {P : Type 0} where
  -- What `lru_cache` does with the cached list and what the call would give: a call that raises is
  -- not cached.
  unfoldable pub through_cache :
      Option (List P) → Result (List P) → Registry P → Result (List P) × Registry P
  through_cache (some ps) built r = (ok ps, r)
  through_cache none (ok ps) r = (ok ps, record r { cached = some ps })
  through_cache none (err e) r = (err e, r)

  -- The decorator `provider`, once the class has been instantiated.
  unfoldable pub provider : P → Registry P → Registry P
  provider instance_ r = record r { extra = r.extra ++ instance_ ∷ []; cached = none }

  module _ (name : P → String) (make : Config → Result P) where
    -- `Container.providers`
    unfoldable pub providers : Dict String → Registry P → Result (List P) × Registry P
    unfolding through_cache
    providers env r = through_cache r.cached (build_providers name make env r.extra) r
