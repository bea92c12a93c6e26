-- ===== src/Application/Interfaces/Provider.antt =====
-- interfaces/notification_provider.py. A provider is used only through its name, `supports` and
-- `send_with_template`, so it is a record of these; `X` is the state of everything outside the
-- program, which a call to a provider may change.
use notifyfork.Common.{ℕ, String, Bool, Option, List, any, ◌==◌}
use notifyfork.Python.Dict.{Dict}
use notifyfork.Python.Result.{Error}
use notifyfork.Domain.Template.{NotificationTemplate}

pub record ProviderResult : Type 0 where
  pub success : Bool
  pub provider_name : String
  pub external_id : Option String
  pub error : Option String

-- What a class that is registered from outside may return in place of a ProviderResult: an object
-- that need not have the attributes. Of `success` only its truth is used.
pub record LooseResult : Type 0 where
  pub success : Option Bool
  pub external_id : Option (Option String)
  pub error : Option (Option String)

-- `await provider.send_with_template(...)` returns, or raises.
pub data Attempt : Type 0 where
  returned : ProviderResult → Attempt
  returned_loose : LooseResult → Attempt
  raised : Error → Attempt

-- A class that is registered from outside need not have the method `supports`.
pub record Provider (V X : Type 0) : Type 0 where
  pub name : String
  pub supports : Option (String → Bool)
  pub send_with_template : String → NotificationTemplate → Dict V → X → Attempt × X

-- `NotificationProvider.supports`, which the built-in providers inherit.
unfoldable pub listed_channel : List String → String → Bool
listed_channel supported_channels channel = any (λ c. c == channel) supported_channels

-- The clock and `uuid4`, which read the outside.
pub record Host (X : Type 0) : Type 0 where
  pub now : X → ℕ
  pub uuid4 : X → ℕ × X
