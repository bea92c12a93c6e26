-- ===== src/Infrastructure/Providers/Delivers.antt =====
-- Attempts that the loop of the use case reads as deliveries.
use notifyfork.Common.{String, ◌≡◌, ◌↔◌, refl, sym, ap, subst, Option}
use notifyfork.Python.Result.{Error, Result, ok, err}
use notifyfork.Application.Interfaces.Provider.{Attempt, returned, raised}
use notifyfork.Application.UseCase.{delivery, read_attempt}
use notifyfork.Infrastructure.Providers.Http.{succeeded, failed_with, send_built}

-- The attempt is a delivery with this message id.
abbrev pub Delivers : Attempt → Option String → Type 0
Delivers a o = read_attempt a ≡ delivery o

delivery-injective : {a b : Option String} → delivery a ≡ delivery b → a ≡ b
delivery-injective e = cc

pub not-Delivers_failed :
    (name error : String) (o : Option String) → ¬ Delivers (returned (failed_with name error)) o
unfolding read_attempt failed_with
not-Delivers_failed name error o h = cc

pub not-Delivers_raised : (e : Error) (o : Option String) → ¬ Delivers (raised e) o
unfolding read_attempt
not-Delivers_raised e o h = cc

pub Delivers-succeeded :
    (name : String) (id o : Option String) → Delivers (returned (succeeded name id)) o ↔ (id ≡ o)
unfolding read_attempt succeeded
Delivers-succeeded name id o = (λ h. delivery-injective h, λ h. ap delivery h)

-- What is sent if the request can be built, and how the reply is read.
send_built_iff :
    {B R X : Type 0} (send : B → X → R × X) (read : R → Attempt) (b : Result B) (x : X)
    (o : Option String)
    → Delivers (send_built send read b x).0 o
      ↔ ((request : B) × (b ≡ ok request) × Delivers (read (send request x).0) o)
unfolding send_built
send_built_iff send read (err e) x o = (λ h. absurd (not-Delivers_raised e o h), λ (r, same, h). cc)
send_built_iff send read (ok request) x o = (
  λ h. (request, refl, h),
  λ (r, same, h). subst (λ q. Delivers (read (send q x).0) o) (sym (ok-injective same)) h,
)
  where
    ok-injective : {B : Type 0} {a b : B} → ok a ≡ ok b → a ≡ b
    ok-injective e = cc

pub sends_iff :
    {B R X : Type 0} (send : B → X → R × X) (read : R → Attempt) (Good : R → Option String → Type 0)
    → ((reply : R) (o : Option String) → Delivers (read reply) o ↔ Good reply o)
    → (b : Result B) (x : X) (o : Option String)
    → Delivers (send_built send read b x).0 o
      ↔ ((request : B) × (b ≡ ok request) × Good (send request x).0 o)
sends_iff send read Good reads b x o = (
  λ d.
      let (request, same, h) = (send_built_iff send read b x o).0 d in
      (request, same, (reads (send request x).0 o).0 h),
  λ (request, same, h).
      (send_built_iff send read b x o).1 (request, same, (reads (send request x).0 o).1 h),
)
