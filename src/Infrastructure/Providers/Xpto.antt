-- ===== src/Infrastructure/Providers/Xpto.antt =====
-- examples/custom_provider/register_xpto_provider.py, from the repository's root: the class that the
-- example registers. `print_line` is `print`, which acts on the outside.
use notifyfork.Common.{String, true, none, some, [], ◌∷◌}
use notifyfork.Python.Result.{Result, ok, err}
use notifyfork.Python.Template.{Str}
use notifyfork.Domain.Template.{render}
use notifyfork.Application.Interfaces.Provider.{
  Attempt, returned_loose, raised, Provider, listed_channel,
}
use Prim.Native.String

module _ {X : Type 0} (print_line : String → X → X) where
  -- The `SimpleNamespace` has no `external_id`.
  unfoldable pub print_rendered : String → Result String → X → Attempt × X
  print_rendered recipient (err e) x = (raised e, x)
  print_rendered recipient (ok body) x = (
    returned_loose (record { success = some true; external_id = none; error = some none }),
    print_line (String.◌++◌ "[xpto] would send to " (String.◌++◌ recipient (String.◌++◌ ": " body)))
        x,
  )

  -- XptoProvider
  unfoldable pub xpto_provider : {V : Type 0} ⦃s : Str V⦄ → Provider V X
  unfolding print_rendered listed_channel
  xpto_provider = record {
    name = "xpto_sms";
    supports = some (listed_channel ("sms" ∷ []));
    send_with_template =
        λ recipient template context x. print_rendered recipient (render template context) x;
  }
