-- ===== src/Domain/Template.antt =====
-- notifyfork/core/domain/value_objects/template.py. A context is a dictionary from text keys to
-- values of any type that has a `str`.
pub mod Laws
pub mod Mapping
use notifyfork.Common.{
  String, Bool, true, false, Option, none, some, List, [], ◌∷◌, map, ◌==◌, if◌then◌else◌,
}
use notifyfork.Python.Dict.{Dict, get, get_or, put_all}
use notifyfork.Python.Result.{Error, value_error, key_error, error_text, Result, ok, err, ◌>>=◌}
use notifyfork.Python.Template.{Str, substitute}
use Prim.Native.String

pub data TemplateMode : Type 0 where
  local external : TemplateMode

-- `TemplateMode.value`, the text that the database holds.
unfoldable pub mode_value : TemplateMode → String
mode_value local = "local"
mode_value external = "external"

pub record VariableMapping : Type 0 where
  pub mappings : Dict String

pub record NotificationTemplate : Type 0 where
  pub id : String
  pub body : String
  pub mode : TemplateMode
  pub subject : Option String
  pub variable_mapping : VariableMapping

module _ {V : Type 0} where
  -- The items of the comprehension in `translate`.
  unfoldable pub renamed : Dict String → Dict V → List (String × V)
  renamed mappings [] = []
  renamed mappings ((k, v) ∷ context) = (get_or (get k mappings) k, v) ∷ renamed mappings context

  -- `if not self.mappings: return context`, else the comprehension.
  unfoldable pub translate_items : Dict String → Dict V → Dict V
  unfolding renamed
  translate_items [] context = context
  translate_items (m ∷ mappings) context = put_all (renamed (m ∷ mappings) context) []

  unfoldable pub translate : VariableMapping → Dict V → Dict V
  unfolding translate_items
  translate m context = translate_items m.mappings context

  unfoldable pub translate_variables : NotificationTemplate → Dict V → Dict V
  unfolding translate
  translate_variables t context = translate t.variable_mapping context

abbrev mode_is_external : TemplateMode → Bool
mode_is_external external = true
mode_is_external local = false

unfoldable pub is_external : NotificationTemplate → Bool
is_external t = mode_is_external t.mode

unfoldable pub external_template_id : NotificationTemplate → Result String
unfolding is_external
external_template_id t =
    if is_external t
    then ok t.body
    else err (value_error "external_template_id is only valid in EXTERNAL mode")

-- `except KeyError as e: raise ValueError(f"{prefix}: {e}")`; any other exception passes.
unfoldable pub missing_error : String → Error → Error
unfolding error_text
missing_error prefix (key_error key) = value_error (String.◌++◌ prefix (error_text (key_error key)))
missing_error prefix e = e

unfoldable pub name_missing : String → Result String → Result String
unfolding missing_error
name_missing prefix (ok text) = ok text
name_missing prefix (err e) = err (missing_error prefix e)

abbrev pub cannot_render : Error
cannot_render =
    value_error
      "Cannot render locally — this template uses EXTERNAL mode. Pass the template to the provider directly."

module _ {V : Type 0} ⦃s : Str V⦄ where
  unfoldable pub render : NotificationTemplate → Dict V → Result String
  unfolding is_external name_missing
  render t context =
      if is_external t
      then err cannot_render
      else name_missing "Missing template variable: " (substitute t.body context)

  -- `if not self.subject` holds of `None` and of the empty text.
  unfoldable pub render_subject : NotificationTemplate → Dict V → Result (Option String)
  unfolding name_missing
  render_subject t context = elim t.subject [
    | none ↦ ok none
    | some subject ↦ if subject == "" then ok none else do
      text ← name_missing "Missing subject variable: " (substitute subject context)
      ok (some text)
  ]
