-- ===== src/Examples/Values.antt =====
-- The theorems on templates, notifications and their rows, at concrete inputs.
use mathlib.Core.List.{Memᴰ}
use notifyfork.Common.{◌≡◌, ◌↔◌, refl, String, false, some, [], ◌∷◌, All}
use notifyfork.Python.Dict.{get, get_or, put, put_all}
use notifyfork.Python.Result.{Result, ok, err}
use notifyfork.Python.Template.{lit, var, plain, scan, fill, id_start, id_part, substitute}
use notifyfork.Python.Template.Source.{source}
use notifyfork.Python.Template.Sound.{IsBound}
use notifyfork.Domain.Template.{
  NotificationTemplate, is_external, render, translate, VariableMapping,
}
use notifyfork.Domain.Template.Laws.{
  RenderBlame, missing_variable, render-RenderBlame, render_ok_iff, render-source,
}
use notifyfork.Domain.Template.Mapping.{provider_key, mem_of_get-translate}
use notifyfork.Domain.Notification.Machine.{
  queue, fail, send, calls, IsConsistent, SameRequest, calls_sound,
}
use notifyfork.Infrastructure.Repository.{get_by_id, save}
use notifyfork.Infrastructure.Repository.Laws.{get_by_id-save}
use notifyfork.Examples.Table.{Table, table_orm, table_laws}
use notifyfork.Examples.Data.{welcome, ana, stored, fresh, text_str, json_text}

abbrev saved_table : Result (Table String) → Table String
saved_table (ok db) = db
saved_table (err e) = stored

get_by_id-save_example :
    get_by_id table_orm 9 (saved_table (save table_orm fresh 11 stored))
    ≡ ok (some (record fresh { created_at = 11 }))
unfolding save
get_by_id-save_example = get_by_id-save table_orm table_laws fresh 9 11 stored _ refl

render-RenderBlame_example : RenderBlame {V = String} welcome [] (missing_variable "name")
unfolding render substitute get is_external scan id_start id_part
render-RenderBlame_example = render-RenderBlame welcome [] (missing_variable "name") refl

render_ok_iff_example :
    ((text : String) × (render welcome ana ≡ ok text))
    ↔ ((is_external welcome ≡ false) × All (IsBound ana) (scan plain "Hi $name"))
render_ok_iff_example = render_ok_iff welcome ana

abbrev braced : NotificationTemplate
braced = record welcome { body = "$$ ${a}" }

render-source_example : render {V = String} braced (("a", "1") ∷ []) ≡ ok "$ 1"
unfolding is_external source fill get id_start id_part text_str
render-source_example =
    render-source {V = String} braced (("a", "1") ∷ []) (lit "$" ∷ lit " " ∷ var "a" ∷ []) "$ 1"
      refl refl (tt, (tt, ((refl, tt), tt))) refl

abbrev names : VariableMapping
names = record { mappings = ("name", "NAME") ∷ [] }

mem_of_get-translate_example :
    (k : String) × (provider_key (("name", "NAME") ∷ []) k ≡ "NAME") × Memᴰ (k, "Ana") ana
unfolding translate get put_all put get_or
mem_of_get-translate_example = mem_of_get-translate names ana "NAME" "Ana" refl

calls_sound_example :
    IsConsistent (calls (queue ∷ fail "down" ∷ send "twilio_sms" (some "SM1") 4 ∷ []) fresh)
    × SameRequest fresh (calls (queue ∷ fail "down" ∷ send "twilio_sms" (some "SM1") 4 ∷ []) fresh)
calls_sound_example =
    calls_sound (queue ∷ fail "down" ∷ send "twilio_sms" (some "SM1") 4 ∷ []) fresh refl
