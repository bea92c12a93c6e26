-- ===== src/Application/Interfaces/Database.antt =====
-- The tables of models/notification_model.py, and the queries of the Django ORM that the program
-- makes, as an interface with the ORM's documented behaviour.
use mathlib.Core.List.{Memᴰ}
use notifyfork.Common.{
  ℕ, ◌≤◌, String, Bool, true, ◌≡◌, ◌≢◌, ◌⊎◌, Option, none, some, List, All, length,
}
use notifyfork.Python.Dict.{Dict}
use notifyfork.Python.Result.{Result, ok}

-- NotificationModel
pub record NotificationRow (V : Type 0) : Type 0 where
  pub id : ℕ
  pub recipient : String
  pub channel : String
  pub notification_type : String
  pub template_id : String
  pub context : Dict V
  pub status : String
  pub provider_used : Option String
  pub provider_message_id : Option String
  pub attempts : ℕ
  pub max_attempts : ℕ
  pub error_detail : Option String
  pub created_at : ℕ
  pub sent_at : Option ℕ
  pub delivered_at : Option ℕ

-- NotificationTemplateModel; a JSON null in `variable_mapping` is `none`.
pub record TemplateRow : Type 0 where
  pub id : String
  pub body : String
  pub subject : Option String
  pub mode : String
  pub variable_mapping : Option (Dict String)
  pub is_active : Bool

-- The `defaults` of `aupdate_or_create`: the columns that `save` writes.
pub record Defaults (V : Type 0) : Type 0 where
  pub recipient : String
  pub channel : String
  pub notification_type : String
  pub template_id : String
  pub context : Dict V
  pub status : String
  pub provider_used : Option String
  pub provider_message_id : Option String
  pub attempts : ℕ
  pub max_attempts : ℕ
  pub error_detail : Option String
  pub sent_at : Option ℕ

-- `aget` by a column that is not unique.
pub data Found (V : Type 0) : Type 0 where
  does_not_exist : Found V
  found : NotificationRow V → Found V
  multiple_objects : Found V

module _ {V : Type 0} where
  -- A row with the given columns written; the other columns are given apart.
  abbrev pub row_of : ℕ → Defaults V → ℕ → Option ℕ → NotificationRow V
  row_of id d created_at delivered_at = record {
    id = id;
    recipient = d.recipient;
    channel = d.channel;
    notification_type = d.notification_type;
    template_id = d.template_id;
    context = d.context;
    status = d.status;
    provider_used = d.provider_used;
    provider_message_id = d.provider_message_id;
    attempts = d.attempts;
    max_attempts = d.max_attempts;
    error_detail = d.error_detail;
    created_at = created_at;
    sent_at = d.sent_at;
    delivered_at = delivered_at;
  }

  -- A row that is there keeps its other columns. A new row gets `auto_now_add` as `created_at`,
  -- and the null that `delivered_at` has by default.
  abbrev pub written : ℕ → Defaults V → ℕ → Option (NotificationRow V) → NotificationRow V
  written id d now none = row_of id d now none
  written id d now (some r) = row_of id d r.created_at r.delivered_at

-- The queries on a database `DB`. A write may fail; a read is taken to answer.
pub record Orm (V DB : Type 0) : Type 0 where
  -- `NotificationModel.objects.aupdate_or_create(id=..., defaults=...)`, at a time.
  pub aupdate_or_create : ℕ → Defaults V → ℕ → DB → Result DB
  -- `NotificationModel.objects.aget(id=...)`, `none` for DoesNotExist.
  pub aget : ℕ → DB → Option (NotificationRow V)
  -- `NotificationModel.objects.aget(provider_message_id=...)`.
  pub aget_message : String → DB → Found V
  -- `NotificationModel.objects.filter(status=...).order_by("created_at")[:limit]`.
  pub filter_status : String → ℕ → DB → List (NotificationRow V)
  -- `NotificationTemplateModel.objects.aget(id=..., is_active=True)`.
  pub aget_template : String → DB → Option TemplateRow

-- What the Django documentation says of these queries.
pub record OrmLaws {V DB : Type 0} (orm : Orm V DB) : Type 0 where
  pub aget-aupdate_or_create :
      (i : ℕ) (d : Defaults V) (now : ℕ) (db db' : DB)
      → orm.aupdate_or_create i d now db ≡ ok db'
      → orm.aget i db' ≡ some (written i d now (orm.aget i db))
  pub aget-aupdate_or_create_ne :
      (i j : ℕ) (d : Defaults V) (now : ℕ) (db db' : DB)
      → orm.aupdate_or_create i d now db ≡ ok db'
      → j ≢ i
      → orm.aget j db' ≡ orm.aget j db
  pub aget_template-aupdate_or_create :
      (i : ℕ) (t : String) (d : Defaults V) (now : ℕ) (db db' : DB)
      → orm.aupdate_or_create i d now db ≡ ok db'
      → orm.aget_template t db' ≡ orm.aget_template t db
  pub aget_id : (i : ℕ) (db : DB) (r : NotificationRow V) → orm.aget i db ≡ some r → r.id ≡ i
  pub aget_message_found :
      (m : String) (db : DB) (r : NotificationRow V)
      → orm.aget_message m db ≡ found r
      → (r.provider_message_id ≡ some m) × (orm.aget r.id db ≡ some r)
  pub filter_status_rows :
      (s : String) (limit : ℕ) (db : DB)
      → All
          (λ (r : NotificationRow V). (r.status ≡ s) × (orm.aget r.id db ≡ some r))
          (orm.filter_status s limit db)
  pub length-filter_status :
      (s : String) (limit : ℕ) (db : DB) → length (orm.filter_status s limit db) ≤ limit
  -- A row that a query leaves out is beyond the limit.
  pub filter_status_complete :
      (s : String) (limit : ℕ) (db : DB) (i : ℕ) (r : NotificationRow V)
      → orm.aget i db ≡ some r
      → r.status ≡ s
      → (limit ≤ length (orm.filter_status s limit db)) ⊎ Memᴰ r (orm.filter_status s limit db)
  pub aget_template_active :
      (t : String) (db : DB) (r : TemplateRow)
      → orm.aget_template t db ≡ some r
      → (r.id ≡ t) × (r.is_active ≡ true)
