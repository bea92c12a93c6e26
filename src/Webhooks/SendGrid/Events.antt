-- ===== src/Webhooks/SendGrid/Events.antt =====
-- One event of SendGrid: what it says, and what becomes of it.
use notifyfork.Common.{
  String, ◌≡◌, ◌≢◌, ◌⊎◌, refl, sym, Bool, true, false, Option, none, some, ◌++◌, Bool-cases, inl,
  inr, ◌==◌, eq_iff, if◌then◌else◌,
}
use notifyfork.Python.Json.{
  Json, Fields, null, boolean, number, text, array, object, get_field, given_true, text_column,
}
use notifyfork.Python.Result.{Error, attribute_error, external, Result, ok, err, ◌>>=◌}
use notifyfork.Python.Template.{Str}
use notifyfork.Python.Text.{lower, split, first_part}
use notifyfork.Application.Interfaces.Database.{
  NotificationRow, Found, does_not_exist, found, multiple_objects, Orm,
}
use notifyfork.Webhooks.Delivery.{UuidText, Update}
use notifyfork.Webhooks.Answer.{one_of, text_of_found, find_notification_id}
use notifyfork.Webhooks.SendGrid.{
  delivered_events, failed_events, text_or_raise, text_field, reason_text, event_update,
  final_update, read_event,
}

-- The text under the key, or the empty one if the key is not there.
abbrev pub Says : String → Fields → String → Type 0
Says key entries t =
    (get_field key entries ≡ some (text t)) ⊎ ((get_field key entries ≡ none) × (t ≡ ""))

-- Something that is not a text is under the key.
pub record SaysNoText (key : String) (entries : Fields) : Type 0 where
  pub value : Json
  pub given : get_field key entries ≡ some value
  pub no_text : (t : String) → value ≢ text t

abbrev pub IsFailedType : String → Type 0
IsFailedType t = (t ≡ "bounce") ⊎ (t ≡ "dropped") ⊎ (t ≡ "spamreport")

-- The type reports that the message was delivered, or that it was not.
abbrev pub Outcome : String → Bool → Type 0
Outcome t delivered =
    ((t ≡ "delivered") × (delivered ≡ true)) ⊎ (IsFailedType t × (delivered ≡ false))

abbrev pub IsOtherType : String → Type 0
IsOtherType t = (t ≢ "delivered") × (t ≢ "bounce") × (t ≢ "dropped") × (t ≢ "spamreport")

-- What the event says of the reason: the `reason` if it is true, or else the `type` if it is true.
abbrev pub reason_of : ⦃j : Str Json⦄ → Fields → Option String
reason_of entries =
    if given_true (get_field "reason" entries)
    then text_column (get_field "reason" entries)
    else if given_true (get_field "type" entries)
    then text_column (get_field "type" entries)
    else none

text_cases :
    (key method : String) (entries : Fields) (o : Option Json)
    → get_field key entries ≡ o
    → ((t : String) × Says key entries t × (text_or_raise method o ≡ ok t))
      ⊎ (SaysNoText key entries × (text_or_raise method o ≡ err (attribute_error method)))
unfolding text_or_raise
text_cases key method entries none e = inl ("", inr (e, refl), refl)
text_cases key method entries (some null) e =
    inr (record { value = null; given = e; no_text = λ t. λ same. cc (same) }, refl)
text_cases key method entries (some (boolean b)) e =
    inr (record { value = boolean b; given = e; no_text = λ t. λ same. cc (same) }, refl)
text_cases key method entries (some (number shown zero)) e =
    inr (record { value = number shown zero; given = e; no_text = λ t. λ same. cc (same) }, refl)
text_cases key method entries (some (text t)) e = inl (t, inl e, refl)
text_cases key method entries (some (array js)) e =
    inr (record { value = array js; given = e; no_text = λ t. λ same. cc (same) }, refl)
text_cases key method entries (some (object fs)) e =
    inr (record { value = object fs; given = e; no_text = λ t. λ same. cc (same) }, refl)

reason_of_lem :
    ⦃j : Str Json⦄
    → (entries : Fields)
    → reason_text (
        if given_true (get_field "reason" entries)
        then get_field "reason" entries
        else get_field "type" entries)
      ≡ reason_of entries
unfolding reason_text
reason_of_lem entries = elim (Bool-cases (given_true (get_field "reason" entries))) [
  | inl given ↦ rw (given, given)
  | inr missing ↦ rw missing
]

-- The sets of the source hold the types that report an outcome.
type_cases :
    (t : String)
    → (Outcome t (one_of delivered_events t)
        × (one_of (delivered_events ++ failed_events) t ≡ true))
      ⊎ (IsOtherType t × (one_of (delivered_events ++ failed_events) t ≡ false))
unfolding one_of
type_cases t = elim (Bool-cases ("delivered" == t)) [
  | inl a ↦ inl (inl (sym ((eq_iff "delivered" t).0 a), rw a), rw a)
  | inr a ↦ elim (Bool-cases ("bounce" == t)) [
    | inl b ↦ inl (inr (inl (sym ((eq_iff "bounce" t).0 b)), rw a), rw (a, b))
    | inr b ↦ elim (Bool-cases ("dropped" == t)) [
      | inl c ↦ inl (inr (inr (inl (sym ((eq_iff "dropped" t).0 c))), rw a), rw (a, b, c))
      | inr c ↦ elim (Bool-cases ("spamreport" == t)) [
        | inl d ↦ inl (inr (inr (inr (sym ((eq_iff "spamreport" t).0 d))), rw a), rw (a, b, c, d))
        | inr d ↦ inr (
          (
            (λ e. cc ((eq_iff "delivered" t).1 (sym e), a)),
            (λ e. cc ((eq_iff "bounce" t).1 (sym e), b)),
            (λ e. cc ((eq_iff "dropped" t).1 (sym e), c)),
            (λ e. cc ((eq_iff "spamreport" t).1 (sym e), d)),
          ),
          rw (a, b, c, d),
        )
      ]
    ]
  ]
]

module _ ⦃j : Str Json⦄ {V DB : Type 0} (orm : Orm V DB) (uuids : UuidText) (db : DB) where
  -- The entries of an event of which the type and the message are texts, and what the database has
  -- for the message: what the part before its first dot names.
  pub record Reads (event : Json) (f : Found V) : Type 0 where
    pub entries : Fields
    pub is_object : event ≡ object entries
    pub event_type : String
    pub message : String
    pub typed : Says "event" entries event_type
    pub sent_as : Says "sg_message_id" entries message
    pub looked_up : orm.aget_message (first_part (split b'.' message)) db ≡ f

  -- The update reports what the event says of the stored notification that was sent as its message.
  pub record Reports (event : Json) (u : Update) : Type 0 where
    pub row : NotificationRow V
    pub reads : Reads event (found row)
    pub notification : u.notification_id ≡ uuids.to_text row.id
    pub outcome : Outcome (lower reads.event_type) u.delivered
    pub reason : u.reason ≡ reason_of reads.entries

  -- The event is of another type, or no stored notification was sent as its message.
  pub record PassedOver (event : Json) : Type 0 where
    pub stored : Found V
    pub reads : Reads event stored
    pub why : IsOtherType (lower reads.event_type) ⊎ (stored ≡ does_not_exist)

  -- The event is no object, or its type or its message is no text, or several stored notifications
  -- were sent as its message.
  pub data Raises (event : Json) : Error → Type 0 where
    no_object : ((entries : Fields) → event ≢ object entries) → Raises event (attribute_error "get")
    no_type :
        (entries : Fields)
        → event ≡ object entries
        → SaysNoText "event" entries
        → Raises event (attribute_error "lower")
    no_message :
        (entries : Fields) (event_type : String)
        → event ≡ object entries
        → Says "event" entries event_type
        → SaysNoText "sg_message_id" entries
        → Raises event (attribute_error "split")
    several :
        (reads : Reads event multiple_objects)
        → ¬ IsOtherType (lower reads.event_type)
        → Raises event (external "get() returned more than one NotificationModel")

  -- What one pass of the loop says of the event.
  abbrev pub Explains : Json → Result (Option Update) → Type 0
  Explains event (err e) = Raises event e
  Explains event (ok none) = PassedOver event
  Explains event (ok (some u)) = Reports event u

  Explains-update :
      (event : Json) (f : Found V) (reads : Reads event f) (reason : Option String)
      → reason ≡ reason_of reads.entries
      → Outcome (lower reads.event_type) (one_of delivered_events (lower reads.event_type))
      → Explains event
          (do id ← text_of_found uuids f; ok (event_update (lower reads.event_type) reason id))
  unfolding text_of_found event_update
  Explains-update event does_not_exist reads reason why final = record {
    stored = does_not_exist;
    reads = reads;
    why = inr refl;
  }
  Explains-update event (found row) reads reason why final = record {
    row = row;
    reads = reads;
    notification = refl;
    outcome = final;
    reason = why;
  }
  Explains-update event multiple_objects reads reason why final = Raises.several reads (λ other.
      elim final [
        | inl (same, _) ↦ other.0 same
        | inr (failed, _) ↦ elim failed [
          | inl same ↦ other.1 same
          | inr more ↦ elim more [ inl same ↦ other.2 same | inr same ↦ other.3 same ]
        ]
      ])

  Explains-final_update :
      (event : Json) (entries : Fields) (event_type message : String)
      → event ≡ object entries
      → Says "event" entries event_type
      → Says "sg_message_id" entries message
      → Explains event (
          final_update orm uuids
            (lower event_type)
            (first_part (split b'.' message))
            (reason_of entries)
            db)
  unfolding final_update find_notification_id
  Explains-final_update event entries event_type message same typed sent_as =
      let f = orm.aget_message (first_part (split b'.' message)) db in
      let reads : Reads event f = record {
        entries = entries;
        is_object = same;
        event_type = event_type;
        message = message;
        typed = typed;
        sent_as = sent_as;
        looked_up = refl;
      } in
      elim (type_cases (lower event_type)) [
        | inl (final, one) ↦ rw one (Explains-update event f reads (reason_of entries) refl final)
        | inr (other, none_of) ↦ rw none_of (record { stored = f; reads = reads; why = inl other })
      ]

  Explains-object :
      (event : Json) (entries : Fields)
      → event ≡ object entries
      → Explains event (read_event orm uuids (object entries) db)
  unfolding read_event text_field
  Explains-object event entries same = elim (text_cases "event" "lower" entries _ refl) [
    | inr (odd, raises) ↦ rw raises (Raises.no_type entries same odd)
    | inl (event_type, typed, read) ↦ elim (text_cases "sg_message_id" "split" entries _ refl) [
      | inr (odd, raises) ↦ rw (read, raises) (Raises.no_message entries event_type same typed odd)
      | inl (message, sent_as, read_message) ↦
          rw (read, read_message, reason_of_lem entries)
            (Explains-final_update event entries event_type message same typed sent_as)
    ]
  ]

  pub Explains-read_event : (event : Json) → Explains event (read_event orm uuids event db)
  unfolding read_event text_field
  Explains-read_event null = Raises.no_object (λ entries same. cc (same))
  Explains-read_event (boolean b) = Raises.no_object (λ entries same. cc (same))
  Explains-read_event (number shown zero) = Raises.no_object (λ entries same. cc (same))
  Explains-read_event (text t) = Raises.no_object (λ entries same. cc (same))
  Explains-read_event (array js) = Raises.no_object (λ entries same. cc (same))
  Explains-read_event (object entries) = Explains-object (object entries) entries refl
