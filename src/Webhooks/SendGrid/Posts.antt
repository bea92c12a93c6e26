-- ===== src/Webhooks/SendGrid/Posts.antt =====
-- What a whole POST of SendGrid queues.
use notifyfork.Common.{
  none, some, sym, ◌≢◌, ◌∙◌, eq_iff, String, ◌≡◌, ◌⊎◌, refl, Bool, true, false, Option, List, ◌++◌,
  length, Bool-cases, inl, inr, ◌==◌,
}
use notifyfork.Python.Json.{
  Json, Items, null, boolean, number, text, array, object, no_fields, field, items_list,
}
use notifyfork.Python.Result.{
  ok-injective, Error, no_provider_available, template_not_found, provider_delivery, value_error,
  key_error, attribute_error, type_error, external, Result, ok, err,
}
use notifyfork.Python.Dict.{get_or}
use notifyfork.Python.Template.{Str}
use notifyfork.Application.Interfaces.Database.{Orm}
use notifyfork.Webhooks.Delivery.{UuidText, Update}
use notifyfork.Webhooks.Answer.{Answer}
use notifyfork.Webhooks.SendGrid.{
  Request, answers_true, signed_by_sendgrid, queue_all, queue_loaded, queue_parsed, post_events,
}
use notifyfork.Webhooks.SendGrid.Laws.{Selects, answer_after, queue_events-Selects}

answer_cases :
    (r : Result Bool)
    → ((r ≡ ok true) × (answers_true r ≡ true)) ⊎ ((r ≢ ok true) × (answers_true r ≡ false))
unfolding answers_true
answer_cases (ok true) = inl (refl, refl)
answer_cases (ok false) = inr ((λ e. cc (ok-injective _ _ e)), refl)
answer_cases (err e) = inr ((λ same. cc (same)), refl)

module _ ⦃j : Str Json⦄ {V DB : Type 0} (orm : Orm V DB) (uuids : UuidText) (db : DB) where
  -- Where no JSON could be read, the view answers 400 or raises.
  error_queues_nothing :
      (e : Error) (queue : List Update) → (queue_loaded orm uuids (err e) db queue).1 ≡ queue
  unfolding queue_loaded
  error_queues_nothing (no_provider_available x) queue = refl
  error_queues_nothing (template_not_found x) queue = refl
  error_queues_nothing (provider_delivery x y) queue = refl
  error_queues_nothing (value_error x) queue = refl
  error_queues_nothing (key_error x) queue = refl
  error_queues_nothing (attribute_error x) queue = refl
  error_queues_nothing (type_error x) queue = refl
  error_queues_nothing (external x) queue = refl

module _ ⦃j : Str Json⦄ {V DB : Type 0} (orm : Orm V DB) (uuids : UuidText)
    (verify : String → String → String → String → Result Bool) (key : Option String)
    (request : Request) (db : DB) where
  -- The request is signed with the key; without a key every request counts as signed.
  abbrev pub IsSigned : Option String → Type 0
  IsSigned none = Unit
  IsSigned (some key) =
      (key ≡ "")
      ⊎ (verify key request.raw (get_or request.signature "") (get_or request.timestamp "")
          ≡ ok true)

  -- The array of events: as DRF parses the body, or, where that gives something else than an array,
  -- as `json.loads` reads it.
  abbrev pub Gives : Items → Type 0
  Gives js =
      (request.parsed ≡ ok (array js))
      ⊎ ((j : Json) × (request.parsed ≡ ok j)
          × ((is : Items) → j ≢ array is)
          × (request.loaded ≡ ok (array js)))

  -- What a POST does to the queue: with a signature and an array, what the events say; or else
  -- nothing.
  abbrev pub Batches : List Update → Result Answer × List Update → Type 0
  Batches queue r =
      (IsSigned key
        × ((js : Items) × (us : List Update) × (o : Option Error) × Gives js
            × Selects orm uuids db (items_list js) us o
            × (r ≡ (answer_after orm uuids db o (length us), queue ++ us))))
      ⊎ (¬ (IsSigned key × ((js : Items) × Gives js)) × (r.1 ≡ queue))

  IsSigned-cases :
      (key : Option String)
      → (IsSigned key × (signed_by_sendgrid verify key request ≡ true))
        ⊎ (¬ IsSigned key × (signed_by_sendgrid verify key request ≡ false))
  unfolding signed_by_sendgrid answers_true
  IsSigned-cases none = inl (tt, refl)
  IsSigned-cases (some k) = elim (Bool-cases (k == "")) [
    | inl empty ↦ inl (inl ((eq_iff k "").0 empty), rw empty)
    | inr given ↦
        elim (answer_cases
          (verify k request.raw (get_or request.signature "") (get_or request.timestamp ""))) [
            | inl (good, answer) ↦ inl (inr good, rw (given, good))
            | inr (bad, answer) ↦ inr (
              (λ h. elim h [ inl e ↦ cc ((eq_iff k "").1 e, given) | inr good ↦ bad good ]),
              rw given answer,
            )
          ]
  ]

  module _ (signed : IsSigned key) (queue : List Update) where
    by_array : (js : Items) → Gives js → Batches queue (queue_all orm uuids (array js) db queue)
    unfolding queue_all
    by_array js read =
        let (us, o, picked, done) = queue_events-Selects orm uuids db (items_list js) queue in
        inl (signed, (js, us, o, read, picked, done))

    -- The body is no array, as DRF parses it.
    module _ (other : Json) (parsed : request.parsed ≡ ok other)
        (no_array : (is : Items) → other ≢ array is) where
      nothing :
          (loaded : Result Json)
          → request.loaded ≡ loaded
          → ((is : Items) → loaded ≢ ok (array is))
          → (r : Result Answer × List Update) → r.1 ≡ queue
          → Batches queue r
      nothing loaded read odd r same = inr (
        (λ h. elim h.1.1 [
          | inl early ↦ no_array h.1.0 (ok-injective _ _ (sym parsed ∙ early))
          | inr (j', parsed', odd', late) ↦ odd h.1.0 (sym read ∙ late)
        ]),
        same,
      )

      by_events :
          (events : Json)
          → request.loaded ≡ ok events
          → Batches queue (queue_all orm uuids events db queue)
      unfolding queue_all
      by_events null read = nothing (ok null) read (λ is e. cc (e)) _ refl
      by_events (boolean x) read = nothing (ok (boolean x)) read (λ is e. cc (e)) _ refl
      by_events (number x y) read = nothing (ok (number x y)) read (λ is e. cc (e)) _ refl
      by_events (text t) read =
          nothing (ok (text t)) read (λ is e. cc (e)) _
            (elim (Bool-cases (t == "")) [ inl empty ↦ rw empty | inr given ↦ rw given ])
      by_events (array js) read = by_array js (inr (other, parsed, no_array, read))
      by_events (object no_fields) read =
          nothing (ok (object no_fields)) read (λ is e. cc (e)) _ refl
      by_events (object (field k v fs)) read =
          nothing (ok (object (field k v fs))) read (λ is e. cc (e)) _ refl

      by_loaded :
          (loaded : Result Json)
          → request.loaded ≡ loaded
          → Batches queue (queue_loaded orm uuids loaded db queue)
      unfolding queue_loaded
      by_loaded (ok events) read = by_events events read
      by_loaded (err e) read =
          nothing (err e) read (λ is e. cc (e)) _ (error_queues_nothing orm uuids db e queue)

    by_parsed :
        (parsed : Result Json)
        → request.parsed ≡ parsed
        → Batches queue (queue_parsed orm uuids parsed request.loaded db queue)
    unfolding queue_parsed
    by_parsed (err e) read = inr (
      (λ h. elim h.1.1 [
        | inl early ↦ cc (read, early)
        | inr (j', parsed', odd', late) ↦ cc (read, parsed')
      ]),
      error_queues_nothing orm uuids db e queue,
    )
    by_parsed (ok (array js)) read = by_array js (inl read)
    by_parsed (ok null) read = by_loaded null read (λ is e. cc (e)) request.loaded refl
    by_parsed (ok (boolean x)) read =
        by_loaded (boolean x) read (λ is e. cc (e)) request.loaded refl
    by_parsed (ok (number x y)) read =
        by_loaded (number x y) read (λ is e. cc (e)) request.loaded refl
    by_parsed (ok (text x)) read = by_loaded (text x) read (λ is e. cc (e)) request.loaded refl
    by_parsed (ok (object x)) read = by_loaded (object x) read (λ is e. cc (e)) request.loaded refl

  post_signed :
      (queue : List Update)
      → signed_by_sendgrid verify key request ≡ true
      → post_events orm uuids verify key request db queue
        ≡ queue_parsed orm uuids request.parsed request.loaded db queue
  unfolding post_events
  post_signed queue signed = rw signed

  post_forged :
      (queue : List Update)
      → signed_by_sendgrid verify key request ≡ false
      → (post_events orm uuids verify key request db queue).1 ≡ queue
  unfolding post_events
  post_forged queue forged = rw forged

  -- A POST of SendGrid that is signed and gives an array of events adds to the queue, in the order
  -- of the events, one update for each event of type delivered, bounce, dropped or spamreport that
  -- names the message of a stored notification: for that notification, DELIVERED for the first type
  -- only, with the event's reason. It passes over an event of another type or of an unknown message,
  -- and no other. It answers with the number of updates, or raises at the first event that is no
  -- object, has a type or a message that is no text, or names the message of several notifications;
  -- what was queued before it stays queued. Any other POST leaves the queue as it was.
  pub post_events-Selects :
      (queue : List Update) → Batches queue (post_events orm uuids verify key request db queue)
  post_events-Selects queue = elim (IsSigned-cases key) [
    | inl (signed, true_) ↦
        rw (post_signed queue true_) (by_parsed signed queue request.parsed refl)
    | inr (forged, false_) ↦ inr ((λ h. forged h.0), post_forged queue false_)
  ]
