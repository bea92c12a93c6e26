-- ===== src/Webhooks/SendGrid/Laws.antt =====
-- What a POST of SendGrid queues.
use mathlib.Core.List.{append_assoc, append-nil}
use notifyfork.Common.{
  ℕ, ◌+◌, ◌≡◌, refl, sym, ap, ap₂, ◌∙◌, Option, none, some, List, [], ◌∷◌, ◌++◌, length, arith,
}
use notifyfork.Python.Json.{Json}
use notifyfork.Python.Result.{Error, Result, ok, err}
use notifyfork.Python.Template.{Str}
use notifyfork.Application.Interfaces.Database.{Orm}
use notifyfork.Webhooks.Delivery.{UuidText, Update}
use notifyfork.Webhooks.Answer.{Answer, accepted}
use notifyfork.Webhooks.SendGrid.Events.{Reports, PassedOver, Raises, Explains, Explains-read_event}
use notifyfork.Webhooks.SendGrid.{read_event, queue_events}

module _ ⦃j : Str Json⦄ {V DB : Type 0} (orm : Orm V DB) (uuids : UuidText) (db : DB) where
  -- How a batch goes: each event adds its report, or is passed over, up to the end or to the first
  -- event that raises.
  pub data Selects : List Json → List Update → Option Error → Type 0 where
    finish : Selects [] [] none
    stop :
        {event : Json} {es : List Json} {e : Error}
        → Raises orm uuids db event e
        → Selects (event ∷ es) [] (some e)
    skip :
        {event : Json} {es : List Json} {us : List Update} {o : Option Error}
        → PassedOver orm uuids db event
        → Selects es us o
        → Selects (event ∷ es) us o
    keep :
        {event : Json} {es : List Json} {u : Update} {us : List Update} {o : Option Error}
        → Reports orm uuids db event u
        → Selects es us o
        → Selects (event ∷ es) (u ∷ us) o

  -- What the view answers after a batch that counted `n` updates.
  abbrev pub answer_after : Option Error → ℕ → Result Answer
  answer_after none n = ok (accepted n)
  answer_after (some e) n = err e

  Batch : List Json → ℕ → List Update → Type 0
  Batch es queued queue =
      (us : List Update) × (o : Option Error) × Selects es us o
      × (queue_events orm uuids es db queued queue
          ≡ (answer_after o (queued + length us), queue ++ us))

  Batch-step :
      (event : Json) (es : List Json) (queued : ℕ) (queue : List Update)
      (r : Result (Option Update))
      → read_event orm uuids event db ≡ r
      → Explains orm uuids db event r
      → ((n : ℕ) (q : List Update) → Batch es n q)
      → Batch (event ∷ es) queued queue
  unfolding Batch queue_events
  Batch-step event es queued queue (err e) same why ih = (
    [],
    some e,
    Selects.stop why,
    rw (same, queue_events) (ap (λ q. (err e, q)) (sym (append-nil queue))),
  )
  Batch-step event es queued queue (ok none) same why ih =
      let (us, o, picked, done) = ih queued queue in
      (us, o, Selects.skip why picked, rw (same, queue_events) done)
  Batch-step event es queued queue (ok (some u)) same why ih =
      let (us, o, picked, done) = ih (queued + 1) (queue ++ u ∷ []) in
      (
        u ∷ us,
        o,
        Selects.keep why picked,
        rw (same, queue_events)
            (done
              ∙ ap₂ (λ n q. (answer_after o n, q)) (omega arith) (append_assoc queue (u ∷ []) us)),
      )

  Batch-all : (es : List Json) (queued : ℕ) (queue : List Update) → Batch es queued queue
  unfolding Batch queue_events
  Batch-all [] queued queue = (
    [],
    none,
    Selects.finish,
    ap₂ (λ n q. (ok (accepted n), q)) (omega arith) (sym (append-nil queue)),
  )
  Batch-all (event ∷ es) queued queue =
      Batch-step event es queued queue (read_event orm uuids event db) refl
        (Explains-read_event orm uuids db event) (Batch-all es)

  -- A batch adds to the queue, in the events' order, one update for each event that reports on a
  -- stored notification: the notification is the one sent as the event's message, and the outcome
  -- and the reason are the event's. The answer counts them, or is the exception of the first event
  -- that raises; what was queued before it stays queued.
  pub queue_events-Selects :
      (es : List Json) (queue : List Update)
      → (us : List Update) × (o : Option Error) × Selects es us o
        × (queue_events orm uuids es db 0 queue ≡ (answer_after o (length us), queue ++ us))
  unfolding Batch
  queue_events-Selects es queue =
      let (us, o, picked, done) = Batch-all es 0 queue in
      (us, o, picked, done ∙ ap (λ n. (answer_after o n, queue ++ us)) (omega arith))
