-- ===== src/Domain/Notification/Machine.antt =====
-- The state machine of a notification, under its methods called in any order.
use notifyfork.Common.{
  ℕ, zero, suc, ◌+◌, ◌≤◌, ◌<◌, String, ◌≡◌, ◌≢◌, not, Option, none, some, List, [], ◌∷◌, arith, leb,
  if◌then◌else◌,
}
use notifyfork.Domain.Notification.{
  pending, sent, delivered, delivery_failed, failed, retrying, Notification, mark_queued, mark_sent,
  mark_delivered, mark_delivery_failed, mark_failed, can_retry, is_terminal,
}

-- A call of one of the methods that change a notification.
pub data Call : Type 0 where
  queue : Call
  send : String → Option String → ℕ → Call
  deliver : ℕ → Call
  fail_delivery : String → Call
  fail : String → Call

module _ {V : Type 0} where
  unfoldable pub call : Call → Notification V → Notification V
  unfolding mark_queued mark_sent mark_delivered mark_delivery_failed mark_failed
  call queue n = mark_queued n
  call (send provider message_id now) n = mark_sent provider message_id now n
  call (deliver now) n = mark_delivered now n
  call (fail_delivery reason) n = mark_delivery_failed reason n
  call (fail reason) n = mark_failed reason n

  unfoldable pub calls : List Call → Notification V → Notification V
  calls [] n = n
  calls (c ∷ cs) n = calls cs (call c n)

  -- What each status promises about the other fields.
  pub record IsConsistent (n : Notification V) : Type 0 where
    pub sent_by : n.status ≡ sent → (n.provider_used ≢ none) × (n.sent_at ≢ none)
    pub delivered_when : n.status ≡ delivered → n.delivered_at ≢ none
    pub refused_why : n.status ≡ delivery_failed → n.error_detail ≢ none
    pub failed_why : n.status ≡ failed → n.error_detail ≢ none
    pub retrying_why : n.status ≡ retrying → n.error_detail ≢ none
    pub exhausted : n.status ≡ failed → n.max_attempts ≤ n.attempts
    pub unexhausted : n.status ≡ retrying → n.attempts < n.max_attempts

  -- The fields that no method changes.
  pub record SameRequest (n m : Notification V) : Type 0 where
    pub id : n.id ≡ m.id
    pub recipient : n.recipient ≡ m.recipient
    pub channel : n.channel ≡ m.channel
    pub notification_type : n.notification_type ≡ m.notification_type
    pub template_id : n.template_id ≡ m.template_id
    pub context : n.context ≡ m.context
    pub max_attempts : n.max_attempts ≡ m.max_attempts
    pub created_at : n.created_at ≡ m.created_at

  call-IsConsistent : (c : Call) (n : Notification V) → IsConsistent n → IsConsistent (call c n)
  unfolding call
  call-IsConsistent queue n h = ground arith
  call-IsConsistent _ n h = ground arith

  call-SameRequest : (c : Call) (n : Notification V) → SameRequest n (call c n)
  unfolding call
  call-SameRequest queue n = ground arith
  call-SameRequest _ n = ground arith

  calls-IsConsistent :
      (cs : List Call) (n : Notification V) → IsConsistent n → IsConsistent (calls cs n)
  unfolding calls
  calls-IsConsistent [] n h = h
  calls-IsConsistent (c ∷ cs) n h = calls-IsConsistent cs (call c n) (call-IsConsistent c n h)

  SameRequest-trans : (n m k : Notification V) → SameRequest n m → SameRequest m k → SameRequest n k
  SameRequest-trans n m k a b = ground arith

  calls-SameRequest : (cs : List Call) (n : Notification V) → SameRequest n (calls cs n)
  unfolding calls
  calls-SameRequest [] n = ground arith
  calls-SameRequest (c ∷ cs) n =
      SameRequest-trans n (call c n) (calls cs (call c n)) (call-SameRequest c n)
        (calls-SameRequest cs (call c n))

  -- From a pending notification, whatever methods are called in whatever order, the status agrees
  -- with the other fields, and the request that the notification carries stays what it was.
  pub calls_sound :
      (cs : List Call) (n : Notification V)
      → n.status ≡ pending
      → IsConsistent (calls cs n) × SameRequest n (calls cs n)
  calls_sound cs n fresh = (calls-IsConsistent cs n (ground arith), calls-SameRequest cs n)

  -- `mark_failed` called `k` times with the same reason.
  unfoldable pub fail_times : ℕ → String → Notification V → Notification V
  fail_times zero reason n = n
  fail_times (suc k) reason n = fail_times k reason (mark_failed reason n)

  pub record Exhausts (k : ℕ) (reason : String) (n m : Notification V) : Type 0 where
    pub attempts : m.attempts ≡ n.attempts + k
    pub status : m.status ≡ (if leb n.max_attempts (n.attempts + k) then failed else retrying)
    pub terminal : is_terminal m ≡ leb n.max_attempts (n.attempts + k)
    pub retryable : can_retry m ≡ not (is_terminal m)
    pub detail : m.error_detail ≡ some reason

  mark_failed_counts :
      (reason : String) (n : Notification V)
      → ((mark_failed reason n).attempts ≡ n.attempts + 1)
        × ((mark_failed reason n).max_attempts ≡ n.max_attempts)
  unfolding mark_failed
  mark_failed_counts reason n = ground arith

  Exhausts-mark_failed :
      (k : ℕ) (reason : String) (n m : Notification V)
      → Exhausts (suc k) reason (mark_failed reason n) m
      → Exhausts (suc (suc k)) reason n m
  Exhausts-mark_failed k reason n m h = ground (arith, mark_failed_counts reason n)

  -- After k + 1 failures the notification is FAILED exactly when its attempts have reached the
  -- limit, and RETRYING otherwise; it can be retried exactly when it is not terminal.
  pub fail_times-Exhausts :
      (k : ℕ) (reason : String) (n : Notification V)
      → Exhausts (suc k) reason n (fail_times (suc k) reason n)
  unfolding fail_times mark_failed is_terminal can_retry
  fail_times-Exhausts zero reason n = ground arith
  fail_times-Exhausts (suc k) reason n =
      Exhausts-mark_failed k reason n (fail_times (suc k) reason (mark_failed reason n))
        (fail_times-Exhausts k reason (mark_failed reason n))
