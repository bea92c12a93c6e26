-- ===== src/Shared/Logging/Lines.antt =====
-- What a line of the log says under each key, case by case.
use mathlib.Core.List.{Memᴰ}
use notifyfork.Common.{
  String, code, ◌≡◌, ◌≢◌, ◌⊎◌, refl, sym, subst, true, false, Option, none, some, List, [], ◌∷◌,
  any, Bool-cases, Option-cases, inl, inr, ◌==◌, eq_iff, nat_eq, nat_eq_iff,
}
use notifyfork.Python.Dict.{Dict, get}
use notifyfork.Python.Result.{ok}
use notifyfork.Python.Text.{starts_with}
use notifyfork.Shared.Logging.{LogRecord, Library, is_extra, standard_fields, format}
use notifyfork.Shared.Logging.Laws.{or_else, HasKeysOnce, exception_at, extra_at, get-format}

-- The name begins with an underscore.
abbrev pub IsPrivate : String → Type 0
IsPrivate String.[] = ⊥
IsPrivate (String.◌∷◌ c rest) = code c ≡ b'_'

-- The name is none of the reserved ones, and not private.
abbrev pub IsExtra : List String → String → Type 0
IsExtra reserved k = ¬ Memᴰ k reserved × ¬ IsPrivate k

any_cases :
    (words : List String) (k : String)
    → (Memᴰ k words × (any (λ r. r == k) words ≡ true))
      ⊎ (¬ Memᴰ k words × (any (λ r. r == k) words ≡ false))
any_cases [] k = inr ((λ m. elim m [ ]), refl)
any_cases (w ∷ words) k = elim (Bool-cases (w == k)) [
  | inl same ↦ inl (Memᴰ.head (sym ((eq_iff w k).0 same)), rw same)
  | inr other ↦ elim (any_cases words k) [
    | inl (m, found) ↦ inl (Memᴰ.tail m, rw (other, found))
    | inr (absent, missed) ↦ inr (
      (λ m. elim m [
        | Memᴰ.head same ↦ cc ((eq_iff w k).1 (sym same), other)
        | Memᴰ.tail later ↦ absent later
      ]),
      rw (other, missed),
    )
  ]
]

IsPrivate-cases :
    (k : String)
    → (IsPrivate k × (starts_with "_" k ≡ true)) ⊎ (¬ IsPrivate k × (starts_with "_" k ≡ false))
unfolding starts_with
IsPrivate-cases String.[] = inr ((λ h. h), refl)
IsPrivate-cases (String.◌∷◌ c rest) = elim (Bool-cases (nat_eq b'_' (code c))) [
  | inl same ↦ inl (sym ((nat_eq_iff b'_' (code c)).0 same), rw same)
  | inr other ↦ inr ((λ h. cc ((nat_eq_iff b'_' (code c)).1 (sym h), other)), rw other)
]

IsExtra-cases :
    (reserved : List String) (k : String)
    → (IsExtra reserved k × (is_extra reserved k ≡ true))
      ⊎ (¬ IsExtra reserved k × (is_extra reserved k ≡ false))
unfolding is_extra
IsExtra-cases reserved k = elim (any_cases reserved k) [
  | inl (m, found) ↦ inr ((λ h. h.0 m), rw found)
  | inr (absent, missed) ↦ elim (IsPrivate-cases k) [
    | inl (hidden, starts) ↦ inr ((λ h. h.1 hidden), rw (missed, starts))
    | inr (shown, starts) ↦ inl ((absent, shown), rw (missed, starts))
  ]
]

module _ {V Exc : Type 0} (library : Library V Exc) (message : String) (record_ : LogRecord V Exc)
    (k : String) where
  -- The field of every line with the key, if the key is of one.
  pub data Standard : Option V → Type 0 where
    severity : k ≡ "severity" → Standard (some (library.text record_.levelname))
    message_text : k ≡ "message" → Standard (some (library.text message))
    logger : k ≡ "logger" → Standard (some (library.text record_.name))
    timestamp : k ≡ "timestamp" → Standard (some (library.text (library.format_time record_)))
    other_key : k ≢ "severity" → k ≢ "message" → k ≢ "logger" → k ≢ "timestamp" → Standard none

  -- What the dictionary has under the key.
  pub data Logged : Option V → Type 0 where
    traceback :
        (exc_info : Exc)
        → k ≡ "exception"
        → record_.exc_info ≡ some exc_info
        → Logged (some (library.text (library.format_exception exc_info)))
    extra :
        (v : V)
        → (k ≢ "exception") ⊎ (record_.exc_info ≡ none)
        → IsExtra library.reserved_record_attrs k
        → get k record_.attributes ≡ some v
        → Logged (some v)
    standard :
        {o : Option V}
        → (k ≢ "exception") ⊎ (record_.exc_info ≡ none)
        → ¬ IsExtra library.reserved_record_attrs k ⊎ (get k record_.attributes ≡ none)
        → Standard o
        → Logged o

  get-Standard : Standard (get k (standard_fields library message record_))
  unfolding standard_fields get
  get-Standard = elim (Bool-cases ("severity" == k)) [
    | inl a ↦ rw a (Standard.severity (sym ((eq_iff "severity" k).0 a)))
    | inr a ↦ elim (Bool-cases ("message" == k)) [
      | inl b ↦ rw (a, b) (Standard.message_text (sym ((eq_iff "message" k).0 b)))
      | inr b ↦ elim (Bool-cases ("logger" == k)) [
        | inl c ↦ rw (a, b, c) (Standard.logger (sym ((eq_iff "logger" k).0 c)))
        | inr c ↦ elim (Bool-cases ("timestamp" == k)) [
          | inl d ↦ rw (a, b, c, d) (Standard.timestamp (sym ((eq_iff "timestamp" k).0 d)))
          | inr d ↦
              rw (a, b, c, d)
                (Standard.other_key (λ e. cc ((eq_iff "severity" k).1 (sym e), a))
                  (λ e. cc ((eq_iff "message" k).1 (sym e), b))
                  (λ e. cc ((eq_iff "logger" k).1 (sym e), c))
                  (λ e. cc ((eq_iff "timestamp" k).1 (sym e), d)))
        ]
      ]
    ]
  ]

  Logged-standard :
      (k ≢ "exception") ⊎ (record_.exc_info ≡ none)
      → Logged
          (or_else (extra_at library k record_) (get k (standard_fields library message record_)))
  Logged-standard none_raised = elim (IsExtra-cases library.reserved_record_attrs k) [
    | inr (hidden, test) ↦ rw test (Logged.standard none_raised (inl hidden) get-Standard)
    | inl (shown, test) ↦ elim (Option-cases (get k record_.attributes)) [
      | inl absent ↦ rw (test, absent) (Logged.standard none_raised (inr absent) get-Standard)
      | inr (v, present) ↦ rw (test, present) (Logged.extra v none_raised shown present)
    ]
  ]

  Logged-or_else :
      (o : Option Exc)
      → record_.exc_info ≡ o
      → Logged (
          or_else (exception_at library k o) (
            or_else (extra_at library k record_) (get k (standard_fields library message record_))))
  Logged-or_else none absent = Logged-standard (inr absent)
  Logged-or_else (some exc_info) present = elim (Bool-cases ("exception" == k)) [
    | inl same ↦ rw same (Logged.traceback exc_info (sym ((eq_iff "exception" k).0 same)) present)
    | inr other ↦
        rw other (Logged-standard (inl (λ e. cc ((eq_iff "exception" k).1 (sym e), other))))
  ]

module _ {V Exc : Type 0} (library : Library V Exc) where
  -- A line of the log is the dump of a dictionary that has under each key the formatted exception,
  -- if the record has one and the key is `exception`; or else the record's attribute of that name,
  -- if it is none of the reserved ones and does not begin with an underscore; or else the level under
  -- `severity`, the message under `message`, the logger's name under `logger` and the formatted time
  -- under `timestamp`, and nothing under any other key. The record's attributes have each name once,
  -- and its message can be formed.
  pub format_lem :
      (record_ : LogRecord V Exc) (message : String)
      → HasKeysOnce record_.attributes
      → record_.get_message ≡ ok message
      → (log : Dict V) × (format library record_ ≡ library.dumps log)
        × ((k : String) → Logged library message record_ k (get k log))
  format_lem record_ message once formed =
      let (log, dumped, at) = get-format library record_ message once formed in
      (
        log,
        dumped,
        λ k.
            subst (Logged library message record_ k) (sym (at k))
              (Logged-or_else library message record_ k record_.exc_info refl),
      )
