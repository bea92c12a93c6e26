-- ===== src/Shared/Logging/Laws.antt =====
-- What a line of the log says under each key.
use notifyfork.Common.{
  String, ◌≡◌, ◌≢◌, refl, ap, ◌∙◌, Bool, Option, none, some, [], ◌∷◌, All, filter, Bool-cases, inl,
  inr, ◌==◌, eq_iff, if◌then◌else◌,
}
use notifyfork.Python.Dict.{Dict, get, put_all}
use notifyfork.Python.Dict.Laws.{get-put, get-put_all, last_get}
use notifyfork.Python.Result.{ok}
use notifyfork.Shared.Logging.{
  LogRecord, Library, is_extra, standard_fields, extras, with_exception, log_fields, format,
}

-- The first of two that is there.
abbrev pub or_else : {V : Type 0} → Option V → Option V → Option V
or_else none before = before
or_else (some v) before = some v

module _ {V : Type 0} where
  -- Each key once, as in a dictionary of Python.
  abbrev pub HasKeysOnce : Dict V → Type 0
  HasKeysOnce [] = Unit
  HasKeysOnce ((k, v) ∷ d) = All (λ (item : String × V). item.0 ≢ k) d × HasKeysOnce d

  module _ (allowed : String → Bool) (k : String) where
    abbrev allows : String × V → Bool
    allows item = allowed item.0

    last_get-absent :
        (d : Dict V) (before : Option V)
        → All (λ (item : String × V). item.0 ≢ k) d
        → last_get k (filter allows d) before ≡ before
    unfolding last_get
    last_get-absent [] before h = refl
    last_get-absent ((j, v) ∷ d) before (ne, h) = elim (Bool-cases (allowed j)) [
      | inr out ↦ rw out (last_get-absent d before h)
      | inl kept ↦ elim (Bool-cases (j == k)) [
        | inl same ↦ absurd (ne ((eq_iff j k).0 same))
        | inr other ↦ rw (kept, last_get, other) (last_get-absent d before h)
      ]
    ]

    -- Of a dictionary's items that a test on the keys lets through, the one with the key.
    pub last_get-filter :
        (d : Dict V) (before : Option V)
        → HasKeysOnce d
        → last_get k (filter allows d) before ≡ or_else (if allowed k then get k d else none) before
    unfolding last_get get
    last_get-filter [] before h = elim (Bool-cases (allowed k)) [
      | inl in_ ↦ rw in_
      | inr out ↦ rw out
    ]
    last_get-filter ((j, v) ∷ d) before (once, h) = elim (Bool-cases (j == k)) [
      | inl same ↦
          let e = (eq_iff j k).0 same in
          let absent = rw e at once in
          elim (Bool-cases (allowed k)) [
            | inl kept ↦
                rw (e, kept, last_get, (eq_iff k k).1 refl) (last_get-absent d (some v) absent)
            | inr out ↦ rw (e, out) (last_get-absent d before absent)
          ]
      | inr other ↦ elim (Bool-cases (allowed j)) [
        | inl kept ↦ rw (kept, last_get, other) (last_get-filter d before h)
        | inr out ↦ rw (out, other) (last_get-filter d before h)
      ]
    ]

module _ {V Exc : Type 0} (library : Library V Exc) where
  -- What the record's exception puts under the key.
  abbrev pub exception_at : String → Option Exc → Option V
  exception_at k none = none
  exception_at k (some exc_info) =
      if "exception" == k then some (library.text (library.format_exception exc_info)) else none

  -- What the attribute of the name puts under the key, unless every record has it or it is private.
  abbrev pub extra_at : String → LogRecord V Exc → Option V
  extra_at k record_ =
      if is_extra library.reserved_record_attrs k then get k record_.attributes else none

  with_exception_lem :
      (k : String) (exc_info : Option Exc) (log : Dict V)
      → get k (with_exception library exc_info log) ≡ or_else (exception_at k exc_info) (get k log)
  unfolding with_exception
  with_exception_lem k none log = refl
  with_exception_lem k (some exc_info) log =
      rw (get-put "exception" k (library.text (library.format_exception exc_info)) log)
        (elim (Bool-cases ("exception" == k)) [ inl same ↦ rw same | inr other ↦ rw other ])

  -- The dictionary of a line, by the three that it is put together from: the exception, the extras
  -- and the standard fields.
  pub get-format :
      (record_ : LogRecord V Exc) (message : String)
      → HasKeysOnce record_.attributes
      → record_.get_message ≡ ok message
      → (log : Dict V) × (format library record_ ≡ library.dumps log)
        × ((k : String)
            → get k log
              ≡ or_else
                  (exception_at k record_.exc_info)
                  (or_else (extra_at k record_) (get k (standard_fields library message record_))))
  unfolding format log_fields extras
  get-format record_ message once formed =
      let base = standard_fields library message record_ in
      let extra = extras library record_ in
      (
        log_fields library message record_,
        rw formed,
        λ k.
            with_exception_lem k record_.exc_info (put_all extra base)
            ∙ ap (or_else (exception_at k record_.exc_info)) (
                get-put_all k extra base
                ∙ last_get-filter (is_extra library.reserved_record_attrs) k record_.attributes
                    (get k base) once),
      )
