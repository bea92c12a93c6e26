-- ===== src/Infrastructure/Seeds/Laws.antt =====
-- What the seed migration does to the table of templates, there and back.
use notifyfork.Common.{
  String, ◌≡◌, refl, sym, ◌∙◌, false, Option, none, some, List, [], ◌∷◌, any, map, if◌then◌else◌,
  ◌==◌, Bool-cases, inl, inr,
}
use notifyfork.Application.Interfaces.Database.{TemplateRow}
use notifyfork.Infrastructure.Seeds.{
  templates, TemplateOrm, or_row, TemplateLaws, seed_all, seed_templates, unseed_templates,
}

-- The shipped template with an id.
abbrev pub shipped_as : String → List TemplateRow → Option TemplateRow
shipped_as i [] = none
shipped_as i (t ∷ ts) = if t.id == i then some t else shipped_as i ts

or_row_assoc : (a b c : Option TemplateRow) → or_row (or_row a b) c ≡ or_row a (or_row b c)
or_row_assoc none b c = refl
or_row_assoc (some a) b c = refl

or_row_same : (a b : Option TemplateRow) → or_row (or_row a b) b ≡ or_row a b
or_row_same none none = refl
or_row_same none (some b) = refl
or_row_same (some a) b = refl

or_row-none : (a : Option TemplateRow) → or_row a none ≡ a
or_row-none none = refl
or_row-none (some a) = refl

-- An id that is not among those of the templates is shipped as none.
shipped_as-none :
    (i : String) (ts : List TemplateRow)
    → any (λ k. k == i) (map (λ (t : TemplateRow). t.id) ts) ≡ false
    → shipped_as i ts ≡ none
shipped_as-none i [] h = refl
shipped_as-none i (t ∷ ts) h = elim (Bool-cases (t.id == i)) [
  | inl same ↦ cc (rw same at h)
  | inr other ↦ rw other (shipped_as-none i ts (rw other at h))
]

module _ {DB : Type 0} (orm : TemplateOrm DB) (laws : TemplateLaws orm) where
  find-seed_all :
      (ts : List TemplateRow) (i : String) (db : DB)
      → orm.find i (seed_all orm ts db) ≡ or_row (orm.find i db) (shipped_as i ts)
  unfolding seed_all
  find-seed_all [] i db = sym (or_row-none (orm.find i db))
  find-seed_all (t ∷ ts) i db =
      let later = find-seed_all ts i (orm.get_or_create t db) in
      let first = laws.find-get_or_create t i db in
      elim (Bool-cases (t.id == i)) [
        | inl same ↦
            later ∙ (rw (first, same) (or_row_assoc (orm.find i db) (some t) (shipped_as i ts)))
        | inr other ↦ later ∙ (rw (first, other) refl)
      ]

  -- The migration creates each shipped template that is missing and leaves every other row as it
  -- is, an edited one included; a second run changes nothing. Undoing it removes the rows with the
  -- shipped ids, edited or not, and no other.
  pub seed_templates_lem :
      (i : String) (db : DB)
      → (orm.find i (seed_templates orm db) ≡ or_row (orm.find i db) (shipped_as i templates))
        × (orm.find i (seed_templates orm (seed_templates orm db))
            ≡ orm.find i (seed_templates orm db))
        × (orm.find i (unseed_templates orm (seed_templates orm db)) ≡ (
            if any (λ k. k == i) (map (λ (t : TemplateRow). t.id) templates)
            then none
            else orm.find i db))
  unfolding seed_templates unseed_templates
  seed_templates_lem i db =
      let seeded = find-seed_all templates i db in
      let twice = find-seed_all templates i (seed_all orm templates db) in
      let ids = map (λ (t : TemplateRow). t.id) templates in
      (
        seeded,
        twice ∙ (rw seeded (or_row_same (orm.find i db) (shipped_as i templates))),
        laws.find-delete_in ids i (seed_all orm templates db)
            ∙ elim (Bool-cases (any (λ k. k == i) ids)) [
              | inl known ↦ rw known refl
              | inr other ↦
                  rw other (
                    seeded ∙ (rw (shipped_as-none i templates other) (or_row-none (orm.find i db))))
            ],
      )
