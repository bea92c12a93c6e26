-- ===== src/Infrastructure/Repository/Laws.antt =====
-- What a saved notification reads back as.
use notifyfork.Common.{
  nat_eq, if-eq_of_ne, if◌then◌else◌, ℕ, ◌≡◌, ◌≢◌, refl, ap, subst, ◌∙◌, Option, none, some,
}
use notifyfork.Python.Result.{ok}
use notifyfork.Domain.Notification.{Notification}
use notifyfork.Domain.Notification.Status.{status_of_value-status_value}
use notifyfork.Application.Interfaces.Database.{
  NotificationRow, Defaults, Orm, OrmLaws, row_of, written,
}
use notifyfork.Infrastructure.Repository.{defaults_of, to_entity, optional_entity, save, get_by_id}

module _ {V : Type 0} where
  -- The columns that `save` leaves to the row that is there, or to the ORM.
  abbrev pub created_column : ℕ → Option (NotificationRow V) → ℕ
  created_column now none = now
  created_column now (some r) = r.created_at

  abbrev pub delivered_column : Option (NotificationRow V) → Option ℕ
  delivered_column none = none
  delivered_column (some r) = r.delivered_at

  written-eq-row_of :
      (i : ℕ) (d : Defaults V) (now : ℕ) (old : Option (NotificationRow V))
      → written i d now old ≡ row_of i d (created_column now old) (delivered_column old)
  written-eq-row_of i d now none = refl
  written-eq-row_of i d now (some r) = refl

  to_entity-row_of :
      (n : Notification V) (created_at : ℕ) (delivered_at : Option ℕ)
      → to_entity (row_of n.id (defaults_of n) created_at delivered_at)
        ≡ ok (record n { created_at = created_at; delivered_at = none })
  unfolding to_entity defaults_of
  to_entity-row_of n created_at delivered_at = rw (status_of_value-status_value n.status)

module _ {V DB : Type 0} (orm : Orm V DB) (laws : OrmLaws orm) where
  -- The row of a notification after it is saved: every column of the entity but `created_at`, which
  -- the database keeps or sets itself, and `delivered_at`, which `save` does not write.
  pub aget-save :
      (n : Notification V) (now : ℕ) (db db' : DB)
      → save orm n now db ≡ ok db'
      → orm.aget n.id db'
        ≡ some (
            row_of n.id
              (defaults_of n)
              (created_column now (orm.aget n.id db))
              (delivered_column (orm.aget n.id db)))
  unfolding save
  aget-save n now db db' h =
      laws.aget-aupdate_or_create n.id (defaults_of n) now db db' h
      ∙ ap some (written-eq-row_of n.id (defaults_of n) now (orm.aget n.id db))

  pub aget-save_ne :
      (n : Notification V) (j now : ℕ) (db db' : DB)
      → save orm n now db ≡ ok db'
      → j ≢ n.id
      → orm.aget j db' ≡ orm.aget j db
  unfolding save
  aget-save_ne n j now db db' h ne =
      laws.aget-aupdate_or_create_ne n.id j (defaults_of n) now db db' h ne

  -- The same at an id that is equal to the entity's.
  pub aget-save_at :
      (n : Notification V) (i now : ℕ) (db db' : DB)
      → n.id ≡ i
      → save orm n now db ≡ ok db'
      → (orm.aget i db'
          ≡ some (
              row_of i
                (defaults_of n)
                (created_column now (orm.aget i db))
                (delivered_column (orm.aget i db))))
        × ((j : ℕ) → j ≢ i → orm.aget j db' ≡ orm.aget j db)
  aget-save_at n i now db db' e h =
      subst
        (λ k.
          (orm.aget k db'
            ≡ some (
                row_of k (defaults_of n) (created_column now (orm.aget k db))
                  (delivered_column (orm.aget k db))))
          × ((j : ℕ) → j ≢ k → orm.aget j db' ≡ orm.aget j db))
        e (aget-save n now db db' h, λ j ne. aget-save_ne n j now db db' h ne)

  -- Reading after a `save` that succeeded: the notification that was saved, but for `created_at` (the database's) and
  -- `delivered_at` (lost), and every other one as before.
  pub get_by_id-save :
      (n : Notification V) (j now : ℕ) (db db' : DB)
      → save orm n now db ≡ ok db'
      → get_by_id orm j db' ≡ (
          if nat_eq j n.id
          then ok (
              some (record n {
                created_at = created_column now (orm.aget n.id db);
                delivered_at = none;
              }))
          else get_by_id orm j db)
  get_by_id-save n j now db db' h =
      if-eq_of_ne (λ k. get_by_id orm k db') (λ k. get_by_id orm k db) n.id j _
        (unfold get_by_id in rw (aget-save n now db db' h, optional_entity, to_entity-row_of))
        (λ ne. unfold get_by_id in ap optional_entity (aget-save_ne n j now db db' h ne))
