-- ===== src/Examples/Table.antt =====
-- A database in memory: two lists of rows, the notifications under different ids.
use mathlib.Core.List.{Memᴰ}
use notifyfork.Common.{
  All-of_mem, ℕ, String, ◌≡◌, ◌≢◌, ◌⊎◌, refl, ap, Bool, true, false, Option, none, some, List, [],
  ◌∷◌, filter, arith, nat_eq, nat_eq_iff, ◌==◌, eq_iff, if◌then◌else◌, Bool-cases, inl, inr, ◌&&◌,
}
use notifyfork.Python.Result.{Result, ok, err}
use notifyfork.Application.Interfaces.Database.{
  NotificationRow, TemplateRow, Defaults, Found, does_not_exist, found, multiple_objects, Orm,
  OrmLaws, written,
}
use notifyfork.Examples.Take.{take, length-take, All-take, take_complete}

module _ {V : Type 0} where
  abbrev pub find : ℕ → List (NotificationRow V) → Option (NotificationRow V)
  find i [] = none
  find i (r ∷ rs) = if nat_eq r.id i then some r else find i rs

  abbrev pub upsert : ℕ → Defaults V → ℕ → List (NotificationRow V) → List (NotificationRow V)
  upsert i d now [] = written i d now none ∷ []
  upsert i d now (r ∷ rs) =
      let rest = upsert i d now rs in
      if nat_eq r.id i then written i d now (some r) ∷ rs else r ∷ rest

  abbrev pub Unique : List (NotificationRow V) → Type 0
  Unique [] = Unit
  Unique (r ∷ rs) = (find r.id rs ≡ none) × Unique rs

  find-upsert :
      (i : ℕ) (d : Defaults V) (now : ℕ) (rs : List (NotificationRow V))
      → find i (upsert i d now rs) ≡ some (written i d now (find i rs))
  find-upsert i d now [] = ground arith
  find-upsert i d now (r ∷ rs) = ground (arith, find-upsert i d now rs)

  find-upsert_ne :
      (i j : ℕ) (d : Defaults V) (now : ℕ) (rs : List (NotificationRow V))
      → j ≢ i
      → find j (upsert i d now rs) ≡ find j rs
  find-upsert_ne i j d now [] ne = ground arith
  find-upsert_ne i j d now (r ∷ rs) ne = ground (arith, find-upsert_ne i j d now rs ne)

  pub Unique-upsert :
      (i : ℕ) (d : Defaults V) (now : ℕ) (rs : List (NotificationRow V))
      → Unique rs
      → Unique (upsert i d now rs)
  Unique-upsert i d now [] h = ground arith
  Unique-upsert i d now (r ∷ rs) (new, h) =
      ground (arith, Unique-upsert i d now rs h, find-upsert_ne i r.id d now rs)

  id-find :
      (i : ℕ) (rs : List (NotificationRow V)) (r : NotificationRow V)
      → find i rs ≡ some r
      → r.id ≡ i
  id-find i [] r e = cc
  id-find i (q ∷ rs) r e = ground (arith, id-find i rs r)

  mem-find :
      (i : ℕ) (rs : List (NotificationRow V)) (r : NotificationRow V)
      → find i rs ≡ some r
      → Memᴰ r rs
  mem-find i [] r e = cc
  mem-find i (q ∷ rs) r e = elim (Bool-cases (nat_eq q.id i)) [
    | inl same ↦ Memᴰ.head (ground arith)
    | inr other ↦ Memᴰ.tail (mem-find i rs r (ground arith))
  ]

  find-none :
      (i : ℕ) (rs : List (NotificationRow V)) (r : NotificationRow V)
      → find i rs ≡ none
      → Memᴰ r rs
      → r.id ≢ i
  find-none i [] r e m = elim m [ ]
  find-none i (q ∷ rs) r e (Memᴰ.head same) =
      λ p. ground (arith, ap (λ (t : NotificationRow V). t.id) same)
  find-none i (q ∷ rs) r e (Memᴰ.tail m) = find-none i rs r (ground arith) m

  find_of_mem :
      (rs : List (NotificationRow V)) (r : NotificationRow V)
      → Unique rs
      → Memᴰ r rs
      → find r.id rs ≡ some r
  find_of_mem [] r u m = elim m [ ]
  find_of_mem (q ∷ rs) r (new, u) (Memᴰ.head same) = rw same (rw ((nat_eq_iff q.id q.id).1 refl))
  find_of_mem (q ∷ rs) r (new, u) (Memᴰ.tail m) =
      let ne : r.id ≢ q.id = find-none q.id rs r new m in ground (arith, find_of_mem rs r u m)

abbrev pub pick_template : String → List TemplateRow → Option TemplateRow
pick_template t [] = none
pick_template t (r ∷ rs) = if (r.id == t) && r.is_active then some r else pick_template t rs

template_of_find :
    (t : String) (rs : List TemplateRow) (r : TemplateRow)
    → pick_template t rs ≡ some r
    → (r.id ≡ t) × (r.is_active ≡ true)
template_of_find t [] r e = cc
template_of_find t (q ∷ rs) r e = ground (arith, eq_iff q.id t, template_of_find t rs r)

abbrev pub text_is : String → Option String → Bool
text_is m none = false
text_is m (some k) = k == m

text_is_sound : (m : String) (o : Option String) → text_is m o ≡ true → o ≡ some m
text_is_sound m none h = cc
text_is_sound m (some k) h = ap some ((eq_iff k m).0 h)

pub record Table (V : Type 0) : Type 0 where
  pub rows : List (NotificationRow V)
  pub unique : Unique rows
  pub templates : List TemplateRow

module _ {V : Type 0} where
  abbrev pub message_is : String → NotificationRow V → Bool
  message_is m r = text_is m r.provider_message_id

  abbrev pub only : List (NotificationRow V) → Found V
  only [] = does_not_exist
  only (r ∷ []) = found r
  only (r ∷ q ∷ rs) = multiple_objects

  abbrev pub table_orm : Orm V (Table V)
  table_orm = record {
    aupdate_or_create = λ i d now db. ok (record {
      rows = upsert i d now db.rows;
      unique = Unique-upsert i d now db.rows db.unique;
      templates = db.templates;
    });
    aget = λ i db. find i db.rows;
    aget_message = λ m db. only (filter (message_is m) db.rows);
    filter_status = λ s limit db. take limit (filter (λ r. r.status == s) db.rows);
    aget_template = λ t db. pick_template t db.templates;
  }

  mem_cases :
      {r x : NotificationRow V} {xs : List (NotificationRow V)}
      → Memᴰ r (x ∷ xs)
      → (r ≡ x) ⊎ Memᴰ r xs
  mem_cases (Memᴰ.head same) = inl same
  mem_cases (Memᴰ.tail m) = inr m

  filter_mem :
      (p : NotificationRow V → Bool) (xs : List (NotificationRow V)) (r : NotificationRow V)
      → Memᴰ r (filter p xs)
      → (p r ≡ true) × Memᴰ r xs
  filter_mem p [] r m = elim m [ ]
  filter_mem p (x ∷ xs) r m = elim (Bool-cases (p x)) [
    | inl holds ↦ elim (mem_cases (rw holds at m)) [
      | inl same ↦ (rw same holds, Memᴰ.head same)
      | inr later ↦ let (h, k) = filter_mem p xs r later in (h, Memᴰ.tail k)
    ]
    | inr fails ↦ let (h, k) = filter_mem p xs r (rw fails at m) in (h, Memᴰ.tail k)
  ]

  mem_filter :
      (p : NotificationRow V → Bool) (xs : List (NotificationRow V)) (r : NotificationRow V)
      → p r ≡ true
      → Memᴰ r xs
      → Memᴰ r (filter p xs)
  mem_filter p [] r h m = elim m [ ]
  mem_filter p (x ∷ xs) r h (Memᴰ.head same) = rw (← same, h) (Memᴰ.head refl)
  mem_filter p (x ∷ xs) r h (Memᴰ.tail m) = elim (Bool-cases (p x)) [
    | inl holds ↦ rw holds (Memᴰ.tail (mem_filter p xs r h m))
    | inr fails ↦ rw fails (mem_filter p xs r h m)
  ]

  mem_of_only :
      (rs : List (NotificationRow V)) (r : NotificationRow V) → only rs ≡ found r → Memᴰ r rs
  mem_of_only [] r e = cc
  mem_of_only (q ∷ []) r e = Memᴰ.head (cc)
  mem_of_only (q ∷ q' ∷ rs) r e = cc

  or_table : Table V → Result (Table V) → Table V
  or_table db (ok t) = t
  or_table db (err e) = db

  rows-eq_of_ok : (db t t' : Table V) → ok t ≡ ok t' → t ≡ t'
  unfolding or_table
  rows-eq_of_ok db t t' e = ap (or_table db) e

  -- The table meets the laws of the ORM.
  pub table_laws : OrmLaws table_orm
  table_laws = record {
    aget-aupdate_or_create =
        λ i d now db db' e. rw (← rows-eq_of_ok db _ db' e) (find-upsert i d now db.rows);
    aget-aupdate_or_create_ne = λ i j d now db db' e ne.
        rw (← rows-eq_of_ok db _ db' e) (find-upsert_ne i j d now db.rows ne);
    aget_template-aupdate_or_create = λ i t d now db db' e. rw (← rows-eq_of_ok db _ db' e);
    aget_id = λ i db r e. id-find i db.rows r e;
    aget_message_found = λ m db r e.
        let (h, k) =
          filter_mem (message_is m) db.rows r (mem_of_only (filter (message_is m) db.rows) r e) in
        (text_is_sound m r.provider_message_id h, find_of_mem db.rows r db.unique k);
    filter_status_rows = λ s limit db. All-take _ limit (filter (λ r. r.status == s) db.rows) (
        All-of_mem _ (filter (λ r. r.status == s) db.rows) (λ r m.
          let (h, k) = filter_mem (λ q. q.status == s) db.rows r m in
          ((eq_iff r.status s).0 h, find_of_mem db.rows r db.unique k)));
    length-filter_status = λ s limit db. length-take limit (filter (λ r. r.status == s) db.rows);
    filter_status_complete = λ s limit db i r e h.
        take_complete limit r (filter (λ q. q.status == s) db.rows) (
          mem_filter (λ q. q.status == s) db.rows r ((eq_iff r.status s).1 h)
            (mem-find i db.rows r e));
    aget_template_active = λ t db r e. template_of_find t db.templates r e;
  }
