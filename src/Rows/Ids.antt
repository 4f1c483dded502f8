-- ===== src/Rows/Ids.antt =====
-- Ids of rows, and keys that are compared.
use jobs_scraper.Prelude.{
  ℕ, ◌<◌, ◌≡◌, refl, ap, inl, inr, Bool, true, false, Bool-cases, Option, none, some, List, [], ◌∷◌,
  map, keep, All, arith,
}
use jobs_scraper.Prelude.Keys.{Eq, nat_eq, member, Distinct}
use jobs_scraper.Rows.{Row, is_owned, first_row, set_rows, same_key}

abbrev pub row_id : {A : Type 0} → Row A → ℕ
row_id row = row.id

module _ {A : Type 0} where
  pub first_row-none :
      (p : Row A → Bool) (rows : List (Row A))
      → first_row p rows ≡ none
      → All (λ r. p r ≡ false) rows
  first_row-none p [] h = tt
  first_row-none p (row ∷ rows) h = elim (Bool-cases (p row)) [
    | inl hit ↦ absurd (no_none (rw hit at h))
    | inr miss ↦ (miss, first_row-none p rows (rw miss at h))
  ]
    where
      no_none : some row ≡ none → ⊥
      no_none e = ground arith

  pub set_rows-ids :
      (p : Row A → Bool) (a : A) (rows : List (Row A))
      → map row_id (set_rows p a rows) ≡ map row_id rows
  set_rows-ids p a [] = refl
  set_rows-ids p a (row ∷ rows) = ground (arith, set_rows-ids p a rows)

  pub set_rows-below :
      (p : Row A → Bool) (a : A) (n : ℕ) (rows : List (Row A))
      → All (λ r. r.id < n) rows
      → All (λ r. r.id < n) (set_rows p a rows)
  set_rows-below p a n [] h = tt
  set_rows-below p a n (row ∷ rows) h = (ground arith, set_rows-below p a n rows h.1)

  pub not_member-below :
      (n : ℕ) (rows : List (Row A)) → All (λ r. r.id < n) rows → member n (map row_id rows) ≡ false
  not_member-below n [] h = refl
  not_member-below n (row ∷ rows) h = ground (arith, not_member-below n rows h.1)

  not_member-keep :
      (n : ℕ) (p : Row A → Bool) (rows : List (Row A))
      → member n (map row_id rows) ≡ false
      → member n (map row_id (keep p rows)) ≡ false
  not_member-keep n p [] h = refl
  not_member-keep n p (row ∷ rows) h = ground (arith, not_member-keep n p rows)

  pub Distinct-keep :
      (p : Row A → Bool) (rows : List (Row A))
      → Distinct (map row_id rows)
      → Distinct (map row_id (keep p rows))
  Distinct-keep p [] d = tt
  Distinct-keep p (row ∷ rows) d = elim (Bool-cases (p row)) [
    | inl kept ↦ rw kept (not_member-keep row.id p rows d.0, Distinct-keep p rows d.1)
    | inr dropped ↦ rw dropped (Distinct-keep p rows d.1)
  ]

  -- Where no row has an id, setting the row with that id changes nothing.
  pub set_rows-absent :
      (owner id : ℕ) (a : A) (rows : List (Row A))
      → member id (map row_id rows) ≡ false
      → set_rows (is_owned owner id) a rows ≡ rows
  set_rows-absent owner id a [] h = refl
  set_rows-absent owner id a (row ∷ rows) h = ground (arith, set_rows-absent owner id a rows)

module _ {K : Type 0} ⦃e : Eq K⦄ where
  pub same_key-sym : (j k : Option K) → same_key j k ≡ same_key k j
  same_key-sym none none = refl
  same_key-sym none (some k) = refl
  same_key-sym (some j) none = refl
  same_key-sym (some j) (some k) = ground (arith, e.agrees j k, e.agrees k j)

  pub same_key→eq : (j k : Option K) → same_key j k ≡ true → j ≡ k
  same_key→eq none k h = absurd (ground arith)
  same_key→eq (some j) none h = absurd (ground arith)
  same_key→eq (some j) (some k) h = ap some ((e.agrees j k).0 h)
