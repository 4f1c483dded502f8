-- ===== src/Rows/Owners.antt =====
-- Whose rows a statement touches.
use jobs_scraper.Prelude.{
  ℕ, ◌≡◌, ◌≢◌, ◌∙◌, refl, inl, inr, Bool, true, false, Bool-cases, not, ◌&&◌, Option, Option-cases,
  List, [], ◌∷◌, ◌++◌, append-nil, map, keep, ◌==◌ as nat_beq, arith,
}
use jobs_scraper.Prelude.Keys.{Eq, nat_eq, member, Distinct}
use jobs_scraper.Prelude.Text.{is_some}
use jobs_scraper.Rows.{
  Row, Rows, is_owned, first_row, set_rows, delete_row, clashes, upsert_row, update_row,
}
use jobs_scraper.Rows.Ids.{row_id}

module _ {A : Type 0} where
  abbrev pub rows_of : ℕ → Rows A → List (Row A)
  rows_of owner t = keep (λ r. nat_beq r.owner owner) t.rows

  pub keep-append :
      (p : Row A → Bool) (xs ys : List (Row A)) → keep p (xs ++ ys) ≡ keep p xs ++ keep p ys
  keep-append p [] ys = refl
  keep-append p (x ∷ xs) ys = ground (arith, keep-append p xs ys)

  pub keep-keep :
      (p q : Row A → Bool) (xs : List (Row A))
      → ((x : Row A) → p x ≡ true → q x ≡ true)
      → keep p (keep q xs) ≡ keep p xs
  keep-keep p q [] h = refl
  keep-keep p q (x ∷ xs) h = ground (arith, h x, keep-keep p q xs h)

  pub set_rows-others :
      (p : Row A → Bool) (a : A) (owner other : ℕ) (rows : List (Row A))
      → ((r : Row A) → p r ≡ true → r.owner ≡ owner)
      → other ≢ owner
      → keep (λ r. nat_beq r.owner other) (set_rows p a rows)
        ≡ keep (λ r. nat_beq r.owner other) rows
  set_rows-others p a owner other [] own ne = refl
  set_rows-others p a owner other (row ∷ rows) own ne =
      ground (arith, own row, set_rows-others p a owner other rows own ne)

  pub delete_row-others :
      (owner id other : ℕ) (t : Rows A)
      → other ≢ owner
      → rows_of other (delete_row owner id t).1 ≡ rows_of other t
  unfolding delete_row
  delete_row-others owner id other t ne =
      elim (Option-cases (first_row (is_owned owner id) t.rows)) [
        | inl missing ↦ rw (missing, delete_row) refl
        | inr (row, found) ↦
            rw (found, delete_row)
              (keep-keep (λ r. nat_beq r.owner other) (λ r. not (is_owned owner id r)) t.rows
                (λ r mine. ground arith))
      ]

module _ {A : Type 0} where
  member-of_owned :
      (owner id : ℕ) (rows : List (Row A))
      → is_some (first_row (is_owned owner id) rows) ≡ true
      → member id (map row_id rows) ≡ true
  member-of_owned owner id [] h = absurd (ground arith)
  member-of_owned owner id (row ∷ rows) h = elim (Bool-cases (is_owned owner id row)) [
    | inl hit ↦ ground arith
    | inr miss ↦ let rest = member-of_owned owner id rows (rw miss at h) in ground arith
  ]

  -- What an owner finds by an id is a matter of its own rows.
  pub first_row-rows_of :
      (owner id : ℕ) (rows : List (Row A))
      → first_row (is_owned owner id) rows
        ≡ first_row (is_owned owner id) (keep (λ r. nat_beq r.owner owner) rows)
  first_row-rows_of owner id [] = refl
  first_row-rows_of owner id (row ∷ rows) = elim (Bool-cases (nat_beq row.owner owner)) [
    | inl its ↦ rw its (ground (arith, first_row-rows_of owner id rows))
    | inr stranger ↦ rw stranger (ground (arith, first_row-rows_of owner id rows))
  ]

  -- Where ids are distinct, a row has one owner.
  pub one_owner :
      (owner other id : ℕ) (rows : List (Row A))
      → Distinct (map row_id rows)
      → is_some (first_row (is_owned owner id) rows) ≡ true
      → is_some (first_row (is_owned other id) rows) ≡ true
      → owner ≡ other
  one_owner owner other id [] d h k = absurd (ground arith)
  one_owner owner other id (row ∷ rows) d h k = elim (Bool-cases (is_owned owner id row)) [
    | inl hit ↦ elim (Bool-cases (is_owned other id row)) [
      | inl too ↦ ground arith
      | inr miss ↦ let m = member-of_owned other id rows (rw miss at k) in absurd (ground arith)
    ]
    | inr miss ↦ elim (Bool-cases (is_owned other id row)) [
      | inl too ↦ let m = member-of_owned owner id rows (rw miss at h) in absurd (ground arith)
      | inr miss_too ↦ one_owner owner other id rows d.1 (rw miss at h) (rw miss_too at k)
    ]
  ]

module _ {A K : Type 0} ⦃e : Eq K⦄ (key : A → Option K) where
  pub upsert_row-others :
      (owner other : ℕ) (a : A) (t : Rows A)
      → other ≢ owner
      → rows_of other (upsert_row key owner a t).1 ≡ rows_of other t
  unfolding upsert_row
  upsert_row-others owner other a t ne =
      elim (Option-cases (first_row (clashes key owner a) t.rows)) [
        | inr (row, found) ↦
            rw (found, upsert_row)
              (set_rows-others (clashes key owner a) a owner other t.rows (λ r hit. ground arith)
                ne)
        | inl free ↦
            let new : Row A = record { id = t.next_id; owner = owner; value = a } in
            let stranger : nat_beq owner other ≡ false = ground arith in
            rw (free, upsert_row)
              (keep-append (λ r. nat_beq r.owner other) t.rows (new ∷ [])
                ∙ rw stranger (append-nil (rows_of other t)))
      ]

  pub update_row-others :
      (owner id other : ℕ) (a : A) (t : Rows A)
      → other ≢ owner
      → rows_of other (update_row key owner id a t).1 ≡ rows_of other t
  unfolding update_row
  update_row-others owner id other a t ne =
      elim (Option-cases (first_row (is_owned owner id) t.rows)) [
        | inl missing ↦ rw (missing, update_row) refl
        | inr (row, found) ↦
            elim (Option-cases
              (first_row (λ r. not (is_owned owner id r) && clashes key owner a r) t.rows)) [
                | inr (taken, clash) ↦ rw (found, clash, update_row) refl
                | inl free ↦
                    rw (found, free, update_row)
                      (set_rows-others (is_owned owner id) a owner other t.rows
                        (λ r hit. ground arith) ne)
              ]
      ]
