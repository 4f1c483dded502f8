-- ===== src/Rows/Unique.antt =====
-- No statement lets two rows of an owner share a key, or two rows an id.
use jobs_scraper.Prelude.{
  ℕ, suc, ◌<◌, ◌≡◌, sym, subst, inl, inr, Bool, true, false, Bool-cases, not, ◌&&◌, Option,
  Option-cases, List, [], ◌∷◌, ◌++◌, map, map-append, keep, All, All-append, All-keep, All-imp,
  arith,
}
use jobs_scraper.Prelude.Keys.{Eq, nat_eq, member, Distinct, Distinct-snoc}
use jobs_scraper.Rows.{
  Row, Rows, is_owned, first_row, set_rows, delete_row, clashes, upsert_row, update_row,
}
use jobs_scraper.Rows.Ids.{
  row_id, first_row-none, set_rows-ids, set_rows-below, not_member-below, Distinct-keep,
  set_rows-absent, same_key-sym, same_key→eq,
}

module _ {A K : Type 0} ⦃e : Eq K⦄ (key : A → Option K) where
  abbrev pub Apart : Row A → Row A → Type 0
  Apart r s = clashes key r.owner r.value s ≡ false

  -- No two rows of an owner share a key.
  abbrev pub AreApart : List (Row A) → Type 0
  AreApart [] = Unit {0}
  AreApart (row ∷ rows) = All (Apart row) rows × AreApart rows

  -- Ids are distinct and used up, and keys unique for each owner.
  abbrev pub IsTable : Rows A → Type 0
  IsTable t = AreApart t.rows × (Distinct (map row_id t.rows) × All (λ r. r.id < t.next_id) t.rows)

  Apart-sym : (r s : Row A) → Apart r s → Apart s r
  Apart-sym r s h = ground (arith, same_key-sym (key r.value) (key s.value))

  AreApart-snoc :
      (rows : List (Row A)) (new : Row A)
      → AreApart rows
      → All (Apart new) rows
      → AreApart (rows ++ new ∷ [])
  AreApart-snoc [] new h n = (tt, tt)
  AreApart-snoc (row ∷ rows) new h n = (
    All-append (Apart row) rows (new ∷ []) h.0 (Apart-sym new row n.0, tt),
    AreApart-snoc rows new h.1 n.1,
  )

  pub AreApart-keep :
      (p : Row A → Bool) (rows : List (Row A)) → AreApart rows → AreApart (keep p rows)
  AreApart-keep p [] h = tt
  AreApart-keep p (row ∷ rows) h = elim (Bool-cases (p row)) [
    | inl kept ↦ rw kept (All-keep (Apart row) p rows h.0, AreApart-keep p rows h.1)
    | inr dropped ↦ rw dropped (AreApart-keep p rows h.1)
  ]

  -- Setting rows that have the new value's key already keeps every key.
  set_clashing-Apart :
      (owner : ℕ) (a : A) (row : Row A) (rows : List (Row A))
      → All (Apart row) rows
      → All (Apart row) (set_rows (clashes key owner a) a rows)
  set_clashing-Apart owner a row [] h = tt
  set_clashing-Apart owner a row (s ∷ rows) h = elim (Bool-cases (clashes key owner a s)) [
    | inr other ↦ rw other (h.0, set_clashing-Apart owner a row rows h.1)
    | inl hit ↦
        rw hit (
          ground (arith, same_key→eq (key s.value) (key a)),
          set_clashing-Apart owner a row rows h.1,
        )
  ]

  set_clashing-AreApart :
      (owner : ℕ) (a : A) (rows : List (Row A))
      → AreApart rows
      → AreApart (set_rows (clashes key owner a) a rows)
  set_clashing-AreApart owner a [] h = tt
  set_clashing-AreApart owner a (row ∷ rows) h = elim (Bool-cases (clashes key owner a row)) [
    | inr other ↦
        rw other (set_clashing-Apart owner a row rows h.0, set_clashing-AreApart owner a rows h.1)
    | inl hit ↦ rw hit (
      set_clashing-Apart owner a (record row { value = a }) rows
          (All-imp (Apart row) (Apart (record row { value = a }))
            (λ s apart. ground (arith, same_key→eq (key row.value) (key a))) rows h.0),
      set_clashing-AreApart owner a rows h.1,
    )
  ]

  -- No row but the one that is set has the new value's key.
  abbrev Free : ℕ → ℕ → A → Row A → Type 0
  Free owner id a r = (not (is_owned owner id r) && clashes key owner a r) ≡ false

  set_owned-Apart :
      (owner id : ℕ) (a : A) (row : Row A) (rows : List (Row A))
      → is_owned owner id row ≡ false
      → Free owner id a row
      → All (Apart row) rows
      → All (Apart row) (set_rows (is_owned owner id) a rows)
  set_owned-Apart owner id a row [] other free h = tt
  set_owned-Apart owner id a row (s ∷ rows) other free h = (
    elim (Bool-cases (is_owned owner id s)) [
      | inr miss ↦ rw miss h.0
      | inl hit ↦ rw hit (ground (arith, same_key-sym (key row.value) (key a)))
    ],
    set_owned-Apart owner id a row rows other free h.1,
  )

  set_owned-AreApart :
      (owner id : ℕ) (a : A) (rows : List (Row A))
      → Distinct (map row_id rows)
      → All (Free owner id a) rows
      → AreApart rows
      → AreApart (set_rows (is_owned owner id) a rows)
  set_owned-AreApart owner id a [] d f h = tt
  set_owned-AreApart owner id a (row ∷ rows) d f h = elim (Bool-cases (is_owned owner id row)) [
    | inr other ↦ rw other (
      set_owned-Apart owner id a row rows other f.0 h.0,
      set_owned-AreApart owner id a rows d.1 f.1 h.1,
    )
    | inl hit ↦
        let its : row.id ≡ id = ground arith in
        let gone : member id (map row_id rows) ≡ false =
          subst (λ n. member n (map row_id rows) ≡ false) its d.0 in
        rw (hit, set_rows-absent owner id a rows gone) (free_rest row rows its hit d.0 f.1, h.1)
  ]
    where
      free_rest :
          (r : Row A) (rest : List (Row A))
          → r.id ≡ id
          → is_owned owner id r ≡ true
          → member r.id (map row_id rest) ≡ false
          → All (Free owner id a) rest
          → All (Apart (record r { value = a })) rest
      free_rest r [] its hit m g = tt
      free_rest r (s ∷ rest) its hit m g =
          (ground arith, free_rest r rest its hit (ground arith) g.1)

  pub delete_row-IsTable :
      (owner id : ℕ) (t : Rows A) → IsTable t → IsTable (delete_row owner id t).1
  unfolding delete_row
  delete_row-IsTable owner id t h = elim (Option-cases (first_row (is_owned owner id) t.rows)) [
    | inl missing ↦ rw (missing, delete_row) h
    | inr (row, found) ↦
        let p : Row A → Bool = λ r. not (is_owned owner id r) in
        rw (found, delete_row)
          (
            AreApart-keep p t.rows h.0,
            (Distinct-keep p t.rows h.1.0, All-keep (λ r. r.id < t.next_id) p t.rows h.1.1),
          )
  ]

  pub upsert_row-IsTable :
      (owner : ℕ) (a : A) (t : Rows A) → IsTable t → IsTable (upsert_row key owner a t).1
  unfolding upsert_row
  upsert_row-IsTable owner a t h = elim (Option-cases (first_row (clashes key owner a) t.rows)) [
    | inr (row, found) ↦
        rw (found, upsert_row)
          (
            set_clashing-AreApart owner a t.rows h.0,
            (
              subst Distinct (sym (set_rows-ids (clashes key owner a) a t.rows)) h.1.0,
              set_rows-below (clashes key owner a) a (suc t.next_id) t.rows (
                  All-imp (λ r. r.id < t.next_id) (λ r. r.id < suc t.next_id) (λ r lt. omega arith)
                    t.rows h.1.1),
            ),
          )
    | inl free ↦
        let new : Row A = record { id = t.next_id; owner = owner; value = a } in
        rw (free, upsert_row)
          (
            AreApart-snoc t.rows new h.0 (
                All-imp (λ r. clashes key owner a r ≡ false) (Apart new) (λ r apart. apart) t.rows
                  (first_row-none (clashes key owner a) t.rows free)),
            (
              subst Distinct (sym (map-append row_id t.rows (new ∷ []))) (
                  Distinct-snoc (map row_id t.rows) t.next_id h.1.0
                    (not_member-below t.next_id t.rows h.1.1)),
              All-append (λ r. r.id < suc t.next_id) t.rows (new ∷ [])
                  (All-imp (λ r. r.id < t.next_id) (λ r. r.id < suc t.next_id) (λ r lt. omega arith)
                    t.rows h.1.1)
                  (omega arith, tt),
            ),
          )
  ]

  pub update_row-IsTable :
      (owner id : ℕ) (a : A) (t : Rows A) → IsTable t → IsTable (update_row key owner id a t).1
  unfolding update_row
  update_row-IsTable owner id a t h =
      let p : Row A → Bool = λ r. not (is_owned owner id r) && clashes key owner a r in
      elim (Option-cases (first_row (is_owned owner id) t.rows)) [
        | inl missing ↦ rw (missing, update_row) h
        | inr (row, found) ↦ elim (Option-cases (first_row p t.rows)) [
          | inr (other, taken) ↦ rw (found, taken, update_row) h
          | inl free ↦
              rw (found, free, update_row)
                (
                  set_owned-AreApart owner id a t.rows h.1.0 (first_row-none p t.rows free) h.0,
                  (
                    subst Distinct (sym (set_rows-ids (is_owned owner id) a t.rows)) h.1.0,
                    set_rows-below (is_owned owner id) a t.next_id t.rows h.1.1,
                  ),
                )
        ]
      ]
