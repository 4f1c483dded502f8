-- ===== src/Rows.antt =====
-- Tables whose rows belong to an owner and are unique by a key: the statements that
-- backend/database makes of them. A key is missing where a column of it is NULL, which
-- PostgreSQL's unique indexes tell apart from every other.
pub mod Ids
pub mod Unique
pub mod Owners
use jobs_scraper.Prelude.{
  ℕ, suc, ◌≡◌, Bool, true, false, not, ◌&&◌, ◌||◌, Option, none, some, List, [], ◌∷◌, ◌++◌, keep,
  length, if◌then◌else◌, ◌==◌ as nat_beq,
}
use jobs_scraper.Prelude.Keys.{Eq, ◌==◌}
use jobs_scraper.Prelude.Text.{Text}

pub record Row (A : Type 0) : Type 0 where
  pub id : ℕ
  pub owner : ℕ
  pub value : A

-- The rows, the oldest first, and the next value of the identity column.
pub record Rows (A : Type 0) : Type 0 where
  pub rows : List (Row A)
  pub next_id : ℕ

-- How a call on the database ends: with a result, with an error that the caller can mend
-- (`ErrInvalidInput`, with its message), with `sql.ErrNoRows`, or with any other error.
pub data Reply (A : Type 0) : Type 0 where
  ok : A → Reply A
  invalid_input : Text → Reply A
  no_rows broken : Reply A

module _ {A : Type 0} where
  abbrev pub no_rows_yet : Rows A
  no_rows_yet = record { rows = []; next_id = 1 }

  -- `WHERE id = $1 AND profile_id = $2`
  abbrev pub is_owned : ℕ → ℕ → Row A → Bool
  is_owned owner id row = nat_beq row.id id && nat_beq row.owner owner

  abbrev pub first_row : (Row A → Bool) → List (Row A) → Option (Row A)
  first_row p [] = none
  first_row p (row ∷ rows) = if p row then some row else first_row p rows

  -- `UPDATE ... SET` of a whole value.
  abbrev pub set_rows : (Row A → Bool) → A → List (Row A) → List (Row A)
  set_rows p a [] = []
  set_rows p a (row ∷ rows) = (if p row then record row { value = a } else row) ∷ set_rows p a rows

  -- `DELETE`, and whether a row was there.
  unfoldable pub delete_row : ℕ → ℕ → Rows A → Reply (Unit {0}) × Rows A
  delete_row owner id t = elim (first_row (is_owned owner id) t.rows) [
    | none ↦ (no_rows, t)
    | some row ↦ (ok tt, record t { rows = keep (λ r. not (is_owned owner id r)) t.rows })
  ]

abbrev pub same_key : {K : Type 0} ⦃e : Eq K⦄ → Option K → Option K → Bool
same_key none k = false
same_key (some j) none = false
same_key (some j) (some k) = j == k

module _ {A K : Type 0} ⦃e : Eq K⦄ (key : A → Option K) where
  -- A row that the unique index forbids beside a new one.
  abbrev pub clashes : ℕ → A → Row A → Bool
  clashes owner a row = nat_beq row.owner owner && same_key (key row.value) (key a)

  -- `INSERT ... ON CONFLICT ... DO UPDATE`, with the id of the row; a conflict uses up an id too.
  unfoldable pub upsert_row : ℕ → A → Rows A → ℕ × Rows A
  upsert_row owner a t = elim (first_row (clashes owner a) t.rows) [
    | some row ↦
        (row.id, record { rows = set_rows (clashes owner a) a t.rows; next_id = suc t.next_id })
    | none ↦ (
      t.next_id,
      record {
        rows = t.rows ++ (record { id = t.next_id; owner = owner; value = a }) ∷ [];
        next_id = suc t.next_id;
      },
    )
  ]

  -- A clash with another row is an error of the index.
  unfoldable pub update_row : ℕ → ℕ → A → Rows A → Reply (Unit {0}) × Rows A
  update_row owner id a t = elim (first_row (is_owned owner id) t.rows) [
    | none ↦ (no_rows, t)
    | some row ↦ elim (first_row (λ r. not (is_owned owner id r) && clashes owner a r) t.rows) [
      | some other ↦ (broken, t)
      | none ↦ (ok tt, record t { rows = set_rows (is_owned owner id) a t.rows })
    ]
  ]
