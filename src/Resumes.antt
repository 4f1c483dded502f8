-- ===== src/Resumes.antt =====
-- A profile's resumes and what is extracted from them (backend/database/profile_resumes.go). `up`
-- tells whether the database runs the statement. Times are left out.
pub mod Names
pub mod Handlers
pub mod Active
pub mod Shelves
pub mod Extracted
mod Tests
use jobs_scraper.Prelude.{
  ℕ, suc, ◌≡◌, Bool, true, false, not, ◌&&◌, ◌||◌, Option, none, some, List, [], ◌∷◌, ◌++◌, map,
  keep, length, if◌then◌else◌, ◌==◌ as nat_beq,
}
use jobs_scraper.Prelude.Keys.{◌==◌, nat_eq, list_eq, lookup, insert}
use jobs_scraper.Prelude.Text.{Text, codes, is_some}
use jobs_scraper.Tailoring.{ExtractedResume}
use jobs_scraper.Rows.{
  Row, Rows, Reply, ok, invalid_input, no_rows, broken, no_rows_yet, is_owned, first_row,
  delete_row,
}

pub record Resume : Type 0 where
  pub file_name : Text
  pub content_type : Text
  pub file_size : ℕ
  pub content : List ℕ
  pub is_active : Bool

-- The columns of an extraction; `fields` are those that a completed one has set.
pub record Extraction (Vector : Type 0) : Type 0 where
  pub status : Text
  pub fields : Option ExtractedResume
  pub error : Option Text
  pub embedding : Option Vector

abbrev pub change_rows :
    (Row Resume → Bool) → (Resume → Resume) → List (Row Resume) → List (Row Resume)
change_rows p f [] = []
change_rows p f (row ∷ rows) =
    (if p row then record row { value = f row.value } else row) ∷ change_rows p f rows

-- `SET is_active = (id = $2) WHERE profile_id = $1`
abbrev pub activate_rows : ℕ → ℕ → List (Row Resume) → List (Row Resume)
activate_rows profile id [] = []
activate_rows profile id (row ∷ rows) =
    (if nat_beq row.owner profile
      then record row { value = record row.value { is_active = nat_beq row.id id } }
      else row)
    ∷ activate_rows profile id rows

abbrev pub has_rows : ℕ → List (Row Resume) → Bool
has_rows profile rows = is_some (first_row (λ r. nat_beq r.owner profile) rows)

module _ (Vector : Type 0) where
  -- The resumes, and their extractions by the resume's id.
  pub record Shelf : Type 0 where
    pub table : Rows Resume
    pub extractions : List (ℕ × Extraction Vector)

  abbrev pub no_resumes : Shelf
  no_resumes = record { table = no_rows_yet; extractions = [] }

  abbrev pub new_resume : Text → Text → List ℕ → Bool → Resume
  new_resume file_name content_type content is_active = record {
    file_name = file_name;
    content_type = content_type;
    file_size = length content;
    content = content;
    is_active = is_active;
  }

  unfoldable pub add_resume : ℕ → Text → Text → List ℕ → Bool → Shelf → Reply ℕ × Shelf
  add_resume profile file_name content_type content up s =
      if up
      then (
        ok s.table.next_id,
        record s {
          table = record {
            rows =
                s.table.rows
                ++ (record {
                  id = s.table.next_id;
                  owner = profile;
                  value =
                      new_resume file_name content_type content
                        (not (has_rows profile s.table.rows));
                })
                  ∷ [];
            next_id = suc s.table.next_id;
          };
        },
      )
      else (broken, s)

  -- The query and the update after it.
  unfoldable pub set_active_resume : ℕ → ℕ → Bool → Bool → Shelf → Reply (Unit {0}) × Shelf
  set_active_resume profile id up up_too s =
      if not up
      then (broken, s)
      else if not (is_some (first_row (is_owned profile id) s.table.rows))
      then (no_rows, s)
      else if up_too
      then (
        ok tt,
        record s {
          table = record {
            rows = activate_rows profile id s.table.rows;
            next_id = s.table.next_id;
          };
        },
      )
      else (broken, s)

  -- An update of the row with an id; no row is `sql.ErrNoRows`.
  abbrev pub change_resume : ℕ → ℕ → (Resume → Resume) → Bool → Shelf → Reply (Unit {0}) × Shelf
  change_resume profile id f up s =
      if not up
      then (broken, s)
      else if is_some (first_row (is_owned profile id) s.table.rows)
      then (
        ok tt,
        record s {
          table = record {
            rows = change_rows (is_owned profile id) f s.table.rows;
            next_id = s.table.next_id;
          };
        },
      )
      else (no_rows, s)

  unfoldable pub replace_resume :
      ℕ → ℕ → Text → Text → List ℕ → Bool → Shelf → Reply (Unit {0}) × Shelf
  replace_resume profile id file_name content_type content up s =
      change_resume profile id (λ r. new_resume file_name content_type content r.is_active) up s

  unfoldable pub rename_resume : ℕ → ℕ → Text → Bool → Shelf → Reply (Unit {0}) × Shelf
  rename_resume profile id file_name up s =
      change_resume profile id (λ r. record r { file_name = file_name }) up s

  abbrev pub found_row : Option (Row Resume) → Reply Resume
  found_row none = no_rows
  found_row (some row) = ok row.value

  unfoldable pub get_resume : ℕ → ℕ → Bool → Shelf → Reply Resume
  get_resume profile id up s =
      if up then found_row (first_row (is_owned profile id) s.table.rows) else broken

  -- The extraction goes with its resume.
  abbrev pub without_extraction : ℕ → List (ℕ × Extraction Vector) → List (ℕ × Extraction Vector)
  without_extraction id extractions = keep (λ e. not (nat_beq e.0 id)) extractions

  unfoldable pub delete_resume : ℕ → ℕ → Bool → Shelf → Reply (Unit {0}) × Shelf
  delete_resume profile id up s =
      if not up
      then (broken, s)
      else if is_some (first_row (is_owned profile id) s.table.rows)
      then (
        ok tt,
        record {
          table = record {
            rows = keep (λ r. not (is_owned profile id r)) s.table.rows;
            next_id = s.table.next_id;
          };
          extractions = without_extraction id s.extractions;
        },
      )
      else (no_rows, s)

  -- `INSERT ... ON CONFLICT (resume_id) DO UPDATE`: what a new row holds, and what an old one becomes.
  abbrev pub merged :
      Extraction Vector
      → (Extraction Vector → Extraction Vector)
      → Option (Extraction Vector)
      → Extraction Vector
  merged new change none = new
  merged new change (some old) = change old

  -- A resume that is not there is refused by the foreign key.
  abbrev pub upsert_extraction :
      ℕ → Extraction Vector → (Extraction Vector → Extraction Vector) → Bool → Shelf → Bool × Shelf
  upsert_extraction id new change up s =
      if up && is_some (first_row (λ r. nat_beq r.id id) s.table.rows)
      then (
        true,
        record s {
          extractions = insert id (merged new change (lookup id s.extractions)) s.extractions;
        },
      )
      else (false, s)

  unfoldable pub upsert_resume_extraction_pending : ℕ → Bool → Shelf → Bool × Shelf
  upsert_resume_extraction_pending id up s =
      upsert_extraction id
        (record { status = codes "pending"; fields = none; error = none; embedding = none })
        (λ old. record old { status = codes "pending"; error = none }) up s

  unfoldable pub save_resume_extraction_result : ℕ → ExtractedResume → Bool → Shelf → Bool × Shelf
  save_resume_extraction_result id extracted up s =
      upsert_extraction id
        (record {
          status = codes "completed";
          fields = some extracted;
          error = none;
          embedding = none;
        })
        (λ old. record old { status = codes "completed"; fields = some extracted; error = none }) up
        s

  unfoldable pub save_resume_extraction_failure : ℕ → Text → Text → Bool → Shelf → Bool × Shelf
  save_resume_extraction_failure id status message up s =
      upsert_extraction id
        (record { status = status; fields = none; error = some message; embedding = none })
        (λ old. record old { status = status; error = some message }) up s

  abbrev pub embedded : ℕ → Vector → Shelf → Option (Extraction Vector) → Shelf
  embedded id vector s none = s
  embedded id vector s (some old) = record s {
    extractions = insert id (record old { embedding = some vector }) s.extractions;
  }

  unfoldable pub save_resume_embedding : ℕ → Vector → Bool → Shelf → Shelf
  save_resume_embedding id vector up s =
      if up then embedded id vector s (lookup id s.extractions) else s

  abbrev pub found_extraction : Option (Extraction Vector) → Reply (Extraction Vector)
  found_extraction none = no_rows
  found_extraction (some e) = ok e

  unfoldable pub get_resume_extraction : ℕ → ℕ → Bool → Shelf → Reply (Extraction Vector)
  get_resume_extraction profile id up s =
      if not up
      then broken
      else if is_some (first_row (is_owned profile id) s.table.rows)
      then found_extraction (lookup id s.extractions)
      else no_rows

  abbrev pub if_completed : Option (Extraction Vector) → Option (Extraction Vector)
  if_completed none = none
  if_completed (some e) = if e.status == codes "completed" then some e else none

  abbrev pub extraction_of_row :
      List (ℕ × Extraction Vector) → Option (Row Resume) → Option (Extraction Vector)
  extraction_of_row extractions none = none
  extraction_of_row extractions (some row) = if_completed (lookup row.id extractions)

  -- `none` where the profile has no active resume or its extraction is not completed.
  unfoldable pub get_active_resume_extraction :
      ℕ → Bool → Shelf → Reply (Option (Extraction Vector))
  get_active_resume_extraction profile up s =
      if up
      then ok (
          extraction_of_row s.extractions
            (first_row (λ r. nat_beq r.owner profile && r.value.is_active) s.table.rows))
      else broken
