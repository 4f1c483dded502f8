-- ===== src/Resumes/Extracted.antt =====
-- What an extraction stores, and what is answered.
use jobs_scraper.Prelude.{
  ℕ, ◌≡◌, ◌∙◌, refl, ap, inl, inr, Bool, true, false, Bool-cases, Option, none, some, List, [], ◌∷◌,
  ◌==◌ as nat_beq, arith,
}
use jobs_scraper.Prelude.Keys.{nat_eq, list_eq, eq_self, lookup, lookup-insert}
use jobs_scraper.Prelude.Text.{Text, codes, is_some}
use jobs_scraper.Rows.{Row, ok, is_owned, first_row}
use jobs_scraper.Server.{status_response, path_id}
use jobs_scraper.Tailoring.{ExtractedResume}
use jobs_scraper.Resumes.{
  Resume, Extraction, Shelf, merged, upsert_extraction, get_resume,
  upsert_resume_extraction_pending, save_resume_extraction_result, save_resume_extraction_failure,
  save_resume_embedding, get_resume_extraction,
}
use jobs_scraper.Resumes.Handlers.{
  Extracting, extracted, unsupported, failed, Ups, run_resume_extraction,
  handle_trigger_resume_extraction, extract, saved, embed_resume_extraction,
}
use jobs_scraper.Resumes.Shelves.{run_resume_extraction-table}

module _ (V : Type 0) where
  abbrev pub embedding_before : Option (Extraction V) → Option V
  embedding_before none = none
  embedding_before (some old) = old.embedding

  abbrev pub fields_before : Option (Extraction V) → Option ExtractedResume
  fields_before none = none
  fields_before (some old) = old.fields

  abbrev pub new_embedding : Option V → Option V → Option V
  new_embedding none before = before
  new_embedding (some vector) before = some vector

  -- The extraction that a run leaves, from the one before it.
  abbrev pub left_by : Extracting V → Option (Extraction V) → Extraction V
  left_by (extracted fields vector) before = record {
    status = codes "completed";
    fields = some fields;
    error = none;
    embedding = new_embedding vector (embedding_before before);
  }
  left_by (unsupported message) before = record {
    status = codes "unsupported";
    fields = fields_before before;
    error = some message;
    embedding = embedding_before before;
  }
  left_by (failed message) before = record {
    status = codes "failed";
    fields = fields_before before;
    error = some message;
    embedding = embedding_before before;
  }

  -- A row of the resume is there.
  abbrev IsThere : ℕ → Shelf V → Type 0
  IsThere id s = is_some (first_row (λ r. nat_beq r.id id) s.table.rows) ≡ true

  abbrev Stores : ℕ → Extraction V → Shelf V → Type 0
  Stores id e s = IsThere id s × (lookup id s.extractions ≡ some e)

  owned-IsThere :
      (profile id : ℕ) (rows : List (Row Resume))
      → is_some (first_row (is_owned profile id) rows) ≡ true
      → is_some (first_row (λ r. nat_beq r.id id) rows) ≡ true
  owned-IsThere profile id [] h = h
  owned-IsThere profile id (row ∷ rows) h = elim (Bool-cases (nat_beq row.id id)) [
    | inl its ↦ rw its refl
    | inr other ↦ rw other (owned-IsThere profile id rows (rw other at h))
  ]

  upsert_extraction-Stores :
      (id : ℕ) (new : Extraction V) (change : Extraction V → Extraction V) (s : Shelf V)
      → IsThere id s
      → ((upsert_extraction V id new change true s).0 ≡ true)
        × Stores id
            (merged V new change (lookup id s.extractions))
            (upsert_extraction V id new change true s).1
  upsert_extraction-Stores id new change s there = rw there (
    refl,
    (
      there,
      lookup-insert id id (merged V new change (lookup id s.extractions)) s.extractions
          ∙ rw (eq_self id) refl,
    ),
  )

  abbrev pending_from : Option (Extraction V) → Extraction V
  pending_from before =
      merged V (record { status = codes "pending"; fields = none; error = none; embedding = none })
        (λ old. record old { status = codes "pending"; error = none }) before

  embed-Stores :
      (id : ℕ) (e : Extraction V) (vector : Option V) (s : Shelf V)
      → Stores id e s
      → Stores id
          (record e { embedding = new_embedding vector e.embedding })
          (embed_resume_extraction V id vector true s)
  unfolding save_resume_embedding
  embed-Stores id e none s h = h
  embed-Stores id e (some vector) s h =
      rw (h.1, save_resume_embedding)
        (
          h.0,
          lookup-insert id id (record e { embedding = some vector }) s.extractions
              ∙ rw (eq_self id) refl,
        )

  saved-Stores :
      (id : ℕ) (e : Extraction V) (vector : Option V) (r : Bool × Shelf V)
      → r.0 ≡ true
      → Stores id e r.1
      → ((saved V id vector true r).0 ≡ codes "completed")
        × Stores id
            (record e { embedding = new_embedding vector e.embedding })
            (saved V id vector true r).1
  saved-Stores id e vector (true, s) done h = (refl, embed-Stores id e vector s h)
  saved-Stores id e vector (false, s) done h = absurd (ground arith)

  -- All calls of the database run.
  abbrev pub all_up : Ups
  all_up = record { first = true; second = true; third = true; fourth = true }

  abbrev Matches : ℕ → Extraction V → Text × Shelf V → Type 0
  Matches id e r = (r.0 ≡ e.status) × Stores id e r.1

  failure-Stores :
      (id : ℕ) (status message : Text) (before : Option (Extraction V)) (s : Shelf V)
      → Stores id (pending_from before) s
      → Stores id
          (record (pending_from before) { status = status; error = some message })
          (save_resume_extraction_failure V id status message true s).1
  unfolding save_resume_extraction_failure
  failure-Stores id status message before s h =
      let stored =
        upsert_extraction-Stores id
          (record { status = status; fields = none; error = some message; embedding = none })
          (λ old. record old { status = status; error = some message }) s h.0 in
      (stored.1.0, stored.1.1 ∙ rw h.1 refl)

  extract-Matches :
      (id : ℕ) (outcome : Extracting V) (before : Option (Extraction V)) (r : Bool × Shelf V)
      → r.0 ≡ true
      → Stores id (pending_from before) r.1
      → Matches id (left_by outcome before) (extract V id outcome all_up r)
  unfolding save_resume_extraction_result
  extract-Matches id outcome before (false, s) up h = absurd (ground arith)
  extract-Matches id (extracted fields vector) before (true, s) up h =
      let stored =
        upsert_extraction-Stores id
          (record {
            status = codes "completed";
            fields = some fields;
            error = none;
            embedding = none;
          })
          (λ old. record old { status = codes "completed"; fields = some fields; error = none }) s
          h.0 in
      completed before (
        saved-Stores id
          (record (pending_from before) {
            status = codes "completed";
            fields = some fields;
            error = none;
          })
          vector (save_resume_extraction_result V id fields true s) stored.0
          (stored.1.0, stored.1.1 ∙ rw h.1 refl))
    where
      completed :
          (b : Option (Extraction V))
          → ((saved V id vector true (save_resume_extraction_result V id fields true s)).0
              ≡ codes "completed")
            × Stores id
                (record (pending_from b) {
                  status = codes "completed";
                  fields = some fields;
                  error = none;
                  embedding = new_embedding vector (pending_from b).embedding;
                })
                (saved V id vector true (save_resume_extraction_result V id fields true s)).1
          → Matches id
              (left_by (extracted fields vector) b)
              (saved V id vector true (save_resume_extraction_result V id fields true s))
      completed none m = m
      completed (some old) m = m
  extract-Matches id (unsupported message) none (true, s) up h =
      (refl, failure-Stores id (codes "unsupported") message none s h)
  extract-Matches id (unsupported message) (some old) (true, s) up h =
      (refl, failure-Stores id (codes "unsupported") message (some old) s h)
  extract-Matches id (failed message) none (true, s) up h =
      (refl, failure-Stores id (codes "failed") message none s h)
  extract-Matches id (failed message) (some old) (true, s) up h =
      (refl, failure-Stores id (codes "failed") message (some old) s h)

  run-Matches :
      (id : ℕ) (outcome : Extracting V) (s : Shelf V)
      → IsThere id s
      → Matches id
          (left_by outcome (lookup id s.extractions))
          (run_resume_extraction V id outcome all_up s)
  unfolding run_resume_extraction upsert_resume_extraction_pending
  run-Matches id outcome s there =
      let stored =
        upsert_extraction-Stores id
          (record { status = codes "pending"; fields = none; error = none; embedding = none })
          (λ old. record old { status = codes "pending"; error = none }) s there in
      extract-Matches id outcome (lookup id s.extractions) _ stored.0 stored.1

  -- What an extraction that is read says of a run: completed, with the fields that were found and no
  -- error; or unsupported or failed, with the message and the fields that were stored before.
  abbrev pub Reports : Extracting V → Option (Extraction V) → Extraction V → Type 0
  Reports (extracted fields vector) before e =
      (e.status ≡ codes "completed") × (e.fields ≡ some fields) × (e.error ≡ none)
  Reports (unsupported message) before e =
      (e.status ≡ codes "unsupported")
      × (e.fields ≡ fields_before before)
      × (e.error ≡ some message)
  Reports (failed message) before e =
      (e.status ≡ codes "failed") × (e.fields ≡ fields_before before) × (e.error ≡ some message)

  -- The embedding that a run made, if it made one.
  abbrev pub made_embedding : Extracting V → Option V
  made_embedding (extracted fields vector) = vector
  made_embedding (unsupported message) = none
  made_embedding (failed message) = none

  -- A run that makes no embedding leaves the one that another run made, of other fields perhaps.
  abbrev pub Embeds : Option V → Option (Extraction V) → Extraction V → Type 0
  Embeds (some vector) before e = e.embedding ≡ some vector
  Embeds none before e = e.embedding ≡ embedding_before before

  left_by-Reports :
      (outcome : Extracting V) (before : Option (Extraction V))
      → Reports outcome before (left_by outcome before)
        × Embeds (made_embedding outcome) before (left_by outcome before)
  left_by-Reports (extracted fields none) before = ((refl, refl, refl), refl)
  left_by-Reports (extracted fields (some vector)) before = ((refl, refl, refl), refl)
  left_by-Reports (unsupported message) before = ((refl, refl, refl), refl)
  left_by-Reports (failed message) before = ((refl, refl, refl), refl)

  trigger-left_by :
      (outcome : Resume → Extracting V) (profile id : ℕ) (raw : Text) (s : Shelf V)
      (row : Row Resume)
      → path_id raw ≡ some id
      → first_row (is_owned profile id) s.table.rows ≡ some row
      → ((handle_trigger_resume_extraction V outcome profile raw all_up s).0
          ≡ status_response (left_by (outcome row.value) (lookup id s.extractions)).status)
        × (get_resume_extraction V profile id true
              (handle_trigger_resume_extraction V outcome profile raw all_up s).1
            ≡ ok (left_by (outcome row.value) (lookup id s.extractions)))
  unfolding handle_trigger_resume_extraction get_resume get_resume_extraction
  trigger-left_by outcome profile id raw s row good found =
      let there : IsThere id s = owned-IsThere profile id s.table.rows (rw found refl) in
      let run = run-Matches id (outcome row.value) s there in
      let same = run_resume_extraction-table V id (outcome row.value) all_up s in
      rw (good, found, handle_trigger_resume_extraction, get_resume)
        (ap status_response run.0, rw (same, found, run.1.1, get_resume_extraction) refl)

  -- Where a profile triggers the extraction of a resume that it owns and the database runs every call,
  -- the answer is 200 with the status of the extraction that the profile then reads. That extraction is
  -- completed, with the fields that were found and no error; or unsupported or failed, with the
  -- message and the fields that were stored before. If the run made an embedding, it has that one. If it
  -- made none, it still has the embedding that was stored before, and this also where the fields are
  -- new and the embedding is of the old ones, where the code's comments speak of no embedding.
  pub handle_trigger_resume_extraction-Reports :
      (outcome : Resume → Extracting V) (profile id : ℕ) (raw : Text) (s : Shelf V)
      (row : Row Resume)
      → path_id raw ≡ some id
      → first_row (is_owned profile id) s.table.rows ≡ some row
      → (e : Extraction V) × ((handle_trigger_resume_extraction V outcome profile raw all_up s).0
          ≡ status_response e.status)
        × (get_resume_extraction V profile id true
              (handle_trigger_resume_extraction V outcome profile raw all_up s).1
            ≡ ok e)
        × Reports (outcome row.value) (lookup id s.extractions) e
        × Embeds (made_embedding (outcome row.value)) (lookup id s.extractions) e
  handle_trigger_resume_extraction-Reports outcome profile id raw s row good found =
      let before = lookup id s.extractions in
      let run = trigger-left_by outcome profile id raw s row good found in
      let says = left_by-Reports (outcome row.value) before in
      (left_by (outcome row.value) before, run.0, run.1, says.0, says.1)
