-- ===== src/Scraper/Merge.antt =====
-- The merged batches hold one job for each key that the sources sent.
use jobs_scraper.Prelude.{
  ℕ, ◌≡◌, ◌∙◌, refl, sym, ap, inl, inr, Bool, true, false, Bool-cases, ◌||◌, Option, List, [], ◌∷◌,
  ◌++◌, map, if◌then◌else◌, arith,
}
use jobs_scraper.Prelude.Int.{ℤ}
use jobs_scraper.Prelude.Keys.{◌==◌, member, count, mark, mark-cons, count-append, member-append}
use jobs_scraper.Prelude.Text.{Text}
use jobs_scraper.Jobs.{Job, Time}
use jobs_scraper.Scraper.{
  DedupeKey, dedupe_key_eq, key_beq_iff, SourceResult, fetched, failed, panicked, key_for,
  fill_salary, merge_batch, merge_all, fetch_all,
}

or_absorb : (a b c : Bool) → (a ≡ true → c ≡ true) → ((a || b) || c) ≡ (b || c)
or_absorb true b c h = ground (arith, h refl)
or_absorb false b c h = refl

or_swap : (a b c : Bool) → (b || (a || c)) ≡ ((a || b) || c)
or_swap a b c = ground arith

member_same :
    (k key : DedupeKey) (seen : List DedupeKey)
    → member key seen ≡ true
    → (k == key) ≡ true
    → member k seen ≡ true
member_same k key seen h same = rw ((key_beq_iff k key).0 same) h

module _ (calendar : Time → ℕ × ℕ) (parse_salary : Text → Option ℤ × Option ℤ) where
  abbrev pub keys : List Job → List DedupeKey
  keys = map (key_for calendar parse_salary)

  -- The keys of all jobs sent.
  abbrev pub sent_keys : List SourceResult → List DedupeKey
  sent_keys [] = []
  sent_keys (fetched batch ∷ results) = keys batch ++ sent_keys results
  sent_keys (failed ∷ results) = sent_keys results
  sent_keys (panicked ∷ results) = sent_keys results

  -- A salary read from the description leaves the key alone.
  pub key_for-fill_salary :
      (job : Job)
      → key_for calendar parse_salary (fill_salary calendar parse_salary job)
        ≡ key_for calendar parse_salary job
  unfolding fill_salary
  key_for-fill_salary job = ground arith

  keys-snoc :
      (out : List Job) (job : Job)
      → keys (out ++ fill_salary calendar parse_salary job ∷ [])
        ≡ keys out ++ key_for calendar parse_salary job ∷ []
  keys-snoc [] job = ap (λ k. k ∷ []) (key_for-fill_salary job)
  keys-snoc (j ∷ out) job = ap (λ ks. key_for calendar parse_salary j ∷ ks) (keys-snoc out job)

  module _ (k : DedupeKey) where
    -- Every key seen has one job so far.
    merge_batch-mark :
        (batch : List Job) (seen : List DedupeKey) (out : List Job)
        → count k (keys out) ≡ mark k seen
        → let r = merge_batch calendar parse_salary batch seen out in
          count k (keys r.1) ≡ mark k r.0
    unfolding merge_batch
    merge_batch-mark [] seen out h = h
    merge_batch-mark (job ∷ batch) seen out h =
        let key = key_for calendar parse_salary job in
        elim (Bool-cases (member key seen)) [
          | inl again ↦ rw (again, merge_batch) (merge_batch-mark batch seen out h)
          | inr first ↦
              rw (first, merge_batch)
                (merge_batch-mark batch (key ∷ seen)
                  (out ++ fill_salary calendar parse_salary job ∷ [])
                  (rw (keys-snoc out job) (
                    omega (
                      arith,
                      h,
                      count-append k (keys out) (key ∷ []),
                      mark-cons k key seen first,
                    ))))
        ]

    merge_batch-seen :
        (batch : List Job) (seen : List DedupeKey) (out : List Job)
        → member k (merge_batch calendar parse_salary batch seen out).0
          ≡ (member k (keys batch) || member k seen)
    unfolding merge_batch
    merge_batch-seen [] seen out = refl
    merge_batch-seen (job ∷ batch) seen out =
        let key = key_for calendar parse_salary job in
        elim (Bool-cases (member key seen)) [
          | inl again ↦
              rw (again, merge_batch)
                (merge_batch-seen batch seen out
                  ∙ sym (
                      or_absorb (k == key) (member k (keys batch)) (member k seen)
                        (member_same k key seen again)))
          | inr first ↦
              rw (first, merge_batch)
                (merge_batch-seen batch (key ∷ seen)
                    (out ++ fill_salary calendar parse_salary job ∷ [])
                  ∙ or_swap (k == key) (member k (keys batch)) (member k seen))
        ]

    merge_all-count :
        (results : List SourceResult) (seen : List DedupeKey) (out : List Job)
        → count k (keys out) ≡ mark k seen
        → count k (keys (merge_all calendar parse_salary results seen out))
          ≡ (if member k (sent_keys results) || member k seen then 1 else 0)
    unfolding merge_all
    merge_all-count [] seen out h = h
    merge_all-count (fetched batch ∷ results) seen out h =
        let r = merge_batch calendar parse_salary batch seen out in
        merge_all-count results r.0 r.1 (merge_batch-mark batch seen out h)
        ∙ rw (merge_batch-seen, member-append)
            (ap (λ b. if b then 1 else 0)
              (or_swap (member k (keys batch)) (member k (sent_keys results)) (member k seen)))
    merge_all-count (failed ∷ results) seen out h = merge_all-count results seen out h
    merge_all-count (panicked ∷ results) seen out h = merge_all-count results seen out h

-- A fetch over all sources holds exactly one job for each key (company, title, location, year and
-- month) of the jobs that the sources sent, and none for any other key, whatever duplicates they
-- sent and in whatever order they finished.
pub fetch_all-count :
    (calendar : Time → ℕ × ℕ) (parse_salary : Text → Option ℤ × Option ℤ)
    (results : List SourceResult) (k : DedupeKey)
    → count k (map (key_for calendar parse_salary) (fetch_all calendar parse_salary results))
      ≡ mark k (sent_keys calendar parse_salary results)
unfolding fetch_all
fetch_all-count calendar parse_salary results k =
    merge_all-count calendar parse_salary k results [] [] refl ∙ ground arith
