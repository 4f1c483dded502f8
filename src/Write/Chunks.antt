-- ===== src/Write/Chunks.antt =====
-- What the chunks of a write hold, and when it commits.
use jobs_scraper.Prelude.{
  ℕ, zero, suc, ◌+◌, ◌-◌, ◌≤◌, ◌<◌, ◌≡◌, ◌∙◌, refl, sym, ap, inl, inr, Bool, true, false,
  Bool-cases, ◌&&◌, List, [], ◌∷◌, ◌++◌, append_assoc, append-nil, length, take, drop, length-take,
  length-drop, take-append-drop, min, ltb, leb, if◌then◌else◌, All, arith,
}
use jobs_scraper.Jobs.{Job}
use jobs_scraper.Write.{
  write_jobs_chunk_size, dedupe_jobs_by_url, chunks_from, committed, rolled_back, write_chunks,
  write_jobs,
}

module _ {ℓ} {A : Type ℓ} where
  abbrev pub concat : List (List A) → List A
  concat [] = []
  concat (xs ∷ xss) = xs ++ concat xss

  drop-none : (n : ℕ) (xs : List A) → length xs ≤ n → drop n xs ≡ []
  drop-none zero [] h = refl
  drop-none zero (x ∷ xs) h = absurd (omega arith)
  drop-none (suc n) [] h = refl
  drop-none (suc n) (x ∷ xs) h = drop-none n xs (omega arith)

  drop-more : (n m : ℕ) (xs : List A) → drop (n + m) xs ≡ drop m (drop n xs)
  drop-more zero m xs = rw (zero_left m) refl
    where
      zero_left : (k : ℕ) → 0 + k ≡ k
      zero_left k = omega arith
  drop-more (suc n) m [] =
      drop-none (suc n + m) [] (omega arith) ∙ sym (drop-none m [] (omega arith))
  drop-more (suc n) m (x ∷ xs) = rw (suc_left n m) (drop-more n m xs)
    where
      suc_left : (a b : ℕ) → suc a + b ≡ suc (a + b)
      suc_left a b = omega arith

  -- A slice from `start` to `finish` and the rest behind it are what stands from `start` on.
  slice-append-drop :
      (start finish : ℕ) (xs : List A)
      → start ≤ finish
      → take (finish - start) (drop start xs) ++ drop finish xs ≡ drop start xs
  slice-append-drop start finish xs h =
      let split : start + (finish - start) ≡ finish = omega arith in
      ap (λ n. take (finish - start) (drop start xs) ++ drop n xs) (sym split)
      ∙ rw (drop-more start (finish - start) xs) (take-append-drop (finish - start) (drop start xs))

not_ltb : (a b : ℕ) → ltb a b ≡ false → b ≤ a
not_ltb a b h = ground arith

chunks_from-concat :
    (fuel start : ℕ) (batch : List Job)
    → length batch < start + fuel
    → concat (chunks_from fuel start batch) ≡ drop start batch
unfolding chunks_from
chunks_from-concat zero start batch h = sym (drop-none start batch (omega arith))
chunks_from-concat (suc fuel) start batch h = elim (Bool-cases (ltb start (length batch))) [
  | inl more ↦
      rw (more, chunks_from)
        (ap
            (λ r.
              take (min (start + write_jobs_chunk_size) (length batch) - start) (drop start batch)
              ++ r)
            (chunks_from-concat fuel (start + write_jobs_chunk_size) batch (omega arith)
              ∙ past_end (start + write_jobs_chunk_size))
          ∙ slice-append-drop start (min (start + write_jobs_chunk_size) (length batch)) batch
              (ground arith))
  | inr done ↦
      rw (done, chunks_from) (sym (drop-none start batch (not_ltb start (length batch) done)))
]
  where
    past_end : (n : ℕ) → drop n batch ≡ drop (min n (length batch)) batch
    past_end n = elim (Bool-cases (leb n (length batch))) [
      | inl within ↦ ap (λ k. drop k batch) (ground arith)
      | inr over ↦
          drop-none n batch (ground arith)
          ∙ sym (drop-none (min n (length batch)) batch (ground arith))
    ]

chunks_from-bound :
    (fuel start : ℕ) (batch : List Job)
    → All
        (λ chunk. (0 < length chunk) × (length chunk ≤ write_jobs_chunk_size))
        (chunks_from fuel start batch)
unfolding chunks_from
chunks_from-bound zero start batch = tt
chunks_from-bound (suc fuel) start batch = elim (Bool-cases (ltb start (length batch))) [
  | inl more ↦
      rw (more, chunks_from)
        (
          ground (
            arith,
            length-take (min (start + write_jobs_chunk_size) (length batch) - start)
                (drop start batch),
            length-drop start batch,
          ),
          chunks_from-bound fuel (start + write_jobs_chunk_size) batch,
        )
  | inr done ↦ rw (done, chunks_from) tt
]

-- The chunks of a deduplicated batch.
abbrev pub chunks_of : List Job → List (List Job)
chunks_of deduped = chunks_from (suc (length deduped)) 0 deduped

abbrev pub accepts_all : (List Job → Bool) → List (List Job) → Bool
accepts_all accepts [] = true
accepts_all accepts (chunk ∷ chunks) = accepts chunk && accepts_all accepts chunks

write_chunks_lem :
    (accepts : List Job → Bool) (chunks done : List (List Job))
    → write_chunks accepts chunks done
      ≡ (if accepts_all accepts chunks then committed (done ++ chunks) else rolled_back)
unfolding write_chunks
write_chunks_lem accepts [] done = ap committed (sym (append-nil done))
write_chunks_lem accepts (chunk ∷ chunks) done = ground (
  arith,
  write_chunks_lem accepts chunks (done ++ chunk ∷ []),
  append_assoc done (chunk ∷ []) chunks,
)

-- A write either commits chunks of 1 to 500 jobs that together are the deduplicated batch in its
-- order, when the database accepts every one of them, or is rolled back.
pub write_jobs-chunks_of :
    (accepts : List Job → Bool) (batch : List Job)
    → let chunks = chunks_of (dedupe_jobs_by_url batch) in
      (write_jobs accepts batch
        ≡ (if accepts_all accepts chunks then committed chunks else rolled_back))
      × ((concat chunks ≡ dedupe_jobs_by_url batch)
          × All (λ chunk. (0 < length chunk) × (length chunk ≤ write_jobs_chunk_size)) chunks)
unfolding write_jobs
write_jobs-chunks_of accepts batch =
    let deduped = dedupe_jobs_by_url batch in
    (
      write_chunks_lem accepts (chunks_of deduped) [],
      (
        chunks_from-concat (suc (length deduped)) 0 deduped (omega arith),
        chunks_from-bound (suc (length deduped)) 0 deduped,
      ),
    )
