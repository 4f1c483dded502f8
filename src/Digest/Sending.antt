-- ===== src/Digest/Sending.antt =====
-- When a digest counts as sent.
use jobs_scraper.Prelude.{
  ◌≡◌, ◌≢◌, ◌⊎◌, refl, inl, inr, Bool-cases, Option, none, some, List, [], ◌∷◌, arith,
}
use jobs_scraper.Prelude.Keys.{◌==◌, nat_eq, list_eq, list_beq_iff}
use jobs_scraper.Prelude.Text.{Text, Unicode}
use jobs_scraper.Jobs.{Time}
use jobs_scraper.Tailoring.{ExtractedResume}
use jobs_scraper.Relevance.{search_query}
use jobs_scraper.Digest.{
  Scores, Candidate, good_fit_jobs, DigestProfile, Extraction, broken, absent, extracted, Effect,
  mail, mark_sent, Result, done, no_mark, Services, send_matched, send_found, window_start,
  send_for_extraction, send_for_profile,
}

module _ (f : Scores) (w : Services f) (split_pattern : Text → List Text) (u : Unicode) where
  -- The good fits among the jobs that the search for the resume found in the profile's window.
  abbrev pub AreFound : DigestProfile → Time → List (Candidate f) → Type 0
  AreFound profile now matched =
      (resume : ExtractedResume) × (candidates : List (Candidate f)) × (w.extraction
        ≡ extracted resume)
      × (w.search (search_query split_pattern u resume) (window_start f w profile now)
          ≡ some candidates)
      × (good_fit_jobs f candidates ≡ matched)

  -- The profile has no resume to search with, or one without a term to search for.
  abbrev pub NothingToAsk : Type 0
  NothingToAsk =
      (w.extraction ≡ absent)
      ⊎ ((resume : ExtractedResume) × (w.extraction ≡ extracted resume)
          × (search_query split_pattern u resume ≡ []))

  -- How a digest may end: without an effect, in an error or with nothing to ask; marked with no mail,
  -- where no job found is a good fit; mailed and marked; or mailed and not marked, in an error.
  abbrev pub IsHonest : DigestProfile → Time → Time → Result × List (Effect f) → Type 0
  IsHonest profile now sent_at (r, effects) =
      ((effects ≡ []) × ((r ≢ done) ⊎ NothingToAsk))
      ⊎ (((r ≡ done)
            × (effects ≡ mark_sent profile.profile_id sent_at ∷ [])
            × AreFound profile now [])
          ⊎ ((matched : List (Candidate f)) × (matched ≢ [])
              × AreFound profile now matched
              × (((r ≡ done)
                    × (effects
                        ≡ mail profile.email matched ∷ mark_sent profile.profile_id sent_at ∷ []))
                  ⊎ ((r ≡ no_mark) × (effects ≡ mail profile.email matched ∷ [])))))

  send_matched-IsHonest :
      (profile : DigestProfile) (now sent_at : Time) (matched : List (Candidate f))
      → AreFound profile now matched
      → IsHonest profile now sent_at (send_matched f w profile sent_at matched)
  send_matched-IsHonest profile now sent_at [] h = elim (Bool-cases w.marks) [
    | inl marked ↦ rw marked (inr (inl (refl, refl, h)))
    | inr lost ↦ rw lost (inl (refl, inl (λ e. ground arith)))
  ]
  send_matched-IsHonest profile now sent_at (c ∷ matched) h =
      let some_job : c ∷ matched ≢ [] = λ e. ground arith in
      elim (Bool-cases w.delivers) [
        | inr lost ↦ rw lost (inl (refl, inl (λ e. ground arith)))
        | inl delivered ↦ elim (Bool-cases w.marks) [
          | inl marked ↦
              rw (delivered, marked) (inr (inr (c ∷ matched, some_job, h, inl (refl, refl))))
          | inr unmarked ↦
              rw (delivered, unmarked) (inr (inr (c ∷ matched, some_job, h, inr (refl, refl))))
        ]
      ]

  send_found-IsHonest :
      (profile : DigestProfile) (now sent_at : Time) (resume : ExtractedResume)
      (found : Option (List (Candidate f)))
      → w.extraction ≡ extracted resume
      → w.search (search_query split_pattern u resume) (window_start f w profile now) ≡ found
      → IsHonest profile now sent_at (send_found f w profile sent_at found)
  send_found-IsHonest profile now sent_at resume none e h = inl (refl, inl (λ same. ground arith))
  send_found-IsHonest profile now sent_at resume (some candidates) e h =
      send_matched-IsHonest profile now sent_at (good_fit_jobs f candidates)
        (resume, candidates, e, h, refl)

  send_for_extraction-IsHonest :
      (profile : DigestProfile) (now sent_at : Time) (e : Extraction)
      → w.extraction ≡ e
      → IsHonest profile now sent_at (send_for_extraction f w split_pattern u profile now sent_at e)
  send_for_extraction-IsHonest profile now sent_at broken h = inl (refl, inl (λ same. ground arith))
  send_for_extraction-IsHonest profile now sent_at absent h = inl (refl, inr (inl h))
  send_for_extraction-IsHonest profile now sent_at (extracted resume) h =
      let query = search_query split_pattern u resume in
      elim (Bool-cases (query == [])) [
        | inl empty ↦ rw empty (inl (refl, inr (inr (resume, h, (list_beq_iff query []).0 empty))))
        | inr given ↦ rw given (send_found-IsHonest profile now sent_at resume _ h refl)
      ]

-- Whatever the services answer, a digest ends in one of four ways. It has no effect, and then it
-- ends in an error, or there is no resume or no term to search with. It is marked as sent with no
-- mail, and then the search succeeded and none of the jobs that it found is a good fit. It mails the
-- good fits among the jobs found, at least one, in one mail to the profile's address, and is then
-- marked as sent. Or it mails them and the mark fails, which is an error. The search is the one for
-- the resume's query, since the profile's last digest or since a day ago.
pub send_for_profile-IsHonest :
    (f : Scores) (w : Services f) (split_pattern : Text → List Text) (u : Unicode)
    (profile : DigestProfile) (now sent_at : Time)
    → IsHonest f w split_pattern u profile now sent_at
        (send_for_profile f w split_pattern u profile now sent_at)
unfolding send_for_profile
send_for_profile-IsHonest f w split_pattern u profile now sent_at =
    send_for_extraction-IsHonest f w split_pattern u profile now sent_at w.extraction refl
