-- ===== src/Digest.antt =====
-- The digest of new jobs for one profile (backend/digest/digest.go): which jobs it names, and when
-- it counts as sent.
pub mod Sending
pub mod Fits
mod Tests
use jobs_scraper.Prelude.{
  ℕ, suc, ◌-◌, ◌*◌, ◌≡◌, Bool, true, false, Option, none, some, List, [], ◌∷◌, ◌++◌, keep, length,
  if◌then◌else◌,
}
use jobs_scraper.Prelude.Keys.{◌==◌, nat_eq, list_eq}
use jobs_scraper.Prelude.Text.{Text, Unicode}
use jobs_scraper.Jobs.{Job, Time}
use jobs_scraper.Tailoring.{ExtractedResume}
use jobs_scraper.Relevance.{search_query}

-- `firstRunLookback`, in nanoseconds.
abbrev pub first_run_lookback : ℕ
first_run_lookback = 24 * 3_600_000_000_000

-- The floating point numbers of the scores.
pub record Scores : Type 1 where
  pub Score : Type 0
  pub nothing : Score
  -- `x > y`
  pub above : Score → Score → Bool
  -- `x <= 0`
  pub is_nothing : Score → Bool
  -- `x / y >= goodFitRatio`
  pub is_fit : Score → Score → Bool

module _ (f : Scores) where
  pub record Candidate : Type 0 where
    pub job : Job
    pub match_score : Option f.Score

  abbrev pub better : f.Score → Option f.Score → f.Score
  better best none = best
  better best (some s) = if f.above s best then s else best

  unfoldable pub best_score : List Candidate → f.Score → f.Score
  best_score [] best = best
  best_score (c ∷ candidates) best = best_score candidates (better best c.match_score)

  abbrev pub fits : f.Score → Option f.Score → Bool
  fits best none = false
  fits best (some s) = f.is_fit s best

  unfoldable pub good_fit_jobs : List Candidate → List Candidate
  good_fit_jobs candidates =
      let best = best_score candidates f.nothing in
      if f.is_nothing best then [] else keep (λ c. fits best c.match_score) candidates

-- A profile that wants the digest.
pub record DigestProfile : Type 0 where
  pub profile_id : ℕ
  pub email : Text
  pub last_digest_sent_at : Option Time

-- What `GetActiveResumeExtraction` answers.
pub data Extraction : Type 0 where
  broken absent : Extraction
  extracted : ExtractedResume → Extraction

-- What a digest does outside, in order.
pub data Effect (f : Scores) : Type 0 where
  mail : Text → List (Candidate f) → Effect f
  mark_sent : ℕ → Time → Effect f

pub data Result : Type 0 where
  done : Result
  no_extraction no_search no_mail no_mark : Result

-- The services that a digest calls: the search answers a query since an instant, `delivers` and
-- `marks` tell whether the mail and the update succeed.
pub record Services (f : Scores) : Type 0 where
  pub extraction : Extraction
  pub search : Text → Time → Option (List (Candidate f))
  pub delivers : Bool
  pub marks : Bool

module _ (f : Scores) (w : Services f) where
  abbrev pub mark : DigestProfile → Time → List (Effect f) → Result × List (Effect f)
  mark profile sent_at before =
      if w.marks
      then (done, before ++ mark_sent profile.profile_id sent_at ∷ [])
      else (no_mark, before)

  abbrev pub send_matched : DigestProfile → Time → List (Candidate f) → Result × List (Effect f)
  send_matched profile sent_at [] = mark profile sent_at []
  send_matched profile sent_at (c ∷ matched) =
      if w.delivers
      then mark profile sent_at (mail profile.email (c ∷ matched) ∷ [])
      else (no_mail, [])

  abbrev pub send_found :
      DigestProfile → Time → Option (List (Candidate f)) → Result × List (Effect f)
  send_found profile sent_at none = (no_search, [])
  send_found profile sent_at (some candidates) =
      send_matched profile sent_at (good_fit_jobs f candidates)

  abbrev pub window_start : DigestProfile → Time → Time
  window_start profile now = elim profile.last_digest_sent_at [
    | none ↦ now - first_run_lookback
    | some sent ↦ sent
  ]

  -- At the time `now`, where the search returns at `sent_at`.
  abbrev pub send_for_extraction :
      (Text → List Text)
      → Unicode
      → DigestProfile
      → Time
      → Time
      → Extraction
      → Result × List (Effect f)
  send_for_extraction split_pattern u profile now sent_at broken = (no_extraction, [])
  send_for_extraction split_pattern u profile now sent_at absent = (done, [])
  send_for_extraction split_pattern u profile now sent_at (extracted resume) =
      let query = search_query split_pattern u resume in
      if query == []
      then (done, [])
      else send_found profile sent_at (w.search query (window_start profile now))

  unfoldable pub send_for_profile :
      (Text → List Text) → Unicode → DigestProfile → Time → Time → Result × List (Effect f)
  send_for_profile split_pattern u profile now sent_at =
      send_for_extraction split_pattern u profile now sent_at w.extraction
