-- ===== src/Scraper/Cycle.antt =====
-- What a cycle writes: the newest unexpired jobs, one for each key, within the cap.
use jobs_scraper.Prelude.{
  ℕ, zero, suc, ◌-◌, ◌≤◌, ◌<◌, ◌≡◌, ◌⊎◌, refl, inl, inr, Bool, true, false, Bool-cases, not, ◌||◌,
  Option, List, [], ◌∷◌, ◌++◌, map, length, take, drop, keep, length-take, take-append-drop, leb,
  ltb, ◌==◌ as nat_beq, All, All-take, arith,
}
use jobs_scraper.Prelude.Int.{ℤ}
use jobs_scraper.Prelude.Keys.{Eq, count}
use jobs_scraper.Prelude.Sort.{
  sort_newest, sort_newest-IsNewestFirst, length-sort_newest, All-sort_newest, drop-le-take,
  count-sort_newest,
}
use jobs_scraper.Prelude.Text.{Text}
use jobs_scraper.Jobs.{Job, Time}
use jobs_scraper.Scraper.{
  drop_expired_jobs, cap_newest_jobs, DedupeKey, dedupe_key_eq, SourceResult, key_for, fetch_all,
  Call, delete_expired, write, embed, to_write, run_scraper, max_jobs, job_max_age,
}
use jobs_scraper.Scraper.Merge.{fetch_all-count}

abbrev posted : Job → ℕ
posted j = j.posted_at

not_leb : (a b : ℕ) → leb a b ≡ false → b < a
not_leb a b h = ground arith

-- The cap keeps a list that fits as it is. Of a longer list it keeps exactly as many jobs as it
-- allows, the newest first, and none that it drops is newer than one that it keeps.
pub cap_newest_jobs-newest :
    (jobs : List Job) (max : ℕ)
    → ((length jobs ≤ max) × (cap_newest_jobs jobs max ≡ jobs))
      ⊎ ((length (cap_newest_jobs jobs max) ≡ max)
          × ((dropped : List Job) × (cap_newest_jobs jobs max ++ dropped ≡ sort_newest posted jobs)
              × All (λ d. All (λ k. d.posted_at ≤ k.posted_at) (cap_newest_jobs jobs max)) dropped))
unfolding cap_newest_jobs
cap_newest_jobs-newest jobs max = elim (Bool-cases (leb (length jobs) max)) [
  | inl fits ↦ inl (ground arith, rw fits refl)
  | inr over ↦
      let sorted = sort_newest posted jobs in
      rw over (
        inr (
          omega (
            arith,
            length-take max sorted,
            length-sort_newest posted jobs,
            not_leb (length jobs) max over,
          ),
          (
            drop max sorted,
            take-append-drop max sorted,
            drop-le-take posted max sorted (sort_newest-IsNewestFirst posted jobs),
          ),
        ))
]

module _ {ℓ κ} {A : Type ℓ} {B : Type κ} ⦃e : Eq B⦄ (f : A → B) (x : B) where
  count-take : (n : ℕ) (xs : List A) → count x (map f (take n xs)) ≤ count x (map f xs)
  count-take zero xs = omega arith
  count-take (suc n) [] = omega arith
  count-take (suc n) (y ∷ xs) = omega (arith, count-take n xs)

  count-map-keep : (p : A → Bool) (xs : List A) → count x (map f (keep p xs)) ≤ count x (map f xs)
  count-map-keep p [] = omega arith
  count-map-keep p (y ∷ xs) = ground (arith, count-map-keep p xs)

-- A job that is undated or not older than the cutoff.
abbrev pub Unexpired : Time → Job → Type 0
Unexpired cutoff job = (job.posted_at ≡ 0) ⊎ (cutoff ≤ job.posted_at)

drop_expired_jobs-Unexpired :
    (jobs : List Job) (cutoff : Time) → All (Unexpired cutoff) (drop_expired_jobs jobs cutoff)
unfolding drop_expired_jobs
drop_expired_jobs-Unexpired [] cutoff = tt
drop_expired_jobs-Unexpired (job ∷ jobs) cutoff =
    ground (arith, drop_expired_jobs-Unexpired jobs cutoff)

cap_newest_jobs-All {ℓ} :
    (P : Job → Type ℓ) (jobs : List Job) (max : ℕ) → All P jobs → All P (cap_newest_jobs jobs max)
unfolding cap_newest_jobs
cap_newest_jobs-All P jobs max h = elim (Bool-cases (leb (length jobs) max)) [
  | inl fits ↦ rw fits h
  | inr over ↦ rw over (All-take P max (sort_newest posted jobs) (All-sort_newest posted P jobs h))
]

length-cap_newest_jobs : (jobs : List Job) (max : ℕ) → length (cap_newest_jobs jobs max) ≤ max
length-cap_newest_jobs jobs max = elim (cap_newest_jobs-newest jobs max) [
  | inl (fits, same) ↦ rw same fits
  | inr (full, rest) ↦ omega arith
]

cap_newest_jobs-count :
    (key : Job → DedupeKey) (k : DedupeKey) (jobs : List Job) (max : ℕ)
    → count k (map key (cap_newest_jobs jobs max)) ≤ count k (map key jobs)
unfolding cap_newest_jobs
cap_newest_jobs-count key k jobs max = elim (Bool-cases (leb (length jobs) max)) [
  | inl fits ↦ rw fits (omega arith)
  | inr over ↦ rw over (
      omega (
        arith,
        count-take key k max (sort_newest posted jobs),
        count-sort_newest posted key k jobs,
      ))
]

-- What a cycle may write: within the cap, unexpired, and one job for each key.
abbrev pub IsFit : (Job → DedupeKey) → Time → Call → Type 0
IsFit key now (write jobs) =
    (length jobs ≤ max_jobs)
    × (All (Unexpired (now - job_max_age)) jobs × ((k : DedupeKey) → count k (map key jobs) ≤ 1))
IsFit key now delete_expired = Unit
IsFit key now embed = Unit

module _ (calendar : Time → ℕ × ℕ) (parse_salary : Text → Option ℤ × Option ℤ) where
  to_write-IsFit :
      (results : List SourceResult) (now : Time)
      → IsFit
          (key_for calendar parse_salary)
          now
          (write (to_write calendar parse_salary results now))
  unfolding drop_expired_jobs
  to_write-IsFit results now =
      let key = key_for calendar parse_salary in
      let all = fetch_all calendar parse_salary results in
      let current = drop_expired_jobs all (now - job_max_age) in
      (
        length-cap_newest_jobs current max_jobs,
        (
          cap_newest_jobs-All (Unexpired (now - job_max_age)) current max_jobs
              (drop_expired_jobs-Unexpired all (now - job_max_age)),
          λ k. ground (
            arith,
            cap_newest_jobs-count key k current max_jobs,
            count-map-keep key k
                (λ job. nat_beq job.posted_at 0 || not (ltb job.posted_at (now - job_max_age))) all,
            fetch_all-count calendar parse_salary results k,
          ),
        ),
      )

-- In whatever way the sources end and whether or not the cycle is cancelled or its write fails,
-- what the cycle writes is at most 5,000 jobs, each undated or posted no earlier than 30 days
-- before, and at
-- most one for each key (company, title, location, year and month).
pub run_scraper-IsFit :
    (calendar : Time → ℕ × ℕ) (parse_salary : Text → Option ℤ × Option ℤ)
    (results : List SourceResult) (cancelled : Bool) (now : Time) (written : Bool)
    → All
        (IsFit (key_for calendar parse_salary) now)
        (run_scraper calendar parse_salary results cancelled now written)
unfolding run_scraper
run_scraper-IsFit calendar parse_salary results true now written = tt
run_scraper-IsFit calendar parse_salary results false now true =
    (tt, (to_write-IsFit calendar parse_salary results now, (tt, (tt, tt))))
run_scraper-IsFit calendar parse_salary results false now false =
    (tt, (to_write-IsFit calendar parse_salary results now, tt))
