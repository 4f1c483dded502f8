-- ===== src/Postings/Fit.antt =====
-- What holds of the jobs that are made of postings.
use jobs_scraper.Prelude.{
  ℕ, suc, ◌≤◌, ◌≡◌, ◌≢◌, ◌⊎◌, ◌∙◌, refl, sym, subst, inl, inr, Bool, true, false, not, ◌&&◌,
  Bool-cases, Option, none, some, List, [], ◌∷◌, ◌++◌, length, length-append, length-take, take,
  leb, ltb, All, arith, ◌==◌ as nat_beq,
}
use jobs_scraper.Prelude.Int.{ℤ, pos, ◌≤ℤ◌}
use jobs_scraper.Prelude.Keys.{◌==◌, nat_eq, list_eq, member, Distinct, Distinct-snoc}
use jobs_scraper.Prelude.Text.{
  Text, Unicode, codes, trim_space, trim_left_by, trim_right_by, push_kept, is_space, to_upper,
  filled,
}
use jobs_scraper.Jobs.{Time, Job, min_salary}
use jobs_scraper.Postings.{Numbers, Value, Fields, get, text_at, field_of}
use jobs_scraper.Postings.Salary.{
  Period, normalize_period, max_int_32, yearly, yearly_at, salary_per_year, objects, number_at,
  value_range, range_per_year, salary_of, yearly_salary, periods_per_year,
}
use jobs_scraper.Postings.Places.{
  max_places, clean_tags, address_or_name, address_text, places_from,
}
use jobs_scraper.Postings.Mapping.{
  Reading, max_description_runes, truncate_runes, title_of, valid_through, job_of, to_job, all_tags,
  text_field,
}

module _ (p : ℕ → Bool) where
  length-trim_left_by : (s : Text) → length (trim_left_by p s) ≤ length s
  length-trim_left_by [] = omega arith
  length-trim_left_by (c ∷ s) = ground (arith, length-trim_left_by s)

  length-push_kept : (c : ℕ) (s : Text) → length (push_kept p c s) ≤ suc (length s)
  length-push_kept c [] = ground arith
  length-push_kept c (d ∷ s) = omega arith

  length-trim_right_by : (s : Text) → length (trim_right_by p s) ≤ length s
  length-trim_right_by [] = omega arith
  length-trim_right_by (c ∷ s) =
      omega (arith, length-push_kept c (trim_right_by p s), length-trim_right_by s)

-- A text that is cut has at most one character more than the limit, its ellipsis.
length-truncate_runes : (s : Text) (limit : ℕ) → length (truncate_runes s limit) ≤ suc limit
unfolding truncate_runes
length-truncate_runes s limit = elim (Bool-cases (leb (length s) limit)) [
  | inl short ↦ rw (short, truncate_runes) (ground arith)
  | inr long ↦
      let front = take limit s in
      rw (long, truncate_runes)
        (omega (
          arith,
          length-append {0} (trim_space front) (0x2026 ∷ []),
          length-trim_right_by is_space (trim_left_by is_space front),
          length-trim_left_by is_space front,
          length-take {0} limit s,
        ))
]

-- No tag is blank.
clean_tags-filled :
    (unescape : Text → Text) (tags : List Text) → All (λ t. t ≢ []) (clean_tags unescape tags)
unfolding clean_tags
clean_tags-filled unescape [] = tt
clean_tags-filled unescape (tag ∷ rest) = elim (Bool-cases (trim_space (unescape tag) == [])) [
  | inl blank ↦ rw (blank, clean_tags) (clean_tags-filled unescape rest)
  | inr clean ↦
      rw (clean, clean_tags)
        (filled (trim_space (unescape tag)) clean, clean_tags-filled unescape rest)
]

module _ (n : Numbers) where
  -- A salary that is set lies in the range of the column, or was made of no number.
  abbrev pub InRange : Option ℤ → Type 0
  InRange none = Unit {0}
  InRange (some salary) =
      ((pos min_salary ≤ℤ salary) × (salary ≤ℤ pos max_int_32))
      ⊎ ((x : n.Float) × (n.is_number x ≡ false) × (n.round x ≡ salary))

  -- Rounding a number stays within whole bounds.
  abbrev pub RoundsWithin : Type 0
  RoundsWithin =
      (x : n.Float)
      → n.is_number x ≡ true
      → n.below x min_salary ≡ false
      → n.above x max_int_32 ≡ false
      → (pos min_salary ≤ℤ n.round x) × (n.round x ≤ℤ pos max_int_32)

  yearly-InRange : RoundsWithin → (x : n.Float) → InRange (yearly n x)
  unfolding yearly
  yearly-InRange rounds x = elim (Bool-cases (n.below x min_salary)) [
    | inl low ↦ rw (low, yearly) tt
    | inr enough ↦ elim (Bool-cases (n.above x max_int_32)) [
      | inl high ↦ rw (enough, high, yearly) tt
      | inr fits ↦ rw (enough, fits, yearly) (of_number (Bool-cases (n.is_number x)) enough fits)
    ]
  ]
    where
      of_number :
          (n.is_number x ≡ true) ⊎ (n.is_number x ≡ false)
          → n.below x min_salary ≡ false
          → n.above x max_int_32 ≡ false
          → InRange (some (n.round x))
      of_number (inl counts) enough fits = inl (rounds x counts enough fits)
      of_number (inr strange) enough fits = inr (x, strange, refl)

  abbrev AreInRange : Option ℤ × Option ℤ → Type 0
  AreInRange r = InRange r.0 × InRange r.1

  yearly_at-InRange :
      RoundsWithin
      → (low high : n.Float) (unit : Option Period) → AreInRange (yearly_at n low high unit)
  yearly_at-InRange rounds low high none = (tt, tt)
  yearly_at-InRange rounds low high (some unit) = (
    yearly-InRange rounds (n.times low (periods_per_year unit)),
    yearly-InRange rounds (n.times high (periods_per_year unit)),
  )

  salary_per_year-InRange :
      RoundsWithin
      → (u : Unicode) (low high : n.Float) (period currency : Text)
      → AreInRange (salary_per_year n u low high period currency)
  unfolding salary_per_year
  salary_per_year-InRange rounds u low high period currency =
      let c = to_upper u (trim_space currency) in
      elim (Bool-cases (not (c == []) && not (c == codes "USD"))) [
        | inl foreign ↦ rw (foreign, salary_per_year) (tt, tt)
        | inr dollars ↦
            rw (dollars, salary_per_year)
              (yearly_at-InRange rounds low high (normalize_period u period))
      ]

  range_per_year-InRange :
      RoundsWithin
      → (u : Unicode) (currency : Text) (range : n.Float × n.Float × Text)
      → AreInRange (range_per_year n u currency range)
  range_per_year-InRange rounds u currency (low, high, unit) =
      salary_per_year-InRange rounds u low high unit currency

  yearly_salary-InRange :
      RoundsWithin → (u : Unicode) (base : Option (Value n)) → AreInRange (yearly_salary n u base)
  unfolding yearly_salary
  yearly_salary-InRange rounds u base = of_amounts (objects n base)
    where
      of_amounts : (amounts : List (Fields n)) → AreInRange (salary_of n u amounts)
      of_amounts [] = (tt, tt)
      of_amounts (amount ∷ rest) =
          let value = get n (codes "value") amount in
          range_per_year-InRange rounds u (text_at n (get n (codes "currency") amount))
            (value_range n (text_at n (get n (codes "unitText") amount)) value (number_at n value))

  -- At most three places, each named once.
  places_from-bound :
      (places : List Text) (rest : List (Fields n))
      → (length places ≤ max_places) × Distinct places
      → (length (places_from n places rest) ≤ max_places) × Distinct (places_from n places rest)
  unfolding places_from
  places_from-bound places [] h = h
  places_from-bound places (place ∷ rest) h =
      let name = address_or_name n (address_text n (get n (codes "address") place)) place in
      elim (Bool-cases
        (not (name == []) && (not (member name places) && ltb (length places) max_places))) [
          | inr out ↦ rw (out, places_from) (places_from-bound places rest h)
          | inl new ↦
              rw (new, places_from)
                (places_from-bound (places ++ name ∷ []) rest (
                  ground (arith, length-append {0} places (name ∷ [])),
                  Distinct-snoc places name h.1 (ground arith),
                ))
        ]

module _ (r : Reading) (n : Numbers) where
  -- A job made of a posting that is read at a time: it has the page's URL, the posting has a title and
  -- is not past its end, no tag is blank, the description is bounded, and salaries are in range.
  abbrev pub IsFitJob : Fields n → Text → Time → Job → Type 0
  IsFitJob posting page_url now job =
      (job.url ≡ page_url)
      × ((title_of r n posting ≢ [])
          × (((valid_through r n posting ≡ 0) ⊎ (now ≤ valid_through r n posting))
              × (All (λ t. t ≢ []) job.tags
                  × ((length job.description ≤ suc max_description_runes)
                      × (InRange n job.salary_min × InRange n job.salary_max)))))

  current :
      (until now : Time)
      → (not (nat_beq until 0) && ltb until now) ≡ false
      → (until ≡ 0) ⊎ (now ≤ until)
  current until now h = elim (Bool-cases (nat_beq until 0)) [
    | inl open_ended ↦ inl (ground arith)
    | inr ends ↦ inr (ground arith)
  ]

  job_of-IsFitJob :
      (posting : Fields n) (page_url company : Text) (now : Time)
      → RoundsWithin n
      → title_of r n posting ≢ []
      → (valid_through r n posting ≡ 0) ⊎ (now ≤ valid_through r n posting)
      → IsFitJob posting page_url now (job_of r n posting page_url company)
  unfolding job_of
  job_of-IsFitJob posting page_url company now rounds titled open_still =
      let base = field_of n r.unicode (codes "baseSalary") posting in
      let salary = yearly_salary-InRange n rounds r.unicode base in
      (
        refl,
        (
          titled,
          (
            open_still,
            (
              clean_tags-filled r.unescape (all_tags r n posting),
              (
                length-truncate_runes (r.strip_html (text_field r n (codes "description") posting))
                    max_description_runes,
                salary,
              ),
            ),
          ),
        ),
      )

  -- Where rounding a number from 1,000 to 2,147,483,647 stays in that range, a job that is made of a
  -- posting has the page's URL; the posting has a title, and no `validThrough` that is before the
  -- current time; no tag is empty; the description has at most 20,001 characters; and each salary that
  -- is set is from 1,000 to 2,147,483,647, or is what rounding makes of a value that is no number.
  pub to_job-IsFitJob :
      (posting : Fields n) (page_url company : Text) (now : Time) (job : Job)
      → RoundsWithin n
      → to_job r n posting page_url company now ≡ some job
      → IsFitJob posting page_url now job
  unfolding to_job
  to_job-IsFitJob posting page_url company now job rounds made =
      elim (Bool-cases (title_of r n posting == [])) [
        | inl untitled ↦ absurd (no_job (sym (rw (untitled, to_job) refl) ∙ made))
        | inr titled ↦
            elim (Bool-cases (
              not (nat_beq (valid_through r n posting) 0) && ltb (valid_through r n posting) now)) [
                | inl expired ↦ absurd (no_job (sym (rw (titled, expired, to_job) refl) ∙ made))
                | inr open_still ↦
                    let same : some (job_of r n posting page_url company) ≡ some job =
                      sym (rw (titled, open_still, to_job) refl) ∙ made in
                    let its : job_of r n posting page_url company ≡ job = cc in
                    subst (IsFitJob posting page_url now) its (
                      job_of-IsFitJob posting page_url company now rounds
                        (filled (title_of r n posting) titled)
                        (current (valid_through r n posting) now open_still))
              ]
      ]
    where
      no_job : none ≡ some job → ⊥
      no_job e = ground arith
