-- ===== src/Write/Dedupe.antt =====
-- What deduplication by URL keeps.
use jobs_scraper.Prelude.{
  ℕ, suc, ◌+◌, ◌≡◌, ◌∙◌, refl, sym, ap, inl, inr, Bool-cases, ◌||◌, ◌&&◌, Option, none, some,
  Option-cases, List, [], ◌∷◌, ◌++◌, map, length, set, if◌then◌else◌, arith,
}
use jobs_scraper.Prelude.Keys.{
  Eq, ◌==◌, nat_eq, list_eq, lookup, insert, lookup-insert, member, count, mark,
}
use jobs_scraper.Prelude.Text.{Text}
use jobs_scraper.Jobs.{Job}
use jobs_scraper.Write.{dedupe_from, dedupe_jobs_by_url}

abbrev shift : Option ℕ → Option ℕ
shift none = none
shift (some i) = some (suc i)

shift-none : (o : Option ℕ) → shift o ≡ none → o ≡ none
shift-none none h = refl
shift-none (some i) h = absurd (ground arith)

shift-some : (o : Option ℕ) (i : ℕ) → shift o ≡ some i → (j : ℕ) × ((o ≡ some j) × (i ≡ suc j))
shift-some none i h = absurd (ground arith)
shift-some (some j) i h = (j, (refl, ground arith))

first_place : (i : ℕ) → some 0 ≡ some i → 0 ≡ i
first_place i h = ground arith

module _ {ℓ κ} {A : Type ℓ} {K : Type κ} ⦃e : Eq K⦄ (key : A → K) where
  -- In the place of the element with the same key, or at the end.
  abbrev put : A → List A → List A
  put a [] = a ∷ []
  put a (b ∷ bs) = if key b == key a then a ∷ bs else b ∷ put a bs

  abbrev position : K → List A → Option ℕ
  position k [] = none
  position k (b ∷ bs) = if key b == k then some 0 else shift (position k bs)

  -- The first element with a key.
  abbrev pub first_with : K → List A → Option A
  first_with k [] = none
  first_with k (b ∷ bs) = if key b == k then some b else first_with k bs

  -- The last element with a key.
  abbrev pub last_with : K → List A → Option A
  last_with k [] = none
  last_with k (b ∷ bs) = elim (last_with k bs) [
    | some found ↦ some found
    | none ↦ if key b == k then some b else none
  ]

  put-new : (a : A) (bs : List A) → position (key a) bs ≡ none → put a bs ≡ bs ++ a ∷ []
  put-new a [] h = refl
  put-new a (b ∷ bs) h = elim (Bool-cases (key b == key a)) [
    | inl same ↦ absurd (ground arith)
    | inr other ↦
        rw other (ap (λ r. b ∷ r) (put-new a bs (shift-none (position (key a) bs) (rw other at h))))
  ]

  put-known : (a : A) (bs : List A) (i : ℕ) → position (key a) bs ≡ some i → put a bs ≡ set bs i a
  put-known a [] i h = absurd (ground arith)
  put-known a (b ∷ bs) i h = elim (Bool-cases (key b == key a)) [
    | inl same ↦ rw (sym (first_place i (rw same at h)), same) refl
    | inr other ↦
        let (j, (found, same)) = shift-some (position (key a) bs) i (rw other at h) in
        rw (same, other) (ap (λ r. b ∷ r) (put-known a bs j found))
  ]

  position-new :
      (a : A) (bs : List A) (k : K)
      → position (key a) bs ≡ none
      → position k (put a bs) ≡ (if key a == k then some (length bs) else position k bs)
  position-new a [] k h = refl
  position-new a (b ∷ bs) k h = elim (Bool-cases (key b == key a)) [
    | inl same ↦ absurd (ground arith)
    | inr other ↦
        let rest = position-new a bs k (shift-none (position (key a) bs) (rw other at h)) in
        rw (other, rest)
          (ground (arith, e.agrees (key b) (key a), e.agrees (key b) k, e.agrees (key a) k))
  ]

  position-known :
      (a : A) (bs : List A) (i : ℕ) (k : K)
      → position (key a) bs ≡ some i
      → position k (put a bs) ≡ position k bs
  position-known a [] i k h = absurd (ground arith)
  position-known a (b ∷ bs) i k h = elim (Bool-cases (key b == key a)) [
    | inl same ↦ ground (arith, e.agrees (key b) (key a))
    | inr other ↦
        let (j, (found, same)) = shift-some (position (key a) bs) i (rw other at h) in
        rw other (rw (position-known a bs j k found) refl)
  ]

  first_with-put :
      (a : A) (bs : List A) (k : K)
      → first_with k (put a bs) ≡ (if key a == k then some a else first_with k bs)
  first_with-put a [] k = refl
  first_with-put a (b ∷ bs) k = ground (
    arith,
    e.agrees (key b) (key a),
    e.agrees (key b) k,
    e.agrees (key a) k,
    first_with-put a bs k,
  )

  member-put :
      (a : A) (bs : List A) (k : K)
      → member k (map key (put a bs)) ≡ ((k == key a) || member k (map key bs))
  member-put a [] k = refl
  member-put a (b ∷ bs) k =
      ground
        (arith, e.agrees (key b) (key a), e.agrees k (key b), e.agrees k (key a), member-put a bs k)

  count-put :
      (a : A) (bs : List A) (k : K)
      → count k (map key (put a bs))
          + (if (k == key a) && member (key a) (map key bs) then 1 else 0)
        ≡ count k (map key bs) + (if k == key a then 1 else 0)
  count-put a [] k = ground arith
  count-put a (b ∷ bs) k = ground (
    arith,
    e.agrees (key b) (key a),
    e.agrees k (key b),
    e.agrees k (key a),
    e.agrees (key a) (key b),
    count-put a bs k,
  )

  abbrev put_all : List A → List A → List A
  put_all [] bs = bs
  put_all (a ∷ xs) bs = put_all xs (put a bs)

  first_with-put_all :
      (k : K) (xs bs : List A)
      → first_with k (put_all xs bs)
        ≡ (elim (last_with k xs) [ some found ↦ some found | none ↦ first_with k bs ])
  first_with-put_all k [] bs = refl
  first_with-put_all k (a ∷ xs) bs =
      first_with-put_all k xs (put a bs) ∙ (elim (Option-cases (last_with k xs)) [
        | inl none_later ↦ rw none_later (first_with-put a bs k ∙ ground (arith, none_later))
        | inr (found, later) ↦ rw later refl
      ])

  put_all-once :
      (k : K) (xs bs : List A)
      → count k (map key bs) ≡ mark k (map key bs)
      → count k (map key (put_all xs bs))
        ≡ (if member k (map key xs) || member k (map key bs) then 1 else 0)
  put_all-once k [] bs h = h
  put_all-once k (a ∷ xs) bs h =
      put_all-once k xs (put a bs)
        (ground (arith, h, member-put a bs k, count-put a bs k, e.agrees k (key a)))
      ∙ rw (member-put a bs k) (ground arith)

abbrev pub url_of : Job → Text
url_of job = job.url

dedupe_from-put_all :
    (batch : List Job) (index : List (Text × ℕ)) (deduped : List Job)
    → ((u : Text) → lookup u index ≡ position url_of u deduped)
    → dedupe_from batch index deduped ≡ put_all url_of batch deduped
unfolding dedupe_from
dedupe_from-put_all [] index deduped h = refl
dedupe_from-put_all (job ∷ batch) index deduped h = elim (Option-cases (lookup job.url index)) [
  | inl unseen ↦
      let absent : position url_of job.url deduped ≡ none = sym (h job.url) ∙ unseen in
      rw (unseen, dedupe_from)
        (dedupe_from-put_all batch (insert job.url (length deduped) index) (deduped ++ job ∷ [])
            (λ u.
              lookup-insert job.url u (length deduped) index
              ∙ (rw (h u) (sym (position-new url_of job deduped u absent))
                  ∙ ap (position url_of u) (put-new url_of job deduped absent)))
          ∙ ap (put_all url_of batch) (sym (put-new url_of job deduped absent)))
  | inr (i, seen) ↦
      let present : position url_of job.url deduped ≡ some i = sym (h job.url) ∙ seen in
      rw (seen, dedupe_from)
        (dedupe_from-put_all batch index (set deduped i job) (λ u.
            h u
            ∙ (sym (position-known url_of job deduped i u present)
                ∙ ap (position url_of u) (put-known url_of job deduped i present)))
          ∙ ap (put_all url_of batch) (sym (put-known url_of job deduped i present)))
]

dedupe_jobs_by_url-put_all : (batch : List Job) → dedupe_jobs_by_url batch ≡ put_all url_of batch []
unfolding dedupe_jobs_by_url
dedupe_jobs_by_url-put_all batch = dedupe_from-put_all batch [] [] (λ u. refl)

-- For every URL, a deduplicated batch holds one job with that URL if the batch has any and none
-- otherwise, and it is the last job of the batch with that URL.
pub dedupe_jobs_by_url-last :
    (batch : List Job) (u : Text)
    → (count u (map url_of (dedupe_jobs_by_url batch)) ≡ mark u (map url_of batch))
      × (first_with url_of u (dedupe_jobs_by_url batch) ≡ last_with url_of u batch)
dedupe_jobs_by_url-last batch u = rw (dedupe_jobs_by_url-put_all batch) (
  put_all-once url_of u batch [] refl ∙ ground arith,
  first_with-put_all url_of u batch [] ∙ last,
)
  where
    last :
        ◌≡◌ {A = Option Job}
          (elim (last_with url_of u batch) [ some found ↦ some found | none ↦ none ])
          (last_with url_of u batch)
    last = elim (Option-cases (last_with url_of u batch)) [
      | inl e ↦ rw e refl
      | inr (found, e) ↦ rw e refl
    ]
