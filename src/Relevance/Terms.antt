-- ===== src/Relevance/Terms.antt =====
-- Which terms a query has.
use jobs_scraper.Prelude.{
  ◌≤◌, ◌<◌, ◌≡◌, ◌∙◌, refl, sym, subst, inl, inr, true, false, Bool-cases, ◌||◌, List, [], ◌∷◌,
  ◌++◌, map, map-append, length, length-append, leb, arith,
}
use jobs_scraper.Prelude.Keys.{
  ◌==◌, nat_eq, list_eq, list_beq_iff, member, member-append, Distinct, Distinct-snoc,
}
use jobs_scraper.Prelude.Text.{Text, Unicode, to_lower}
use jobs_scraper.Tailoring.{ExtractedResume}
use jobs_scraper.Relevance.{max_resume_query_terms, unique_from, resume_terms, query_terms}

-- At most 40 terms that differ even in lower case, each of them from a list.
abbrev pub AreTerms : Unicode → List Text → List Text → Type 0
AreTerms u source terms =
    (length terms ≤ max_resume_query_terms)
    × (Distinct (map (to_lower u) terms)
        × ((t : Text) → member t terms ≡ true → member t source ≡ true))

unique_from-AreTerms :
    (u : Unicode) (source terms seen unique : List Text)
    → length unique < max_resume_query_terms
    → Distinct (map (to_lower u) unique)
    → ((k : Text) → member k seen ≡ member k (map (to_lower u) unique))
    → ((t : Text) → member t unique ≡ true → member t source ≡ true)
    → ((t : Text) → member t terms ≡ true → member t source ≡ true)
    → AreTerms u source (unique_from u terms seen unique)
unfolding unique_from
unique_from-AreTerms u source [] seen unique lt d same own rest = (omega arith, (d, own))
unique_from-AreTerms u source (term ∷ terms) seen unique lt d same own rest =
    let key = to_lower u term in
    let longer = unique ++ term ∷ [] in
    let here : member term source ≡ true = rest term (ground (arith, list_beq_iff term term)) in
    let later = λ (t : Text) (m : member t terms ≡ true). rest t (ground arith) in
    elim (Bool-cases ((key == []) || member key seen)) [
      | inl skip ↦
          rw (skip, unique_from)
            (unique_from-AreTerms u source terms seen unique lt d same own later)
      | inr fresh ↦
          let new : member key (map (to_lower u) unique) ≡ false = sym (same key) ∙ ground arith in
          let distinct : Distinct (map (to_lower u) longer) =
            subst Distinct (sym (map-append (to_lower u) unique (term ∷ [])))
              (Distinct-snoc (map (to_lower u) unique) key d new) in
          let owned : (t : Text) → member t longer ≡ true → member t source ≡ true = λ t m.
            ground (arith, member-append t unique (term ∷ []), own t, list_beq_iff t term, here) in
          elim (Bool-cases (leb max_resume_query_terms (length longer))) [
            | inl full ↦
                rw (fresh, full, unique_from)
                  (omega (arith, length-append unique (term ∷ [])), (distinct, owned))
            | inr room ↦
                rw (fresh, room, unique_from)
                  (unique_from-AreTerms u source terms (key ∷ seen) longer (ground arith) distinct
                    (λ k. ground (
                      arith,
                      same k,
                      map-append (to_lower u) unique (term ∷ []),
                      member-append k (map (to_lower u) unique) (key ∷ []),
                    ))
                    owned later)
          ]
    ]

-- Whatever the resume holds, its query has at most 40 terms, no two of them equal in lower case,
-- and every one of them is a term of the resume.
pub query_terms-AreTerms :
    (split_pattern : Text → List Text) (u : Unicode) (r : ExtractedResume)
    → AreTerms u (resume_terms split_pattern r) (query_terms split_pattern u r)
unfolding query_terms
query_terms-AreTerms split_pattern u r =
    unique_from-AreTerms u (resume_terms split_pattern r) (resume_terms split_pattern r) [] []
      (omega arith) tt (λ k. refl) (λ t m. absurd (ground arith)) (λ t m. m)
