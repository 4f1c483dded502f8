-- ===== src/Tailoring/Skills.antt =====
-- The skills of a tailored resume: only the candidate's own, each once.
use jobs_scraper.Prelude.{
  ◌≡◌, ◌⊎◌, refl, inl, inr, Bool, if◌then◌else◌, true, false, Bool-cases, not, ◌&&◌, Option-cases,
  List, [], ◌∷◌, map, if_both, All, keep, ◌∙◌, sym, ap, ◌||◌, arith,
}
use jobs_scraper.Prelude.Keys.{
  ◌==◌, nat_eq, list_eq, member, Distinct, Within, Within-of, insert, member_self, lookup-insert,
  list_beq_iff, lookup, All-insert, All-lookup, Within-self, new-tail, not_member-new,
}
use jobs_scraper.Prelude.Text.{Text, Unicode, is_some}
use jobs_scraper.Tailoring.{skill_key, canonical_from, chosen_from, or_all, tailored_skills}

module _ (u : Unicode) where
  -- An entry of `canonical`: a skill of the resume under its own key.
  IsEntry : List Text → Text × Text → Type 0
  IsEntry original (key, skill) = (skill_key u skill ≡ key) × (member skill original ≡ true)

  -- The loop keeps entries of one list of skills, of which it has a part still to go.
  canonical_from-IsEntry :
      (original rest : List Text) (m : List (Text × Text))
      → Within rest original
      → All (IsEntry original) m
      → All (IsEntry original) (canonical_from u rest m)
  unfolding canonical_from IsEntry
  canonical_from-IsEntry original [] m w h = h
  canonical_from-IsEntry original (skill ∷ rest) m w h =
      let key = skill_key u skill in
      canonical_from-IsEntry original rest _ w.1 (
        if_both (All (IsEntry original)) (not (key == []) && not (is_some (lookup key m))) _ m
          (λ _. All-insert (IsEntry original) key skill m (refl, w.0) h) (λ _. h))

  chosen_from-Within :
      (original : List Text) (m : List (Text × Text)) (chosen seen : List Text)
      → All (IsEntry original) m
      → Within (chosen_from u m chosen seen) original
  unfolding chosen_from IsEntry
  chosen_from-Within original m [] seen h = tt
  chosen_from-Within original m (skill ∷ chosen) seen h =
      elim (Option-cases (lookup (skill_key u skill) m)) [
        | inl e ↦ rw (e, chosen_from) (chosen_from-Within original m chosen seen h)
        | inr (s, e) ↦ elim (Bool-cases (member (skill_key u skill) seen)) [
          | inl again ↦ rw (e, again, chosen_from) (chosen_from-Within original m chosen seen h)
          | inr first ↦
              rw (e, first, chosen_from)
                (
                  (All-lookup (IsEntry original) (skill_key u skill) m h e).1,
                  chosen_from-Within original m chosen (skill_key u skill ∷ seen) h,
                )
        ]
      ]

  unfoldable pub keys : List Text → List Text
  keys = map (skill_key u)

  -- A skill that is one of the candidate's, up to case and surrounding space, and is not blank.
  abbrev pub is_own : List Text → Text → Bool
  is_own original skill =
      let key = skill_key u skill in not (key == []) && member key (keys original)

  -- No listed skill has the key of one seen before, and no two have one key.
  chosen_from-new :
      (original : List Text) (m : List (Text × Text)) (chosen seen : List Text)
      → All (IsEntry original) m
      → All (λ k. member k seen ≡ false) (keys (chosen_from u m chosen seen))
        × Distinct (keys (chosen_from u m chosen seen))
  unfolding chosen_from IsEntry keys
  chosen_from-new original m [] seen h = (tt, tt)
  chosen_from-new original m (skill ∷ chosen) seen h =
      elim (Option-cases (lookup (skill_key u skill) m)) [
        | inl e ↦ rw (e, chosen_from) (chosen_from-new original m chosen seen h)
        | inr (s, e) ↦ elim (Bool-cases (member (skill_key u skill) seen)) [
          | inl again ↦ rw (e, again, chosen_from) (chosen_from-new original m chosen seen h)
          | inr first ↦
              let later = chosen_from-new original m chosen (skill_key u skill ∷ seen) h in
              let same : skill_key u s ≡ skill_key u skill =
                (All-lookup (IsEntry original) (skill_key u skill) m h e).0 in
              rw (e, first, chosen_from, same)
                (
                  (first, new-tail (skill_key u skill) _ seen later.0),
                  (not_member-new (skill_key u skill) _ seen later.0, later.1),
                )
        ]
      ]

  added :
      (k skill : Text) (rest : List Text) (m : List (Text × Text))
      → (is_some (
            lookup k (
              if not (skill_key u skill == []) && not (is_some (lookup (skill_key u skill) m))
              then insert (skill_key u skill) skill m
              else m))
          || (not (k == []) && member k (keys rest)))
        ≡ (is_some (lookup k m) || (not (k == []) && member k (keys (skill ∷ rest))))
  unfolding keys
  added k skill rest m = ground (
    arith,
    lookup-insert (skill_key u skill) k skill m,
    list_beq_iff k (skill_key u skill),
    list_beq_iff (skill_key u skill) k,
  )

  -- The keys of `canonical` are those of the skills seen, blank ones left out.
  canonical_from-keys :
      (k : Text) (rest : List Text) (m : List (Text × Text))
      → is_some (lookup k (canonical_from u rest m))
        ≡ (is_some (lookup k m) || (not (k == []) && member k (keys rest)))
  unfolding canonical_from keys
  canonical_from-keys k [] m = ground arith
  canonical_from-keys k (skill ∷ rest) m = canonical_from-keys k rest _ ∙ added k skill rest m

  -- The listed skills have the keys of the chosen ones that are the candidate's and are new.
  chosen_from-keys :
      (k : Text) (original : List Text) (m : List (Text × Text)) (chosen seen : List Text)
      → All (IsEntry original) m
      → ((j : Text) → is_some (lookup j m) ≡ (not (j == []) && member j (keys original)))
      → member k (keys (chosen_from u m chosen seen))
        ≡ (not (member k seen) && member k (keys (keep (is_own original) chosen)))
  unfolding chosen_from IsEntry keys
  chosen_from-keys k original m [] seen h own = ground arith
  chosen_from-keys k original m (skill ∷ chosen) seen h own =
      let key = skill_key u skill in
      elim (Option-cases (lookup key m)) [
        | inl e ↦
            let foreign : is_own original skill ≡ false = sym (own key) ∙ ap (λ o. is_some o) e in
            rw (e, foreign, chosen_from) (chosen_from-keys k original m chosen seen h own)
        | inr (s, e) ↦
            let known : is_own original skill ≡ true = sym (own key) ∙ ap (λ o. is_some o) e in
            elim (Bool-cases (member key seen)) [
              | inl again ↦
                  rw (e, again, known, chosen_from)
                    (chosen_from-keys k original m chosen seen h own
                      ∙ ground (arith, list_beq_iff k key))
              | inr first ↦
                  let same : skill_key u s ≡ key = (All-lookup (IsEntry original) key m h e).0 in
                  rw (e, first, known, same, chosen_from)
                    (ap (λ b. (k == key) || b)
                        (chosen_from-keys k original m chosen (key ∷ seen) h own)
                      ∙ ground (arith, list_beq_iff k key))
            ]
      ]

-- The skills of a tailored resume are all the candidate's own. If the model chose none that is the
-- candidate's, up to case and surrounding space, they are the candidate's whole list. Otherwise no two
-- of them are alike in that sense, and they are, in that sense, just those of the chosen skills that
-- are the candidate's.
pub tailored_skills-own :
    (u : Unicode) (original chosen : List Text)
    → Within (tailored_skills u original chosen) original
      × (((keep (is_own u original) chosen ≡ []) × (tailored_skills u original chosen ≡ original))
          ⊎ (Distinct (keys u (tailored_skills u original chosen))
              × Within
                  (keys u (tailored_skills u original chosen))
                  (keys u (keep (is_own u original) chosen))
              × Within
                  (keys u (keep (is_own u original) chosen))
                  (keys u (tailored_skills u original chosen))))
unfolding tailored_skills keys
tailored_skills-own u original chosen =
    let m = canonical_from u original [] in
    let entries = canonical_from-IsEntry u original original [] (Within-self original) tt in
    choose (chosen_from u m chosen []) (keep (is_own u original) chosen)
      (chosen_from-Within u original m chosen [] entries)
      (chosen_from-new u original m chosen [] entries).1
      (λ k.
        chosen_from-keys u k original m chosen [] entries
          (λ j. canonical_from-keys u j original []))
  where
    none_left : (own : List Text) → ((k : Text) → false ≡ member k (keys u own)) → own ≡ []
    none_left [] same = refl
    none_left (s ∷ own) same =
        let clash : false ≡ true =
          same (skill_key u s) ∙ member_self (skill_key u s) (keys u own) in
        absurd (ground arith)

    choose :
        (out own : List Text)
        → Within out original
        → Distinct (keys u out)
        → ((k : Text) → member k (keys u out) ≡ member k (keys u own))
        → Within (or_all u original out) original
          × (((own ≡ []) × (or_all u original out ≡ original))
              ⊎ (Distinct (keys u (or_all u original out))
                  × Within (keys u (or_all u original out)) (keys u own)
                  × Within (keys u own) (keys u (or_all u original out))))
    choose [] own w d same = (Within-self original, inl (none_left own same, refl))
    choose (s ∷ out) own w d same = (
      w,
      inr (
        d,
        Within-of (keys u (s ∷ out)) (keys u own) (λ k h. sym (same k) ∙ h),
        Within-of (keys u own) (keys u (s ∷ out)) (λ k h. same k ∙ h),
      ),
    )
