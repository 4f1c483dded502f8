-- ===== src/Trivia/Questions.antt =====
-- Which questions a quiz asks, and that shuffling the options keeps the right answer.
use jobs_scraper.Prelude.{
  ℕ, zero, suc, ◌+◌, ◌≤◌, ◌<◌, ◌≡◌, ◌≢◌, ◌∙◌, refl, sym, ap, subst, inl, inr, true, false,
  Bool-cases, Option, none, some, List, [], ◌∷◌, ◌++◌, map, map-append, length, length-append,
  get_elem?, All, All-append, ◌==◌ as nat_beq, arith,
}
use jobs_scraper.Prelude.Int.{ℤ, pos, negsuc, ltb_ℤ}
use jobs_scraper.Prelude.Keys.{
  ◌==◌, nat_eq, list_eq, list_beq_iff, member, member-append, Distinct, Distinct-snoc,
}
use jobs_scraper.Prelude.Text.{filled, Text, Unicode, trim_space, to_lower}
use jobs_scraper.Trivia.{
  trivia_option_count, TriviaQuestion, distinct_from, distinct_options, trimmed_question,
  is_malformed, with_options, sanitize_question, push_some, sanitize_from, sanitize_trivia,
  index_from, at_index, point_to, shuffle_options,
}

abbrev Holds {ℓ} : {A : Type ℓ} → (A → Type 0) → Option A → Type 0
Holds P none = Unit
Holds P (some a) = P a

-- Options that differ even in lower case, none of them empty.
abbrev pub AreDistinctOptions : Unicode → List Text → Type 0
AreDistinctOptions u options = Distinct (map (to_lower u) options) × All (λ o. o ≢ []) options

distinct_from-lem :
    (u : Unicode) (options seen out : List Text)
    → AreDistinctOptions u out
    → ((k : Text) → member k seen ≡ member k (map (to_lower u) out))
    → Holds
        (λ r. AreDistinctOptions u r × (length r ≡ length out + length options))
        (distinct_from u options seen out)
unfolding distinct_from
distinct_from-lem u [] seen out h same = (h, omega arith)
distinct_from-lem u (option ∷ options) seen out h same =
    let trimmed = trim_space option in
    let key = to_lower u trimmed in
    elim (Bool-cases (trimmed == [])) [
      | inl empty ↦ rw (empty, distinct_from) tt
      | inr given ↦ elim (Bool-cases (member key seen)) [
        | inl again ↦ rw (given, again, distinct_from) tt
        | inr fresh ↦
            rw (given, fresh, distinct_from)
              (longer (distinct_from u options (key ∷ seen) (out ++ trimmed ∷ []))
                (length-append out (trimmed ∷ []))
                (distinct_from-lem u options (key ∷ seen) (out ++ trimmed ∷ [])
                  (
                    subst Distinct (sym (map-append (to_lower u) out (trimmed ∷ [])))
                        (Distinct-snoc (map (to_lower u) out) key h.0 (sym (same key) ∙ fresh)),
                    All-append (λ o. o ≢ []) out (trimmed ∷ []) h.1 (filled trimmed given, tt),
                  )
                  (λ k. ground (
                    arith,
                    same k,
                    map-append (to_lower u) out (trimmed ∷ []),
                    member-append k (map (to_lower u) out) (key ∷ []),
                  ))))
      ]
    ]
  where
    longer :
        (r : Option (List Text)) {n : ℕ}
        → n ≡ length out + 1
        → Holds (λ xs. AreDistinctOptions u xs × (length xs ≡ n + length options)) r
        → Holds (λ xs. AreDistinctOptions u xs × (length xs ≡ length out + suc (length options))) r
    longer none e g = tt
    longer (some xs) e g = (g.0, omega (arith, g.1))

-- A question that a quiz may ask: with a text, four options that differ even in lower case, none of
-- them empty, and the right one among them.
abbrev pub IsSound : Unicode → TriviaQuestion → Type 0
IsSound u q =
    (q.question ≢ [])
    × ((length q.options ≡ trivia_option_count)
        × (AreDistinctOptions u q.options
            × ((ltb_ℤ q.correct_index (pos 0) ≡ false)
                × (ltb_ℤ q.correct_index (pos trivia_option_count) ≡ true))))

sanitize_question-IsSound :
    (u : Unicode) (raw : TriviaQuestion) → Holds (IsSound u) (sanitize_question u raw)
unfolding sanitize_question distinct_options
sanitize_question-IsSound u raw =
    let q = trimmed_question raw in
    elim (Bool-cases (is_malformed q)) [
      | inl bad ↦ rw (bad, sanitize_question) tt
      | inr good ↦
          rw (good, sanitize_question)
            (sound q (distinct_options u q.options) (well_formed q good)
              (distinct_from-lem u q.options [] [] (tt, tt) (λ k. refl)))
    ]
  where
    well_formed :
        (q : TriviaQuestion)
        → is_malformed q ≡ false
        → ((q.question == []) ≡ false)
          × ((length q.options ≡ trivia_option_count)
              × ((ltb_ℤ q.correct_index (pos 0) ≡ false)
                  × (ltb_ℤ q.correct_index (pos trivia_option_count) ≡ true)))
    well_formed q good = ground arith

    sound :
        (q : TriviaQuestion) (r : Option (List Text))
        → ((q.question == []) ≡ false)
          × ((length q.options ≡ trivia_option_count)
              × ((ltb_ℤ q.correct_index (pos 0) ≡ false)
                  × (ltb_ℤ q.correct_index (pos trivia_option_count) ≡ true)))
        → Holds (λ xs. AreDistinctOptions u xs × (length xs ≡ 0 + length q.options)) r
        → Holds (IsSound u) (with_options q r)
    sound q none w g = tt
    sound q (some xs) w g = (filled q.question w.0, (omega (arith, g.1, w.1.0), (g.0, w.1.1)))

push_some-All :
    (u : Unicode) (out : List TriviaQuestion) (q : Option TriviaQuestion)
    → All (IsSound u) out
    → Holds (IsSound u) q
    → All (IsSound u) (push_some out q)
push_some-All u out none h g = h
push_some-All u out (some q) h g = All-append (IsSound u) out (q ∷ []) h (g, tt)

length-push_some :
    (out : List TriviaQuestion) (q : Option TriviaQuestion)
    → length (push_some out q) ≤ suc (length out)
length-push_some out none = omega arith
length-push_some out (some q) = omega (arith, length-append out (q ∷ []))

sanitize_from-lem :
    (u : Unicode) (raw : List TriviaQuestion) (count : ℕ) (out : List TriviaQuestion)
    → All (IsSound u) out
    → length out ≤ count
    → All (IsSound u) (sanitize_from u raw count out)
      × (length (sanitize_from u raw count out) ≤ count)
unfolding sanitize_from
sanitize_from-lem u [] count out h le = (h, le)
sanitize_from-lem u (q ∷ raw) count out h le = elim (Bool-cases (nat_beq (length out) count)) [
  | inl full ↦ rw (full, sanitize_from) (h, le)
  | inr room ↦
      rw (room, sanitize_from)
        (sanitize_from-lem u raw count (push_some out (sanitize_question u q))
          (push_some-All u out (sanitize_question u q) h (sanitize_question-IsSound u q))
          (ground (arith, length-push_some out (sanitize_question u q))))
]

-- Of whatever questions a language model returns, a quiz asks at most as many as were requested, and
-- each has a text, exactly four options that differ even in lower case, none of them empty, and
-- the right one among them.
pub sanitize_trivia-IsSound :
    (u : Unicode) (raw : List TriviaQuestion) (count : ℕ)
    → All (IsSound u) (sanitize_trivia u raw count) × (length (sanitize_trivia u raw count) ≤ count)
unfolding sanitize_trivia
sanitize_trivia-IsSound u raw count = sanitize_from-lem u raw count [] tt (omega arith)

-- The first position of a text is one where it stands.
index_from-lem :
    (t : Text) (xs : List Text) (i : ℕ)
    → member t xs ≡ true
    → (j : ℕ) × ((index_from t xs i ≡ some (i + j)) × (get_elem? xs j ≡ some t))
index_from-lem t [] i h = absurd (ground arith)
index_from-lem t (x ∷ xs) i h = elim (Bool-cases (x == t)) [
  | inl same ↦ (0, (rw same (ap some (zero_right i)), ap some ((list_beq_iff x t).0 same)))
  | inr other ↦
      let (j, (found, there)) =
        index_from-lem t xs (suc i) (ground (arith, list_beq_iff x t, list_beq_iff t x)) in
      (suc j, (rw other (found ∙ ap some (omega arith)), there))
]
  where
    zero_right : (n : ℕ) → n ≡ n + 0
    zero_right n = omega arith

get_elem?-member :
    (xs : List Text) (i : ℕ) (t : Text) → get_elem? xs i ≡ some t → member t xs ≡ true
get_elem?-member [] i t h = absurd (ground arith)
get_elem?-member (x ∷ xs) zero t h = ground (arith, list_beq_iff t x)
get_elem?-member (x ∷ xs) (suc i) t h = ground (arith, get_elem?-member xs i t h)

get_elem?-some : (xs : List Text) (i : ℕ) → i < length xs → (t : Text) × (get_elem? xs i ≡ some t)
get_elem?-some [] i h = absurd (omega arith)
get_elem?-some (x ∷ xs) zero h = (x, refl)
get_elem?-some (x ∷ xs) (suc i) h = get_elem?-some xs i (omega arith)

at_index-some :
    (options : List Text) (i : ℤ)
    → length options ≡ trivia_option_count
    → ltb_ℤ i (pos 0) ≡ false
    → ltb_ℤ i (pos trivia_option_count) ≡ true
    → (t : Text) × (at_index options i ≡ some t)
at_index-some options (pos i) four low high = get_elem?-some options i (ground arith)
at_index-some options (negsuc i) four low high = absurd (ground arith)

at_index-member :
    (options : List Text) (i : ℤ) (t : Text) → at_index options i ≡ some t → member t options ≡ true
at_index-member options (pos i) t h = get_elem?-member options i t h
at_index-member options (negsuc i) t h = absurd (ground arith)

-- If shuffling loses no option, a sound question is shuffled without a panic, and its right answer
-- is the same text before and after.
pub shuffle_options-answer :
    (u : Unicode) (shuffle : List Text → List Text) (q : TriviaQuestion)
    → ((t : Text) (xs : List Text) → member t xs ≡ true → member t (shuffle xs) ≡ true)
    → IsSound u q
    → (answer : Text) × (shuffled : TriviaQuestion) × ((shuffle_options shuffle q ≡ some shuffled)
        × ((at_index q.options q.correct_index ≡ some answer)
            × (at_index shuffled.options shuffled.correct_index ≡ some answer)))
unfolding shuffle_options
shuffle_options-answer u shuffle q keeps h =
    let (answer, right) = at_index-some q.options q.correct_index h.1.0 h.1.1.1.0 h.1.1.1.1 in
    let (i, (found, there)) =
      index_from-lem answer (shuffle q.options) 0
        (keeps answer q.options (at_index-member q.options q.correct_index answer right)) in
    let (shuffled, (made, kept)) = moved answer i found there in
    (answer, shuffled, (rw (right, shuffle_options) made, (right, kept)))
  where
    zero_left : {n : ℕ} → 0 + n ≡ n
    zero_left = omega arith

    moved :
        (answer : Text) (i : ℕ)
        → index_from answer (shuffle q.options) 0 ≡ some (0 + i)
        → get_elem? (shuffle q.options) i ≡ some answer
        → (shuffled : TriviaQuestion) × ((point_to q (shuffle q.options) (some answer)
              ≡ some shuffled)
            × (at_index shuffled.options shuffled.correct_index ≡ some answer))
    moved answer i found there = (
      record q { options = shuffle q.options; correct_index = pos i },
      (rw (found ∙ ap some zero_left) refl, there),
    )
