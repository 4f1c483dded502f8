-- ===== src/Trivia/Owners.antt =====
-- Whose rows of the table of quizzes a call touches.
use jobs_scraper.Prelude.{
  ℕ, ◌≡◌, ◌≢◌, ◌∙◌, refl, subst, inl, inr, Bool, true, false, Bool-cases, not, Option, some,
  Option-cases, List, [], ◌∷◌, ◌++◌, append-nil, keep, length, ltb, ◌==◌ as nat_beq, arith,
}
use jobs_scraper.Prelude.Keys.{nat_eq}
use jobs_scraper.Prelude.Text.{Text}
use jobs_scraper.Jobs.{Time}
use jobs_scraper.Trivia.{TriviaQuestion}
use jobs_scraper.Trivia.Store.{
  TriviaQuiz, Table, is_row, first_row, get_trivia_quiz, fresh_quiz, create_trivia_quiz, score_from,
  update_rows, save_trivia_answers, retake_trivia_quiz, delete_trivia_quiz, Call, create, save,
  retake, delete, step,
}
use jobs_scraper.Trivia.Scores.{saved}

-- The row that a call finds is its own.
first_row-owned :
    (profile id : ℕ) (rows : List TriviaQuiz) (quiz : TriviaQuiz)
    → first_row (is_row profile id) rows ≡ some quiz
    → is_row profile id quiz ≡ true
first_row-owned profile id [] quiz h = absurd (ground arith)
first_row-owned profile id (row ∷ rows) quiz h = elim (Bool-cases (is_row profile id row)) [
  | inl mine ↦
      let found : ◌≡◌ {A = Option TriviaQuiz} (some row) (some quiz) = rw mine at h in
      let same : row ≡ quiz = cc in subst (λ q. is_row profile id q ≡ true) same mine
  | inr other ↦ first_row-owned profile id rows quiz (rw other at h)
]

module _ (profile id : ℕ) (f : TriviaQuiz → TriviaQuiz) where
  update_rows-others :
      (other : ℕ)
      → other ≢ profile
      → ((quiz : TriviaQuiz) → (f quiz).profile_id ≡ quiz.profile_id)
      → (rows : List TriviaQuiz)
      → keep (λ quiz. nat_beq quiz.profile_id other) (update_rows (is_row profile id) f rows)
        ≡ keep (λ quiz. nat_beq quiz.profile_id other) rows
  update_rows-others other ne same [] = refl
  update_rows-others other ne same (row ∷ rows) =
      ground (arith, same row, update_rows-others other ne same rows)

-- The rows of a profile.
abbrev pub rows_of : ℕ → Table → List TriviaQuiz
rows_of profile t = keep (λ quiz. nat_beq quiz.profile_id profile) t.rows

keep-append :
    (p : TriviaQuiz → Bool) (xs ys : List TriviaQuiz) → keep p (xs ++ ys) ≡ keep p xs ++ keep p ys
keep-append p [] ys = refl
keep-append p (x ∷ xs) ys = ground (arith, keep-append p xs ys)

keep-keep :
    (p q : TriviaQuiz → Bool) (xs : List TriviaQuiz)
    → ((x : TriviaQuiz) → p x ≡ true → q x ≡ true)
    → keep p (keep q xs) ≡ keep p xs
keep-keep p q [] h = refl
keep-keep p q (x ∷ xs) h = ground (arith, h x, keep-keep p q xs h)

create_trivia_quiz-others :
    (other profile : ℕ) (source topic difficulty : Text) (questions : List TriviaQuestion)
    (now : Time) (t : Table)
    → other ≢ profile
    → rows_of other (create_trivia_quiz profile source topic difficulty questions now t).1
      ≡ rows_of other t
unfolding create_trivia_quiz
create_trivia_quiz-others other profile source topic difficulty questions now t ne =
    let quiz = fresh_quiz t.next_id profile source topic difficulty questions now in
    let stranger : nat_beq profile other ≡ false = ground arith in
    keep-append (λ q. nat_beq q.profile_id other) t.rows (quiz ∷ []) ∙ rw stranger (append-nil _)

-- No call of one profile changes, adds or removes a quiz of another profile.
pub step-others :
    (profile other : ℕ) (now : Time) (call : Call) (t : Table)
    → other ≢ profile
    → rows_of other (step profile now call t).1 ≡ rows_of other t
unfolding step retake_trivia_quiz save_trivia_answers get_trivia_quiz delete_trivia_quiz
step-others profile other now (create source topic difficulty questions) t ne =
    create_trivia_quiz-others other profile source topic difficulty questions now t ne
step-others profile other now (save id answers) t ne =
    elim (Option-cases (first_row (is_row profile id) t.rows)) [
      | inl missing ↦ rw (missing, step, save_trivia_answers, get_trivia_quiz) refl
      | inr (quiz, found) ↦ elim (Bool-cases (ltb (length quiz.questions) (length answers))) [
        | inl long ↦ rw (found, long, step, save_trivia_answers, get_trivia_quiz) refl
        | inr fits ↦ elim (Option-cases (score_from answers quiz.questions 0)) [
          | inl bad ↦ rw (found, fits, bad, step, save_trivia_answers, get_trivia_quiz) refl
          | inr (score, right) ↦
              rw (found, fits, right, step, save_trivia_answers, get_trivia_quiz)
                (update_rows-others profile id (saved answers score now quiz) other ne (λ q. refl)
                  t.rows)
        ]
      ]
    ]
step-others profile other now (retake id) t ne =
    elim (Option-cases (first_row (is_row profile id) t.rows)) [
      | inl missing ↦ rw (missing, step, retake_trivia_quiz, get_trivia_quiz) refl
      | inr (quiz, found) ↦
          let mine : quiz.profile_id ≡ profile =
            ground (arith, first_row-owned profile id t.rows quiz found) in
          rw (found, step, retake_trivia_quiz, get_trivia_quiz)
            (create_trivia_quiz-others other quiz.profile_id quiz.source quiz.topic quiz.difficulty
              quiz.questions now t (λ e. ne (e ∙ mine)))
    ]
step-others profile other now (delete id) t ne =
    let p : TriviaQuiz → Bool = λ quiz. not (is_row profile id quiz) in
    elim (Bool-cases (nat_beq (length (keep p t.rows)) (length t.rows))) [
      | inl none_gone ↦ rw (none_gone, step, delete_trivia_quiz) refl
      | inr gone ↦
          rw (gone, step, delete_trivia_quiz)
            (keep-keep (λ q. nat_beq q.profile_id other) p t.rows (λ q mine. ground arith))
    ]
