-- ===== src/Trivia/Scores.antt =====
-- What every row of the table of quizzes keeps.
use jobs_scraper.Prelude.{
  ℕ, suc, ◌+◌, ◌≤◌, ◌<◌, ◌≡◌, ◌⊎◌, refl, sym, subst, inl, inr, Bool, true, false, Bool-cases, not,
  Option, none, some, Option-cases, List, [], ◌∷◌, map, map-append, keep, length, All, All-append,
  All-keep, All-imp, ltb, if◌then◌else◌, ◌==◌ as nat_beq, arith,
}
use jobs_scraper.Prelude.Int.{ℤ, pos, ltb_ℤ, eqb_ℤ, ◌≤ℤ◌}
use jobs_scraper.Prelude.Keys.{nat_eq, member, Distinct, Distinct-snoc}
use jobs_scraper.Prelude.Text.{Text}
use jobs_scraper.Jobs.{Time}
use jobs_scraper.Trivia.{TriviaQuestion}
use jobs_scraper.Trivia.Store.{
  TriviaQuiz, Table, is_row, first_row, get_trivia_quiz, fresh_quiz, create_trivia_quiz, score_from,
  update_rows, save_trivia_answers, retake_trivia_quiz, delete_trivia_quiz, Call, create, save,
  retake, delete, step, run, no_quizzes,
}

-- The answers that are right.
abbrev pub hits : List ℤ → List TriviaQuestion → ℕ
hits [] questions = 0
hits (answer ∷ answers) [] = 0
hits (answer ∷ answers) (q ∷ questions) =
    (if eqb_ℤ answer q.correct_index then 1 else 0) + hits answers questions

-- Every answer is to a question and is one of its options.
abbrev pub AreOptions : List ℤ → List TriviaQuestion → Type 0
AreOptions [] questions = Unit {0}
AreOptions (answer ∷ answers) [] = ⊥
AreOptions (answer ∷ answers) (q ∷ questions) =
    ((pos 0 ≤ℤ answer) × (ltb_ℤ answer (pos (length q.options)) ≡ true))
    × AreOptions answers questions

score_from-hits :
    (answers : List ℤ) (questions : List TriviaQuestion) (start score : ℕ)
    → score_from answers questions start ≡ some score
    → (score ≡ start + hits answers questions) × AreOptions answers questions
unfolding score_from
score_from-hits [] questions start score h = (ground arith, tt)
score_from-hits (answer ∷ answers) [] start score h = absurd (ground arith)
score_from-hits (answer ∷ answers) (q ∷ questions) start score h = ground (
  arith,
  score_from-hits answers questions start score,
  score_from-hits answers questions (suc start) score,
)

length-AreOptions :
    (answers : List ℤ) (questions : List TriviaQuestion)
    → AreOptions answers questions
    → length answers ≤ length questions
length-AreOptions [] questions h = omega arith
length-AreOptions (answer ∷ answers) [] h = absurd h
length-AreOptions (answer ∷ answers) (q ∷ questions) h =
    omega (arith, length-AreOptions answers questions h.1)

-- A quiz with answers is completed when every question has one.
abbrev pub IsComplete : TriviaQuiz → Option Time → Type 0
IsComplete quiz none = (length quiz.answers < length quiz.questions) ⊎ (length quiz.answers ≡ 0)
IsComplete quiz (some at_time) = length quiz.answers ≡ length quiz.questions

-- The score is the number of right answers, every answer is an option of its question, and the quiz
-- is completed when all its questions are answered.
abbrev pub IsScored : TriviaQuiz → Type 0
IsScored quiz =
    (quiz.score ≡ hits quiz.answers quiz.questions)
    × (AreOptions quiz.answers quiz.questions × IsComplete quiz quiz.completed_at)

abbrev quiz_id : TriviaQuiz → ℕ
quiz_id quiz = quiz.id

abbrev pub IsTable : Table → Type 0
IsTable t =
    All IsScored t.rows × (Distinct (map quiz_id t.rows) × All (λ quiz. quiz.id < t.next_id) t.rows)

not_member-below :
    (n : ℕ) (rows : List TriviaQuiz)
    → All (λ quiz. quiz.id < n) rows
    → member n (map quiz_id rows) ≡ false
not_member-below n [] h = refl
not_member-below n (quiz ∷ rows) h = ground (arith, not_member-below n rows h.1)

module _ (profile id : ℕ) (f : TriviaQuiz → TriviaQuiz) where
  update_rows-none :
      (rows : List TriviaQuiz)
      → member id (map quiz_id rows) ≡ false
      → update_rows (is_row profile id) f rows ≡ rows
  update_rows-none [] h = refl
  update_rows-none (row ∷ rows) h = ground (arith, update_rows-none rows)

  update_rows-All :
      (P : TriviaQuiz → Type 0) (rows : List TriviaQuiz) (quiz : TriviaQuiz)
      → All P rows
      → Distinct (map quiz_id rows)
      → first_row (is_row profile id) rows ≡ some quiz
      → P (f quiz)
      → All P (update_rows (is_row profile id) f rows)
  update_rows-All P [] quiz a d h new = tt
  update_rows-All P (row ∷ rows) quiz a d h new = elim (Bool-cases (is_row profile id row)) [
    | inl mine ↦
        let found : ◌≡◌ {A = Option TriviaQuiz} (some row) (some quiz) = rw mine at h in
        let same : row ≡ quiz = cc in
        let its : row.id ≡ id = ground arith in
        rw mine (
          subst (λ q. P (f q)) (sym same) new,
          subst (All P)
              (sym
                (update_rows-none rows (subst (λ n. member n (map quiz_id rows) ≡ false) its d.0)))
              a.1,
        )
    | inr other ↦ rw other (a.0, update_rows-All P rows quiz a.1 d.1 (rw other at h) new)
  ]

  update_rows-ids :
      ((quiz : TriviaQuiz) → (f quiz).id ≡ quiz.id)
      → (rows : List TriviaQuiz)
      → map quiz_id (update_rows (is_row profile id) f rows) ≡ map quiz_id rows
  update_rows-ids same [] = refl
  update_rows-ids same (row ∷ rows) = ground (arith, same row, update_rows-ids same rows)

Distinct-keep :
    (p : TriviaQuiz → Bool) (rows : List TriviaQuiz)
    → Distinct (map quiz_id rows)
    → Distinct (map quiz_id (keep p rows))
Distinct-keep p [] d = tt
Distinct-keep p (row ∷ rows) d = elim (Bool-cases (p row)) [
  | inl kept ↦ rw kept (not_kept row.id rows d.0, Distinct-keep p rows d.1)
  | inr dropped ↦ rw dropped (Distinct-keep p rows d.1)
]
  where
    not_kept :
        (n : ℕ) (quizzes : List TriviaQuiz)
        → member n (map quiz_id quizzes) ≡ false
        → member n (map quiz_id (keep p quizzes)) ≡ false
    not_kept n [] h = refl
    not_kept n (quiz ∷ quizzes) h = ground (arith, not_kept n quizzes)

first_row-All :
    (P : TriviaQuiz → Type 0) (p : TriviaQuiz → Bool) (rows : List TriviaQuiz) (quiz : TriviaQuiz)
    → All P rows
    → first_row p rows ≡ some quiz
    → P quiz
first_row-All P p [] quiz a h = absurd (ground arith)
first_row-All P p (row ∷ rows) quiz a h = elim (Bool-cases (p row)) [
  | inl mine ↦
      let found : ◌≡◌ {A = Option TriviaQuiz} (some row) (some quiz) = rw mine at h in
      let same : row ≡ quiz = cc in subst P same a.0
  | inr other ↦ first_row-All P p rows quiz a.1 (rw other at h)
]

create_trivia_quiz-IsTable :
    (profile : ℕ) (source topic difficulty : Text) (questions : List TriviaQuestion) (now : Time)
    (t : Table)
    → IsTable t
    → IsTable (create_trivia_quiz profile source topic difficulty questions now t).1
unfolding create_trivia_quiz
create_trivia_quiz-IsTable profile source topic difficulty questions now t h =
    let quiz = fresh_quiz t.next_id profile source topic difficulty questions now in
    (
      All-append IsScored t.rows (quiz ∷ []) h.0 ((refl, (tt, inr refl)), tt),
      (
        subst Distinct (sym (map-append quiz_id t.rows (quiz ∷ []))) (
            Distinct-snoc (map quiz_id t.rows) t.next_id h.1.0
              (not_member-below t.next_id t.rows h.1.1)),
        All-append (λ q. q.id < suc t.next_id) t.rows (quiz ∷ [])
            (All-imp (λ q. q.id < t.next_id) (λ q. q.id < suc t.next_id) (λ q lt. omega arith)
              t.rows h.1.1)
            (omega arith, tt),
      ),
    )

-- The row that a save leaves.
abbrev pub saved : List ℤ → ℕ → Time → TriviaQuiz → TriviaQuiz → TriviaQuiz
saved answers score now quiz row = record row {
  answers = answers;
  score = score;
  completed_at = if nat_beq (length answers) (length quiz.questions) then some now else none;
}

saved-IsScored :
    (answers : List ℤ) (score : ℕ) (now : Time) (quiz : TriviaQuiz)
    → score_from answers quiz.questions 0 ≡ some score
    → IsScored (saved answers score now quiz quiz)
saved-IsScored answers score now quiz h =
    let right = score_from-hits answers quiz.questions 0 score h in
    let bound = length-AreOptions answers quiz.questions right.1 in
    elim (Bool-cases (nat_beq (length answers) (length quiz.questions))) [
      | inl all ↦ rw all (omega (arith, right.0), (right.1, ground arith))
      | inr some_left ↦ rw some_left (omega (arith, right.0), (right.1, inl (ground arith)))
    ]

save_trivia_answers-IsTable :
    (profile id : ℕ) (answers : List ℤ) (now : Time) (t : Table)
    → IsTable t
    → IsTable (save_trivia_answers profile id answers now t).1
unfolding save_trivia_answers get_trivia_quiz
save_trivia_answers-IsTable profile id answers now t h =
    elim (Option-cases (first_row (is_row profile id) t.rows)) [
      | inl missing ↦ rw (missing, save_trivia_answers, get_trivia_quiz) h
      | inr (quiz, found) ↦ elim (Bool-cases (ltb (length quiz.questions) (length answers))) [
        | inl long ↦ rw (found, long, save_trivia_answers, get_trivia_quiz) h
        | inr fits ↦ elim (Option-cases (score_from answers quiz.questions 0)) [
          | inl bad ↦ rw (found, fits, bad, save_trivia_answers, get_trivia_quiz) h
          | inr (score, right) ↦
              rw (found, fits, right, save_trivia_answers, get_trivia_quiz)
                (kept quiz score found right)
        ]
      ]
    ]
  where
    kept :
        (quiz : TriviaQuiz) (score : ℕ)
        → first_row (is_row profile id) t.rows ≡ some quiz
        → score_from answers quiz.questions 0 ≡ some score
        → IsTable (record t {
          rows = update_rows (is_row profile id) (saved answers score now quiz) t.rows;
        })
    kept quiz score found right =
        let f = saved answers score now quiz in
        (
          update_rows-All profile id f IsScored t.rows quiz h.0 h.1.0 found
              (saved-IsScored answers score now quiz right),
          (
            subst Distinct (sym (update_rows-ids profile id f (λ q. refl) t.rows)) h.1.0,
            update_rows-All profile id f (λ q. q.id < t.next_id) t.rows quiz h.1.1 h.1.0 found
                (first_row-All (λ q. q.id < t.next_id) (is_row profile id) t.rows quiz h.1.1 found),
          ),
        )

step-IsTable :
    (profile : ℕ) (now : Time) (call : Call) (t : Table)
    → IsTable t
    → IsTable (step profile now call t).1
unfolding step retake_trivia_quiz get_trivia_quiz delete_trivia_quiz
step-IsTable profile now (create source topic difficulty questions) t h =
    create_trivia_quiz-IsTable profile source topic difficulty questions now t h
step-IsTable profile now (save id answers) t h =
    save_trivia_answers-IsTable profile id answers now t h
step-IsTable profile now (retake id) t h =
    elim (Option-cases (first_row (is_row profile id) t.rows)) [
      | inl missing ↦ rw (missing, step, retake_trivia_quiz, get_trivia_quiz) h
      | inr (quiz, found) ↦
          rw (found, step, retake_trivia_quiz, get_trivia_quiz)
            (create_trivia_quiz-IsTable quiz.profile_id quiz.source quiz.topic quiz.difficulty
              quiz.questions now t h)
    ]
step-IsTable profile now (delete id) t h =
    let p : TriviaQuiz → Bool = λ quiz. not (is_row profile id quiz) in
    elim (Bool-cases (nat_beq (length (keep p t.rows)) (length t.rows))) [
      | inl none_gone ↦ rw (none_gone, step, delete_trivia_quiz) h
      | inr gone ↦
          rw (gone, step, delete_trivia_quiz)
            (
              All-keep IsScored p t.rows h.0,
              (Distinct-keep p t.rows h.1.0, All-keep (λ q. q.id < t.next_id) p t.rows h.1.1),
            )
    ]

run-IsTable : (calls : List (ℕ × (Time × Call))) (t : Table) → IsTable t → IsTable (run calls t)
unfolding run
run-IsTable [] t h = h
run-IsTable ((profile, (now, call)) ∷ calls) t h =
    run-IsTable calls (step profile now call t).1 (step-IsTable profile now call t h)

-- After any calls by any profiles on an empty table, no two quizzes have the same id, and every
-- quiz has as its score the number of its right answers, only answers that are options of their
-- questions, a completion time only if all its questions are answered, and none only if a question
-- is left or it has no answers.
pub run-IsScored :
    (calls : List (ℕ × (Time × Call)))
    → All IsScored (run calls no_quizzes).rows
      × Distinct (map (λ quiz. quiz.id) (run calls no_quizzes).rows)
run-IsScored calls = let h = run-IsTable calls no_quizzes (tt, (tt, tt)) in (h.0, h.1.0)
