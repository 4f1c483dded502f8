-- ===== src/Trivia/Tests.antt =====
-- Small quizzes.
use jobs_scraper.Prelude.{
  ℕ, ◌≡◌, ◌≤◌, refl, true, Option, none, some, List, [], ◌∷◌, ◌++◌, map, length, All, arith,
}
use jobs_scraper.Prelude.Int.{ℤ, pos, negsuc}
use jobs_scraper.Prelude.Keys.{nat_eq, list_eq, int_eq, Distinct, member, member-append}
use jobs_scraper.Prelude.Text.{Text, codes, ascii_only}
use jobs_scraper.Jobs.{Time}
use jobs_scraper.Trivia.{
  TriviaQuestion, declined, bad_topic, bad_count, distinct_from, distinct_options,
  sanitize_question, sanitize_from, sanitize_trivia, at_index, shuffle_options,
  parse_trivia_request,
}
use jobs_scraper.Trivia.Questions.{IsSound, sanitize_trivia-IsSound, shuffle_options-answer}
use jobs_scraper.Trivia.Store.{
  Call, create, save, retake, delete, step, run, no_quizzes, create_trivia_quiz,
  save_trivia_answers, get_trivia_quiz, retake_trivia_quiz, score_from,
}
use jobs_scraper.Trivia.Scores.{IsScored, run-IsScored}
use jobs_scraper.Trivia.Owners.{rows_of, step-others}

abbrev asked : List Text → ℤ → TriviaQuestion
asked options right = record {
  question = codes " Which? ";
  options = options;
  correct_index = right;
  explanation = [];
  topic = codes "go";
}

abbrev four : List Text
four = codes "a" ∷ codes "b" ∷ codes "c" ∷ codes "d" ∷ []

abbrev raw : List TriviaQuestion
raw =
    asked (codes "a" ∷ codes "A " ∷ codes "c" ∷ codes "d" ∷ []) (pos 0)
    ∷ asked four (pos 4)
    ∷ asked four (pos 2)
    ∷ asked four (pos 1)
    ∷ []

abbrev kept : TriviaQuestion
kept = record {
  question = codes "Which?";
  options = four;
  correct_index = pos 2;
  explanation = [];
  topic = codes "go";
}

drops_malformed : sanitize_trivia ascii_only raw 1 ≡ kept ∷ []
unfolding sanitize_trivia sanitize_from sanitize_question distinct_options distinct_from
drops_malformed = refl

short_topic :
    parse_trivia_request (record {
      source = codes "prompt";
      prompt = codes " go ";
      count = pos 5;
      difficulty = codes "easy";
    })
    ≡ declined bad_topic
unfolding parse_trivia_request
short_topic = refl

odd_count :
    parse_trivia_request
      (record { source = codes "resume"; prompt = []; count = negsuc 4; difficulty = codes "easy" })
    ≡ declined bad_count
unfolding parse_trivia_request
odd_count = refl

sanitize_trivia-IsSound_example :
    All (IsSound ascii_only) (sanitize_trivia ascii_only raw 1)
    × (length (sanitize_trivia ascii_only raw 1) ≤ 1)
sanitize_trivia-IsSound_example = sanitize_trivia-IsSound ascii_only raw 1

-- The first option goes to the end.
abbrev rotated : List Text → List Text
rotated [] = []
rotated (x ∷ xs) = xs ++ x ∷ []

rotated-member : (t : Text) (xs : List Text) → member t xs ≡ true → member t (rotated xs) ≡ true
rotated-member t [] h = h
rotated-member t (x ∷ xs) h = ground (arith, member-append t xs (x ∷ []))

kept-IsSound : IsSound ascii_only kept
kept-IsSound = (
  (λ e. ground arith),
  (
    refl,
    (
      (
        (refl, (refl, (refl, (refl, tt)))),
        (
          (λ e. ground arith),
          ((λ e. ground arith), ((λ e. ground arith), ((λ e. ground arith), tt))),
        ),
      ),
      (refl, refl),
    ),
  ),
)

shuffle_options-answer_example :
    (answer : Text) × (shuffled : TriviaQuestion) × ((shuffle_options rotated kept ≡ some shuffled)
      × ((at_index kept.options kept.correct_index ≡ some answer)
          × (at_index shuffled.options shuffled.correct_index ≡ some answer)))
shuffle_options-answer_example =
    shuffle_options-answer ascii_only rotated kept rotated-member kept-IsSound

abbrev calls : List (ℕ × (Time × Call))
calls =
    (7, (1, create (codes "prompt") (codes "go") (codes "easy") (kept ∷ kept ∷ [])))
    ∷ (8, (2, save 1 (pos 2 ∷ [])))
    ∷ (7, (3, save 1 (pos 2 ∷ pos 0 ∷ [])))
    ∷ (7, (4, retake 1))
    ∷ []

after_calls :
    map {B = ℕ × (ℕ × Option Time)}
      (λ quiz. (quiz.id, (quiz.score, quiz.completed_at)))
      (run calls no_quizzes).rows
    ≡ (1, (1, some 3)) ∷ (2, (0, none)) ∷ []
unfolding run step create_trivia_quiz save_trivia_answers get_trivia_quiz retake_trivia_quiz
    score_from
after_calls = refl

run-IsScored_example :
    All IsScored (run calls no_quizzes).rows
    × Distinct (map (λ quiz. quiz.id) (run calls no_quizzes).rows)
run-IsScored_example = run-IsScored calls

step-others_example :
    rows_of 7 (step 8 5 (delete 1) (run calls no_quizzes)).1 ≡ rows_of 7 (run calls no_quizzes)
step-others_example = step-others 8 7 5 (delete 1) (run calls no_quizzes) (λ e. ground arith)
