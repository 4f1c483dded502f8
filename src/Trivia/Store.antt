-- ===== src/Trivia/Store.antt =====
-- The table of quizzes (backend/database/trivia.go): its statements as functions of its rows.
use jobs_scraper.Prelude.{
  ℕ, suc, Bool, not, ◌&&◌, ◌||◌, Option, none, some, List, [], ◌∷◌, ◌++◌, keep, length, ltb,
  if◌then◌else◌, ◌==◌ as nat_beq,
}
use jobs_scraper.Prelude.Int.{ℤ, pos, ltb_ℤ, eqb_ℤ}
use jobs_scraper.Prelude.Text.{Text}
use jobs_scraper.Jobs.{Time}
use jobs_scraper.Trivia.{TriviaQuestion}

-- A row, with its owner.
pub record TriviaQuiz : Type 0 where
  pub id : ℕ
  pub profile_id : ℕ
  pub source : Text
  pub topic : Text
  pub difficulty : Text
  pub questions : List TriviaQuestion
  pub answers : List ℤ
  pub score : ℕ
  pub completed_at : Option Time
  pub created_at : Time

-- The rows, the oldest first, and the next value of the identity column.
pub record Table : Type 0 where
  pub rows : List TriviaQuiz
  pub next_id : ℕ

-- How a call ends: `refused` for invalid input, `no_rows` for a quiz that is not there.
pub data Outcome : Type 0 where
  done : Outcome
  created : ℕ → Outcome
  refused no_rows : Outcome

-- `WHERE id = $1 AND profile_id = $2`
abbrev pub is_row : ℕ → ℕ → TriviaQuiz → Bool
is_row profile id quiz = nat_beq quiz.id id && nat_beq quiz.profile_id profile

abbrev pub first_row : (TriviaQuiz → Bool) → List TriviaQuiz → Option TriviaQuiz
first_row p [] = none
first_row p (quiz ∷ rows) = if p quiz then some quiz else first_row p rows

unfoldable pub get_trivia_quiz : ℕ → ℕ → Table → Option TriviaQuiz
get_trivia_quiz profile id t = first_row (is_row profile id) t.rows

-- The defaults of the columns that an insertion leaves out.
abbrev pub fresh_quiz : ℕ → ℕ → Text → Text → Text → List TriviaQuestion → Time → TriviaQuiz
fresh_quiz id profile source topic difficulty questions now = record {
  id = id;
  profile_id = profile;
  source = source;
  topic = topic;
  difficulty = difficulty;
  questions = questions;
  answers = [];
  score = 0;
  completed_at = none;
  created_at = now;
}

unfoldable pub create_trivia_quiz :
    ℕ → Text → Text → Text → List TriviaQuestion → Time → Table → Outcome × Table
create_trivia_quiz profile source topic difficulty questions now t = (
  created t.next_id,
  record {
    rows = t.rows ++ fresh_quiz t.next_id profile source topic difficulty questions now ∷ [];
    next_id = suc t.next_id;
  },
)

-- The loop over the answers; `none` for an answer out of range, and for more answers than
-- questions, which the caller has excluded.
unfoldable pub score_from : List ℤ → List TriviaQuestion → ℕ → Option ℕ
score_from [] questions score = some score
score_from (answer ∷ answers) [] score = none
score_from (answer ∷ answers) (q ∷ questions) score =
    let hit = score_from answers questions (suc score) in
    let miss = score_from answers questions score in
    if ltb_ℤ answer (pos 0) || not (ltb_ℤ answer (pos (length q.options)))
    then none
    else if eqb_ℤ answer q.correct_index
    then hit
    else miss

-- `UPDATE`
abbrev pub update_rows :
    (TriviaQuiz → Bool) → (TriviaQuiz → TriviaQuiz) → List TriviaQuiz → List TriviaQuiz
update_rows p f [] = []
update_rows p f (quiz ∷ rows) = (if p quiz then f quiz else quiz) ∷ update_rows p f rows

abbrev pub save_scored : ℕ → ℕ → List ℤ → Time → Table → TriviaQuiz → Option ℕ → Outcome × Table
save_scored profile id answers now t quiz none = (refused, t)
save_scored profile id answers now t quiz (some score) = (
  done,
  record t {
    rows =
        update_rows (is_row profile id)
          (λ row. record row {
            answers = answers;
            score = score;
            completed_at =
                if nat_beq (length answers) (length quiz.questions) then some now else none;
          })
          t.rows;
  },
)

abbrev pub save_found : ℕ → ℕ → List ℤ → Time → Table → Option TriviaQuiz → Outcome × Table
save_found profile id answers now t none = (no_rows, t)
save_found profile id answers now t (some quiz) =
    if ltb (length quiz.questions) (length answers)
    then (refused, t)
    else save_scored profile id answers now t quiz (score_from answers quiz.questions 0)

unfoldable pub save_trivia_answers : ℕ → ℕ → List ℤ → Time → Table → Outcome × Table
save_trivia_answers profile id answers now t =
    save_found profile id answers now t (get_trivia_quiz profile id t)

abbrev pub retake_found : Time → Table → Option TriviaQuiz → Outcome × Table
retake_found now t none = (no_rows, t)
retake_found now t (some quiz) =
    create_trivia_quiz quiz.profile_id quiz.source quiz.topic quiz.difficulty quiz.questions now t

unfoldable pub retake_trivia_quiz : ℕ → ℕ → Time → Table → Outcome × Table
retake_trivia_quiz profile id now t = retake_found now t (get_trivia_quiz profile id t)

unfoldable pub delete_trivia_quiz : ℕ → ℕ → Table → Outcome × Table
delete_trivia_quiz profile id t =
    let left = keep (λ quiz. not (is_row profile id quiz)) t.rows in
    if nat_beq (length left) (length t.rows) then (no_rows, t) else (done, record t { rows = left })

-- A call by the profile that is signed in.
pub data Call : Type 0 where
  create : Text → Text → Text → List TriviaQuestion → Call
  save : ℕ → List ℤ → Call
  retake : ℕ → Call
  delete : ℕ → Call

unfoldable pub step : ℕ → Time → Call → Table → Outcome × Table
step profile now (create source topic difficulty questions) t =
    create_trivia_quiz profile source topic difficulty questions now t
step profile now (save id answers) t = save_trivia_answers profile id answers now t
step profile now (retake id) t = retake_trivia_quiz profile id now t
step profile now (delete id) t = delete_trivia_quiz profile id t

-- Calls of several profiles, in the order in which the database runs them.
unfoldable pub run : List (ℕ × (Time × Call)) → Table → Table
run [] t = t
run ((profile, (now, call)) ∷ calls) t = run calls (step profile now call t).1

abbrev pub no_quizzes : Table
no_quizzes = record { rows = []; next_id = 1 }
