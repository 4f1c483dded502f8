-- ===== src/Trivia.antt =====
-- Quizzes: what is kept of a language model's questions (backend/llm/trivia.go) and which requests
-- are accepted (backend/server/trivia.go). The table of quizzes is the child `Store`.
pub mod Questions
pub mod Store
pub mod Scores
pub mod Owners
mod Tests
use jobs_scraper.Prelude.{
  ℕ, zero, suc, ◌+◌, ◌≡◌, Bool, true, false, not, ◌&&◌, ◌||◌, Option, none, some, List, [], ◌∷◌,
  ◌++◌, map, length, get_elem?, ltb, if◌then◌else◌, ◌==◌ as nat_beq,
}
use jobs_scraper.Prelude.Int.{ℤ, pos, negsuc, ltb_ℤ}
use jobs_scraper.Prelude.Keys.{◌==◌, nat_eq, int_eq, list_eq, member}
use jobs_scraper.Prelude.Text.{Text, Unicode, codes, trim_space, to_lower}

abbrev pub trivia_option_count : ℕ
trivia_option_count = 4

pub record TriviaQuestion : Type 0 where
  pub question : Text
  pub options : List Text
  pub correct_index : ℤ
  pub explanation : Text
  pub topic : Text

-- The loop of `distinctOptions`; `none` where it returns false.
unfoldable pub distinct_from : Unicode → List Text → List Text → List Text → Option (List Text)
distinct_from u [] seen out = some out
distinct_from u (option ∷ options) seen out =
    let trimmed = trim_space option in
    let key = to_lower u trimmed in
    let rest = distinct_from u options (key ∷ seen) (out ++ trimmed ∷ []) in
    if trimmed == [] || member key seen then none else rest

unfoldable pub distinct_options : Unicode → List Text → Option (List Text)
distinct_options u options = distinct_from u options [] []

abbrev pub trimmed_question : TriviaQuestion → TriviaQuestion
trimmed_question q = record q {
  question = trim_space q.question;
  explanation = trim_space q.explanation;
  topic = trim_space q.topic;
}

abbrev pub is_malformed : TriviaQuestion → Bool
is_malformed q =
    (q.question == [])
    || (not (nat_beq (length q.options) trivia_option_count)
        || (ltb_ℤ q.correct_index (pos 0) || not (ltb_ℤ q.correct_index (pos trivia_option_count))))

abbrev pub with_options : TriviaQuestion → Option (List Text) → Option TriviaQuestion
with_options q none = none
with_options q (some options) = some (record q { options = options })

-- A turn of the loop of `sanitizeTrivia`; `none` for `continue`.
unfoldable pub sanitize_question : Unicode → TriviaQuestion → Option TriviaQuestion
sanitize_question u raw =
    let q = trimmed_question raw in
    if is_malformed q then none else with_options q (distinct_options u q.options)

abbrev pub push_some : List TriviaQuestion → Option TriviaQuestion → List TriviaQuestion
push_some out none = out
push_some out (some q) = out ++ q ∷ []

unfoldable pub sanitize_from :
    Unicode → List TriviaQuestion → ℕ → List TriviaQuestion → List TriviaQuestion
sanitize_from u [] count out = out
sanitize_from u (q ∷ raw) count out =
    let rest = sanitize_from u raw count (push_some out (sanitize_question u q)) in
    if nat_beq (length out) count then out else rest

unfoldable pub sanitize_trivia : Unicode → List TriviaQuestion → ℕ → List TriviaQuestion
sanitize_trivia u raw count = sanitize_from u raw count []

-- The first position of a text, from a number on.
abbrev pub index_from : Text → List Text → ℕ → Option ℕ
index_from t [] i = none
index_from t (x ∷ xs) i = let rest = index_from t xs (suc i) in if x == t then some i else rest

-- `options[i]`; Go stops with a panic out of range.
abbrev pub at_index : List Text → ℤ → Option Text
at_index options (pos i) = get_elem? options i
at_index options (negsuc i) = none

abbrev pub pointed_at : ℤ → Option ℕ → ℤ
pointed_at old none = old
pointed_at old (some i) = pos i

abbrev pub point_to : TriviaQuestion → List Text → Option Text → Option TriviaQuestion
point_to q shuffled none = none
point_to q shuffled (some correct) = some (record q {
  options = shuffled;
  correct_index = pointed_at q.correct_index (index_from correct shuffled 0);
})

-- `shuffle` is the order that `rand.Shuffle` makes; `none` stands for a panic.
unfoldable pub shuffle_options : (List Text → List Text) → TriviaQuestion → Option TriviaQuestion
shuffle_options shuffle q = point_to q (shuffle q.options) (at_index q.options q.correct_index)

abbrev pub trivia_counts : List ℕ
trivia_counts = 5 ∷ 10 ∷ 15 ∷ []

abbrev pub trivia_difficulties : List Text
trivia_difficulties = codes "easy" ∷ codes "medium" ∷ codes "hard" ∷ []

abbrev pub min_trivia_prompt : ℕ
min_trivia_prompt = 3

abbrev pub max_trivia_prompt : ℕ
max_trivia_prompt = 300

pub record TriviaRequest : Type 0 where
  pub source : Text
  pub prompt : Text
  pub count : ℤ
  pub difficulty : Text

pub data Refusal : Type 0 where
  bad_topic bad_source bad_count bad_difficulty : Refusal

pub data Checked : Type 0 where
  accepted : TriviaRequest → Checked
  declined : Refusal → Checked

-- The tests that follow the `switch` on the source.
abbrev pub check_rest : TriviaRequest → Checked
check_rest req =
    if not (member req.count (map pos trivia_counts))
    then declined bad_count
    else if not (member req.difficulty trivia_difficulties)
    then declined bad_difficulty
    else accepted req

unfoldable pub parse_trivia_request : TriviaRequest → Checked
parse_trivia_request req =
    let prompt = trim_space req.prompt in
    if req.source == codes "resume"
    then check_rest (record req { prompt = [] })
    else if req.source == codes "prompt"
    then if ltb (length prompt) min_trivia_prompt || ltb max_trivia_prompt (length prompt)
      then declined bad_topic
      else check_rest (record req { prompt = prompt })
    else declined bad_source
