-- ===== src/Server.antt =====
-- What the handlers share (backend/server/response.go): responses, path ids, and the response to an
-- error of the database.
use jobs_scraper.Prelude.{ℕ, Option, none, some, ◌++◌}
use jobs_scraper.Prelude.Int.{ℤ, pos, negsuc}
use jobs_scraper.Prelude.Text.{Text, codes, atoi}
use jobs_scraper.Rows.{Reply, ok, invalid_input, no_rows, broken}

-- `{"error": ...}`, `{"status": ...}`, `{"id": ...}`, `{"token": ...}` or no body.
pub data Body : Type 0 where
  error_body : Text → Body
  status_body : Text → Body
  id_body : ℕ → Body
  token_body : Text → Body
  empty_body : Body

pub record Response : Type 0 where
  pub status : ℕ
  pub body : Body

abbrev pub write_error : ℕ → Text → Response
write_error status message = record { status = status; body = error_body message }

abbrev pub status_response : Text → Response
status_response status = record { status = 200; body = status_body status }

abbrev pub created_response : ℕ → Response
created_response id = record { status = 201; body = id_body id }

abbrev pub write_db_error : {A : Type 0} → Text → Text → (A → Response) → Reply A → Response
write_db_error not_found failure answer (ok a) = answer a
write_db_error not_found failure answer (invalid_input message) = write_error 400 message
write_db_error not_found failure answer no_rows = write_error 404 not_found
write_db_error not_found failure answer broken = write_error 500 failure

-- A negative id is read as 0: the database gives out ids from 1, so no row has either.
abbrev pub row_number : Option ℤ → Option ℕ
row_number none = none
row_number (some (pos n)) = some n
row_number (some (negsuc n)) = some 0

-- `pathID`; `none` where the text is no number.
unfoldable pub path_id : Text → Option ℕ
path_id raw = row_number (atoi raw)

abbrev pub bad_id : Text → Response
bad_id label = write_error 400 (codes "invalid " ++ label ++ codes " id")

abbrev pub bad_request : Response
bad_request = write_error 400 (codes "invalid request")
