-- ===== src/Auth/Handlers.antt =====
-- The handlers of accounts and sessions (backend/server/profiles.go and password_reset.go). `up` and
-- `up_too` tell whether the database runs the first and the second call; a body is `none` where it
-- cannot be decoded.
use jobs_scraper.Prelude.{ℕ, Bool, true, false, not, ◌||◌, Option, none, some, [], if◌then◌else◌}
use jobs_scraper.Prelude.Keys.{◌==◌, nat_eq, list_eq}
use jobs_scraper.Prelude.Text.{Text, codes}
use jobs_scraper.Jobs.{Time}
use jobs_scraper.Rows.{Reply, ok, invalid_input, no_rows, broken}
use jobs_scraper.Server.{
  Response, token_body, empty_body, write_error, status_body, bad_request, write_db_error,
}
use jobs_scraper.Sessions.{
  Accounts, Outcome, RefreshSession, ok, no_rows, conflict, bad_password, rotate_refresh_token,
  delete_refresh_token, create_password_reset_token, reset_password,
}
use jobs_scraper.Auth.{
  Vault, Verifier, Site, ProfileRequest, get_profile_by_email, password_message, create_profile,
  CookieChange, clear_cookie, Answer, plain, set_refresh_cookie, create_session,
}

abbrev pub token_answer : ℕ → Text → CookieChange → Answer
token_answer status token cookie = record {
  response = record { status = status; body = token_body token };
  cookie = cookie;
}

-- The answer to a call of `createSession`, with the status of success and the message of failure.
abbrev pub session_answer : ℕ → Text → Option (Text × CookieChange) × Site → Answer × Site
session_answer status failure (none, s) = (plain (write_error 500 failure), s)
session_answer status failure (some (token, cookie), s) = (token_answer status token cookie, s)

-- The hash that a password is compared with where no profile has the address.
abbrev pub dummy_password_hash : Vault → Text
dummy_password_hash w = w.hash_password (codes "this is not anybody's real password")

abbrev pub invalid_login : Answer
invalid_login = plain (write_error 401 (codes "invalid email or password"))

abbrev pub could_not_log_in : Text
could_not_log_in = codes "could not log in"

-- The password is compared with a hash, whether the lookup found a profile or not.
abbrev pub compared_login :
    Vault → ProfileRequest → Time → Text → Bool → Site → Bool → ℕ → Text → Answer × Site
compared_login w req now fresh up s found id hash =
    if not (w.check_password req.password hash) || not found
    then (invalid_login, s)
    else session_answer 202 could_not_log_in (create_session w id now fresh req.remember_me up s)

abbrev pub checked_login :
    Vault → ProfileRequest → Time → Text → Bool → Site → Reply (ℕ × Text) → Answer × Site
checked_login w req now fresh up s (ok (id, hash)) =
    compared_login w req now fresh up s true id hash
checked_login w req now fresh up s no_rows =
    compared_login w req now fresh up s false 0 (dummy_password_hash w)
checked_login w req now fresh up s (invalid_input message) =
    (plain (write_error 500 could_not_log_in), s)
checked_login w req now fresh up s broken = (plain (write_error 500 could_not_log_in), s)

unfoldable pub handle_login_profile :
    Vault → Option ProfileRequest → Time → Text → Bool → Bool → Site → Answer × Site
handle_login_profile w none now fresh up up_too s = (plain bad_request, s)
handle_login_profile w (some req) now fresh up up_too s =
    checked_login w req now fresh up_too s (get_profile_by_email req.email up s)

abbrev pub could_not_create : Text
could_not_create = codes "could not create profile"

abbrev pub refused_profile : Reply ℕ → Response
refused_profile reply =
    write_db_error (codes "profile not found") could_not_create
      (λ id. record { status = 201; body = empty_body }) reply

abbrev pub first_session : Vault → Time → Text → Bool → Reply ℕ × Site → Answer × Site
first_session w now fresh up (ok id, s) =
    session_answer 201 could_not_create (create_session w id now fresh true up s)
first_session w now fresh up (no_rows, s) = (plain (refused_profile no_rows), s)
first_session w now fresh up (broken, s) = (plain (refused_profile broken), s)
first_session w now fresh up (invalid_input message, s) =
    (plain (refused_profile (invalid_input message)), s)

unfoldable pub handle_create_profile :
    Vault → Verifier → Option ProfileRequest → Time → Text → Bool → Bool → Site → Answer × Site
handle_create_profile w v none now fresh up up_too s = (plain bad_request, s)
handle_create_profile w v (some req) now fresh up up_too s =
    first_session w now fresh up_too (create_profile w v req up s)

abbrev pub missing_token : Answer
missing_token = record {
  response = write_error 401 (codes "refresh token missing or expired");
  cookie = clear_cookie;
}

abbrev pub could_not_refresh : Answer
could_not_refresh = record {
  response = write_error 500 (codes "could not refresh session");
  cookie = clear_cookie;
}

abbrev pub refreshed :
    Vault → Time → Text → Site → Outcome RefreshSession × Accounts → Answer × Site
refreshed w now fresh s (ok session, accounts) = (
  token_answer 200 (w.access_token session.profile_id now)
      (set_refresh_cookie fresh session.expires_at session.persistent),
  record s { accounts = accounts },
)
refreshed w now fresh s (no_rows, accounts) = (missing_token, s)
refreshed w now fresh s (conflict, accounts) = (could_not_refresh, s)
refreshed w now fresh s (bad_password, accounts) = (could_not_refresh, s)

-- On the refresh cookie, where the request has one.
unfoldable pub handle_refresh_profile :
    Vault → Option Text → Time → Text → Bool → Site → Answer × Site
handle_refresh_profile w none now fresh up s = (missing_token, s)
handle_refresh_profile w (some token) now fresh up s =
    if token == []
    then (missing_token, s)
    else if up
    then refreshed w now fresh s (rotate_refresh_token w.token_hash token fresh now s.accounts)
    else (could_not_refresh, s)

abbrev pub logged_out : Answer
logged_out = record { response = record { status = 204; body = empty_body }; cookie = clear_cookie }

unfoldable pub handle_logout_profile : Vault → Option Text → Bool → Site → Answer × Site
handle_logout_profile w none up s = (logged_out, s)
handle_logout_profile w (some token) up s = if token == [] then (logged_out, s) else (
  logged_out,
  if up then record s { accounts = delete_refresh_token w.token_hash token s.accounts } else s,
)

-- What `CreatePasswordResetToken` leaves: its transaction is rolled back where it fails.
abbrev pub reset_token_stored : Site → Outcome Text × Accounts → Site
reset_token_stored s (ok token, accounts) = record s { accounts = accounts }
reset_token_stored s (no_rows, accounts) = s
reset_token_stored s (conflict, accounts) = s
reset_token_stored s (bad_password, accounts) = s

-- `sendPasswordResetEmail`; its error is only logged, and the mail itself is not part of the state.
abbrev pub reset_mailed : Vault → Time → Text → Bool → Site → Reply (ℕ × Text) → Site
reset_mailed w now fresh up s (ok (id, hash)) =
    if up
    then reset_token_stored s (create_password_reset_token w.token_hash id fresh now s.accounts)
    else s
reset_mailed w now fresh up s no_rows = s
reset_mailed w now fresh up s broken = s
reset_mailed w now fresh up s (invalid_input message) = s

abbrev pub send_password_reset_email : Vault → Text → Time → Text → Bool → Bool → Site → Site
send_password_reset_email w email now fresh up up_too s =
    reset_mailed w now fresh up_too s (get_profile_by_email email up s)

abbrev pub reset_sent : Answer
reset_sent = plain (record { status = 202; body = status_body (codes "sent") })

-- On the address of the body.
unfoldable pub handle_request_password_reset :
    Vault → Option Text → Time → Text → Bool → Bool → Site → Answer × Site
handle_request_password_reset w none now fresh up up_too s = (plain bad_request, s)
handle_request_password_reset w (some email) now fresh up up_too s =
    if email == []
    then (plain bad_request, s)
    else (reset_sent, send_password_reset_email w email now fresh up up_too s)

pub record ResetConfirm : Type 0 where
  pub token : Text
  pub password : Text

abbrev pub could_not_reset : Text
could_not_reset = codes "could not reset password"

abbrev pub confirmed :
    Vault → ResetConfirm → Time → Text → Bool → Site → Outcome ℕ × Accounts → Answer × Site
confirmed w req now fresh up s (ok id, accounts) =
    session_answer 200 could_not_reset
      (create_session w id now fresh true up (record s { accounts = accounts }))
confirmed w req now fresh up s (bad_password, accounts) =
    (plain (write_error 400 (password_message req.password)), s)
confirmed w req now fresh up s (no_rows, accounts) =
    (plain (write_error 400 (codes "reset link is invalid or expired")), s)
confirmed w req now fresh up s (conflict, accounts) = (plain (write_error 500 could_not_reset), s)

-- `ResetPassword` checks the password before the database is asked.
abbrev pub confirm_with :
    Vault → ResetConfirm → Time → Text → Bool → Bool → Site → Outcome ℕ × Accounts → Answer × Site
confirm_with w req now fresh up up_too s (bad_password, accounts) =
    confirmed w req now fresh up_too s (bad_password, accounts)
confirm_with w req now fresh up up_too s (ok id, accounts) =
    if up
    then confirmed w req now fresh up_too s (ok id, accounts)
    else (plain (write_error 500 could_not_reset), s)
confirm_with w req now fresh up up_too s (no_rows, accounts) =
    if up
    then confirmed w req now fresh up_too s (no_rows, accounts)
    else (plain (write_error 500 could_not_reset), s)
confirm_with w req now fresh up up_too s (conflict, accounts) =
    (plain (write_error 500 could_not_reset), s)

unfoldable pub handle_confirm_password_reset :
    Vault → Option ResetConfirm → Time → Text → Bool → Bool → Site → Answer × Site
handle_confirm_password_reset w none now fresh up up_too s = (plain bad_request, s)
handle_confirm_password_reset w (some req) now fresh up up_too s =
    if req.token == []
    then (plain bad_request, s)
    else confirm_with w req now fresh up up_too s
        (reset_password w.token_hash w.hash_password req.token req.password now s.accounts)
