-- ===== src/Auth.antt =====
-- Accounts (backend/database/profiles.go) and what their handlers share
-- (backend/server/profiles.go, middleware.go): registration, sessions and cookies.
pub mod Handlers
pub mod Login
pub mod Created
pub mod Logout
mod Tests
use jobs_scraper.Prelude.{
  ℕ, suc, ◌≡◌, Bool, true, false, not, ◌&&◌, ◌||◌, Option, none, some, List, [], ◌∷◌, ◌++◌, leb,
  ltb, if◌then◌else◌, ◌==◌ as nat_beq,
}
use jobs_scraper.Prelude.Keys.{◌==◌, nat_eq, list_eq, lookup, insert}
use jobs_scraper.Prelude.Text.{Text, codes, byte_len, cut_prefix}
use jobs_scraper.Jobs.{Time}
use jobs_scraper.Rows.{Reply, ok, invalid_input, no_rows, broken}
use jobs_scraper.Server.{Response, write_error}
use jobs_scraper.Sessions.{
  Accounts, Outcome, ok, no_rows, conflict, bad_password, max_password_bytes, validate_password,
  refresh_token_expiry, store_refresh_token,
}

-- SHA-256, bcrypt and the signed access tokens.
pub record Vault : Type 0 where
  pub token_hash : Text → Text
  pub hash_password : Text → Text
  pub check_password : Text → Text → Bool
  pub access_token : ℕ → Time → Text

-- What the address verifier says: its wait may time out, it may fail, or it tells whether the
-- syntax is valid, whether the domain takes mail, and whether the address is disposable.
pub data Verified : Type 0 where
  timed_out verifier_failed : Verified
  verified : Bool → Bool → Bool → Verified

pub record Verifier : Type 0 where
  pub verify : Text → Verified
  pub parses : Text → Bool

-- The ids of the profiles by address, the next id, and their tokens and passwords.
pub record Site : Type 0 where
  pub emails : List (Text × ℕ)
  pub next_id : ℕ
  pub accounts : Accounts

pub record ProfileRequest : Type 0 where
  pub email : Text
  pub password : Text
  pub remember_me : Bool

abbrev pub password_of : ℕ → Option Text → Reply (ℕ × Text)
password_of id none = no_rows
password_of id (some hash) = ok (id, hash)

abbrev pub profile_of : Site → Option ℕ → Reply (ℕ × Text)
profile_of s none = no_rows
profile_of s (some id) = password_of id (lookup id s.accounts.passwords)

-- `up` tells whether the database runs the statement, here and below.
unfoldable pub get_profile_by_email : Text → Bool → Site → Reply (ℕ × Text)
get_profile_by_email email up s = if up then profile_of s (lookup email s.emails) else broken

-- The message of `validatePassword`.
abbrev pub password_message : Text → Text
password_message password =
    if ltb (byte_len password) 8
    then codes "password must be at least 8 characters"
    else codes "password must be at most 72 bytes"

-- `none` where the address passes, or else the error.
abbrev pub refuse_email : Verifier → Text → Verified → Option (Reply ℕ)
refuse_email v email timed_out =
    if v.parses email
    then none
    else some (invalid_input (codes "email is invalid or undeliverable"))
refuse_email v email verifier_failed = some broken
refuse_email v email (verified valid has_mx disposable) =
    if not valid || (not has_mx || disposable)
    then some (invalid_input (codes "email is invalid or undeliverable"))
    else none

-- `INSERT ... ON CONFLICT (email) DO NOTHING RETURNING id`
abbrev pub insert_profile : Vault → ProfileRequest → Site → Option ℕ → Reply ℕ × Site
insert_profile w req s (some id) = (invalid_input (codes "email already registered"), s)
insert_profile w req s none = (
  ok s.next_id,
  record {
    emails = insert req.email s.next_id s.emails;
    next_id = suc s.next_id;
    accounts = record {
      refresh_tokens = s.accounts.refresh_tokens;
      reset_tokens = s.accounts.reset_tokens;
      passwords = insert s.next_id (w.hash_password req.password) s.accounts.passwords;
    };
  },
)

abbrev pub insert_checked : Vault → ProfileRequest → Bool → Site → Option (Reply ℕ) → Reply ℕ × Site
insert_checked w req up s (some refusal) = (refusal, s)
insert_checked w req up s none =
    if up then insert_profile w req s (lookup req.email s.emails) else (broken, s)

unfoldable pub create_profile : Vault → Verifier → ProfileRequest → Bool → Site → Reply ℕ × Site
create_profile w v req up s =
    if req.email == [] || req.password == []
    then (invalid_input (codes "email and password are required"), s)
    else if not (validate_password req.password)
    then (invalid_input (password_message req.password), s)
    else insert_checked w req up s (refuse_email v req.email (v.verify req.email))

-- What an answer does to the refresh cookie: a cookie that is set expires with its token where the
-- session is persistent, and with the browser where it is not.
pub data CookieChange : Type 0 where
  leave_cookie clear_cookie : CookieChange
  set_cookie : Text → Option Time → CookieChange

pub record Answer : Type 0 where
  pub response : Response
  pub cookie : CookieChange

abbrev pub plain : Response → Answer
plain response = record { response = response; cookie = leave_cookie }

unfoldable pub set_refresh_cookie : Text → Time → Bool → CookieChange
set_refresh_cookie token expires_at persistent =
    set_cookie token (if persistent then some expires_at else none)

-- `createSession`: the access token and the cookie, or `none` where the refresh token is not stored.
-- `fresh` is the random token that is made.
abbrev pub stored_session :
    Vault
    → ℕ
    → Time
    → Text
    → Bool
    → Site
    → Outcome (Unit {0}) × Accounts
    → Option (Text × CookieChange) × Site
stored_session w profile now fresh persistent s (ok u, accounts) = (
  some (
    w.access_token profile now,
    set_refresh_cookie fresh (refresh_token_expiry now persistent) persistent,
  ),
  record s { accounts = accounts },
)
stored_session w profile now fresh persistent s (no_rows, accounts) = (none, s)
stored_session w profile now fresh persistent s (conflict, accounts) = (none, s)
stored_session w profile now fresh persistent s (bad_password, accounts) = (none, s)

unfoldable pub create_session :
    Vault → ℕ → Time → Text → Bool → Bool → Site → Option (Text × CookieChange) × Site
create_session w profile now fresh persistent up s =
    if up
    then stored_session w profile now fresh persistent s (
        store_refresh_token w.token_hash profile fresh (refresh_token_expiry now persistent)
          persistent s.accounts)
    else (none, s)

-- `withAuth`, on the header's text and what `jwt.Parse` makes of a token.
abbrev pub authed : {A : Type 0} → (Response → A) → (ℕ → A) → Option ℕ → A
authed refuse next none = refuse (write_error 401 (codes "invalid or expired token"))
authed refuse next (some profile) = next profile

abbrev pub with_token :
    {A : Type 0} → (Text → Option ℕ) → (Response → A) → (ℕ → A) → Option Text → A
with_token read refuse next none = refuse (write_error 401 (codes "missing bearer token"))
with_token read refuse next (some token) =
    if token == []
    then refuse (write_error 401 (codes "missing bearer token"))
    else authed refuse next (read token)

unfoldable pub with_auth : {A : Type 0} → (Text → Option ℕ) → (Response → A) → (ℕ → A) → Text → A
with_auth read refuse next header =
    with_token read refuse next (cut_prefix header (codes "Bearer "))
