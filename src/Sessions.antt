-- ===== src/Sessions.antt =====
-- Sessions and password resets (backend/database/refresh_tokens.go and password_reset.go): the
-- statements on the two tables of tokens and on the passwords.
pub mod Rotation
pub mod Reset
mod Tests
use jobs_scraper.Prelude.{
  ℕ, ◌+◌, ◌*◌, ◌≡◌, Bool, true, false, not, ◌&&◌, ◌||◌, Option, none, some, List, [], ◌∷◌, ◌++◌,
  map, keep, leb, ltb, if◌then◌else◌, ◌==◌ as nat_beq,
}
use jobs_scraper.Prelude.Keys.{◌==◌, nat_eq, list_eq, member, insert}
use jobs_scraper.Prelude.Text.{Text, byte_len}
use jobs_scraper.Jobs.{Time}

-- In nanoseconds.
abbrev pub refresh_token_lifetime : ℕ
refresh_token_lifetime = 30 * 24 * 3_600_000_000_000

abbrev pub session_refresh_token_lifetime : ℕ
session_refresh_token_lifetime = 24 * 3_600_000_000_000

abbrev pub password_reset_token_lifetime : ℕ
password_reset_token_lifetime = 3_600_000_000_000

unfoldable pub refresh_token_expiry : Time → Bool → Time
refresh_token_expiry now persistent =
    if persistent then now + refresh_token_lifetime else now + session_refresh_token_lifetime

pub record RefreshSession : Type 0 where
  pub profile_id : ℕ
  pub persistent : Bool
  pub expires_at : Time

pub record RefreshRow : Type 0 where
  pub token_hash : Text
  pub session : RefreshSession

pub record ResetRow : Type 0 where
  pub token_hash : Text
  pub profile_id : ℕ
  pub expires_at : Time

pub record Accounts : Type 0 where
  pub refresh_tokens : List RefreshRow
  pub reset_tokens : List ResetRow
  pub passwords : List (ℕ × Text)

-- How a call ends: `conflict` for a token hash that is taken.
pub data Outcome (A : Type 0) : Type 0 where
  ok : A → Outcome A
  no_rows conflict bad_password : Outcome A

abbrev pub hashes : List RefreshRow → List Text
hashes rows = map (λ row. row.token_hash) rows

abbrev pub is_valid_row : Text → Time → RefreshRow → Bool
is_valid_row hashed now row = row.token_hash == hashed && ltb now row.session.expires_at

abbrev pub first_refresh : (RefreshRow → Bool) → List RefreshRow → Option RefreshRow
first_refresh p [] = none
first_refresh p (row ∷ rows) = if p row then some row else first_refresh p rows

abbrev pub first_reset : (ResetRow → Bool) → List ResetRow → Option ResetRow
first_reset p [] = none
first_reset p (row ∷ rows) = if p row then some row else first_reset p rows

abbrev pub is_valid_reset : Text → Time → ResetRow → Bool
is_valid_reset hashed now row = row.token_hash == hashed && ltb now row.expires_at

abbrev pub max_password_bytes : ℕ
max_password_bytes = 72

unfoldable pub validate_password : Text → Bool
validate_password password =
    not (ltb (byte_len password) 8) && not (ltb max_password_bytes (byte_len password))

-- `refreshTokenHash`, over SHA-256, and `HashPassword`, over bcrypt.
module _ (token_hash : Text → Text) where
  unfoldable pub store_refresh_token :
      ℕ → Text → Time → Bool → Accounts → Outcome (Unit {0}) × Accounts
  store_refresh_token profile token expires_at persistent a =
      if member (token_hash token) (hashes a.refresh_tokens) then (conflict, a) else (
        ok tt,
        record a {
          refresh_tokens =
              a.refresh_tokens
              ++ (record {
                token_hash = token_hash token;
                session = record {
                  profile_id = profile;
                  persistent = persistent;
                  expires_at = expires_at;
                };
              })
                ∷ [];
        },
      )

  abbrev pub renewed : Time → RefreshRow → RefreshSession
  renewed now row = record {
    profile_id = row.session.profile_id;
    persistent = row.session.persistent;
    expires_at = refresh_token_expiry now row.session.persistent;
  }

  abbrev pub rotate_found :
      Text → Text → Time → Accounts → Option RefreshRow → Outcome RefreshSession × Accounts
  rotate_found old new now a none = (no_rows, a)
  rotate_found old new now a (some row) =
      if member (token_hash new) (hashes a.refresh_tokens) then (conflict, a) else (
        ok (renewed now row),
        record a {
          refresh_tokens =
              keep (λ r. not (is_valid_row (token_hash old) now r)) a.refresh_tokens
              ++ (record { token_hash = token_hash new; session = renewed now row }) ∷ [];
        },
      )

  unfoldable pub rotate_refresh_token :
      Text → Text → Time → Accounts → Outcome RefreshSession × Accounts
  rotate_refresh_token old new now a =
      rotate_found old new now a
        (first_refresh (is_valid_row (token_hash old) now) a.refresh_tokens)

  unfoldable pub delete_refresh_token : Text → Accounts → Accounts
  delete_refresh_token token a = record a {
    refresh_tokens = keep (λ r. not (r.token_hash == token_hash token)) a.refresh_tokens;
  }

  -- `token` is the random token that the call makes and returns.
  unfoldable pub create_password_reset_token : ℕ → Text → Time → Accounts → Outcome Text × Accounts
  create_password_reset_token profile token now a =
      let left =
        keep (λ r. not (nat_beq r.profile_id profile || leb r.expires_at now)) a.reset_tokens in
      if member (token_hash token) (map (λ r. r.token_hash) left) then (conflict, a) else (
        ok token,
        record a {
          reset_tokens =
              left
              ++ (record {
                token_hash = token_hash token;
                profile_id = profile;
                expires_at = now + password_reset_token_lifetime;
              })
                ∷ [];
        },
      )

  abbrev pub reset_found :
      (Text → Text) → Text → Text → Time → Accounts → Option ResetRow → Outcome ℕ × Accounts
  reset_found hash_password token password now a none = (no_rows, a)
  reset_found hash_password token password now a (some row) = (
    ok row.profile_id,
    record {
      refresh_tokens =
          keep (λ r. not (nat_beq r.session.profile_id row.profile_id)) a.refresh_tokens;
      reset_tokens = keep (λ r. not (is_valid_reset (token_hash token) now r)) a.reset_tokens;
      passwords = insert row.profile_id (hash_password password) a.passwords;
    },
  )

  unfoldable pub reset_password :
      (Text → Text) → Text → Text → Time → Accounts → Outcome ℕ × Accounts
  reset_password hash_password token password now a =
      if not (validate_password password)
      then (bad_password, a)
      else reset_found hash_password token password now a
          (first_reset (is_valid_reset (token_hash token) now) a.reset_tokens)
