-- ===== src/Accounts/Sessions.antt =====
-- service.go: what a login gives, and for how long.
use map_walker.Prelude.{
  ℕ, ◌+◌, ◌≡◌, refl, ◌∙◌, Bool, true, false, not, ◌&&◌, ◌||◌, inl, inr, Option, none, some, List,
  arith, if◌then◌else◌, leb, Bool-cases, Option-cases, if_cases, if_both,
}
use map_walker.Prelude.Eq.{nat_eq, beq_refl}
use map_walker.Prelude.Map
use map_walker.Prelude.Map.{lookup-insert, lookup-delete}
use map_walker.Prelude.MultiMap.{is_empty}
use map_walker.Accounts.{
  Text, text_eq, Db, UserRow, Session, User, Result, ok, failed, invalid_credentials,
  unauthenticated, session_expired, validate_username, validate_password, find_user, query,
  create_session, open_session, login, logout, delete_session, authenticate_session, session_user,
  auth_user_from_record, stored_time, session_expires_at,
}

module _ (works : ℕ → Bool) (to_lower : Text → Text) (hash_password : ℕ → Text → Option Text)
    (check_password : Text → Text → Bool) (new_token : ℕ → Option Text) (hash_token : Text → Text)
    (up : (n : ℕ) → works n ≡ true) where
  -- Credentials of an account that are right.
  pub record AreRight (db : Db) (username password : Text) (id : ℕ) (row : UserRow) : Type 0 where
    pub name : validate_username username ≡ none
    pub length : validate_password password ≡ none
    pub account : find_user (to_lower username) db.users ≡ some (id, row)
    pub stored : Map.lookup id db.users ≡ some row
    pub matches : check_password row.password_hash password ≡ true

  -- The random token is there, is not empty, and its hash is not taken.
  pub record IsFresh (db : Db) (token : Text) : Type 0 where
    pub drawn : new_token db.draws ≡ some token
    pub some_char : is_empty token ≡ false
    pub unused : Map.has (hash_token token) db.sessions ≡ false

  -- The database after the login.
  abbrev logged_in : Db → ℕ → Text → ℕ → Db
  logged_in db id token now = record db {
    calls = db.calls + 1 + 1;
    draws = db.draws + 1;
    sessions =
        Map.insert (hash_token token)
          (record {
            user_id = id;
            created_at = stored_time now;
            expires_at = stored_time (session_expires_at now);
          })
          db.sessions;
  }

  login-right :
      (db : Db) (username password : Text) (now id : ℕ) (row : UserRow) (token : Text)
      → AreRight db username password id row
      → IsFresh db token
      → login works to_lower hash_password check_password new_token hash_token db username password
          now
        ≡ (logged_in db id token now, ok (token, auth_user_from_record id row))
  unfolding login query open_session create_session
  login-right db username password now id row token r f =
      rw
        (
          r.name,
          r.length,
          up db.calls,
          r.account,
          r.matches,
          create_session,
          f.drawn,
          up (db.calls + 1),
          f.unused,
          login,
        )
        refl

  -- A session that is there, of a user that is there.
  authenticate-found :
      (db : Db) (token : Text) (session : Session) (row : UserRow) (later : ℕ)
      → is_empty token ≡ false
      → Map.lookup (hash_token token) db.sessions ≡ some session
      → Map.lookup session.user_id db.users ≡ some row
      → (authenticate_session works to_lower hash_password check_password new_token hash_token db
          token later).1
        ≡ (if leb session.expires_at later
            then failed session_expired
            else ok (auth_user_from_record session.user_id row))
  unfolding authenticate_session session_user query
  authenticate-found db token session row later some_char found user =
      rw (some_char, up db.calls, found)
        (if_cases
          (λ (r : Db × Result User). r.1 ≡ (
            if leb session.expires_at later
            then failed session_expired
            else ok (auth_user_from_record session.user_id row)))
          (leb session.expires_at later) (λ late. rw late refl)
          (λ early. rw (up (db.calls + 1), user, early) refl))

  authenticate-missing :
      (db : Db) (token : Text) (later : ℕ)
      → is_empty token ≡ false
      → Map.lookup (hash_token token) db.sessions ≡ none
      → (authenticate_session works to_lower hash_password check_password new_token hash_token db
          token later).1
        ≡ failed unauthenticated
  unfolding authenticate_session query
  authenticate-missing db token later some_char missing = rw (some_char, up db.calls, missing) refl

  lookup-insert_self :
      (t : Text) (session : Session) (m : List (Text × Session))
      → Map.lookup t (Map.insert t session m) ≡ some session
  lookup-insert_self t session m = lookup-insert t t session m ∙ rw (beq_refl t) refl

  -- Logout of a session that is there takes its row away.
  logout-found :
      (db : Db) (token : Text)
      → is_empty token ≡ false
      → Map.lookup
          (hash_token token)
          (logout works to_lower hash_password check_password new_token hash_token db
            token).0.sessions
        ≡ none
  unfolding logout delete_session
  logout-found db token some_char =
      rw (some_char, up db.calls)
        (if_both (λ (r : Db × Result Bool). Map.lookup (hash_token token) r.0.sessions ≡ none)
          (Map.has (hash_token token) db.sessions)
          (lookup-delete (hash_token token) (hash_token token) db.sessions
            ∙ rw (beq_refl (hash_token token)) refl)
          (lookup-delete (hash_token token) (hash_token token) db.sessions
            ∙ rw (beq_refl (hash_token token)) refl))

  -- If every call of the database succeeds, the credentials are those of an account, and the random
  -- token is not empty and its hash is free, then Login returns the token and the account,
  -- AuthenticateSession with the token then returns the same account until the stored time of
  -- expiry has come and ErrSessionExpired from then on, and after a Logout it returns
  -- ErrUnauthenticated.
  pub login-authenticates :
      (db : Db) (username password : Text) (now id : ℕ) (row : UserRow) (token : Text) (later : ℕ)
      → AreRight db username password id row
      → IsFresh db token
      → ((login works to_lower hash_password check_password new_token hash_token db username
            password now).1
          ≡ ok (token, auth_user_from_record id row))
        × ((authenticate_session works to_lower hash_password check_password new_token hash_token
              (login works to_lower hash_password check_password new_token hash_token db username
                password now).0
              token
              later).1
            ≡ (if leb (stored_time (session_expires_at now)) later
                then failed session_expired
                else ok (auth_user_from_record id row)))
        × ((authenticate_session works to_lower hash_password check_password new_token hash_token
              (logout works to_lower hash_password check_password new_token hash_token
                (login works to_lower hash_password check_password new_token hash_token db username
                  password now).0
                token).0
              token
              later).1
            ≡ failed unauthenticated)
  login-authenticates db username password now id row token later r f =
      let e = login-right db username password now id row token r f in
      let db1 = logged_in db id token now in
      rw e (
        refl,
        authenticate-found db1 token _ row later f.some_char
            (lookup-insert_self (hash_token token) _ db.sessions) r.stored,
        authenticate-missing _ token later f.some_char (logout-found db1 token f.some_char),
      )

  -- Whether the credentials are those of an account.
  unfoldable pub are_credentials : Db → Text → Text → Bool
  are_credentials db username password =
      not (Map.is_some (validate_username username) || Map.is_some (validate_password password))
      && (elim (find_user (to_lower username) db.users) [
        | none ↦ false
        | some (id, row) ↦ check_password row.password_hash password
      ])

  -- If every call of the database succeeds and the credentials are not those of an account, whether
  -- the name or the password is malformed, unknown or wrong, Login returns ErrInvalidCredentials
  -- and opens no session.
  pub login-refused :
      (db : Db) (username password : Text) (now : ℕ)
      → are_credentials db username password ≡ false
      → ((login works to_lower hash_password check_password new_token hash_token db username
            password now).1
          ≡ failed invalid_credentials)
        × ((login works to_lower hash_password check_password new_token hash_token db username
              password now).0.sessions
            ≡ db.sessions)
  unfolding login query open_session are_credentials
  login-refused db username password now wrong =
      let bad =
        Map.is_some (validate_username username) || Map.is_some (validate_password password) in
      elim (Bool-cases bad) [
        | inl b ↦ rw (b, login) (refl, refl)
        | inr g ↦ elim (Option-cases (find_user (to_lower username) db.users)) [
          | inl missing ↦ rw (g, up db.calls, missing, login) (refl, refl)
          | inr ((id, row), found) ↦
              let no : check_password row.password_hash password ≡ false =
                ground (arith, wrong, g, found) in
              rw (g, up db.calls, found, no, login) (refl, refl)
        ]
      ]
