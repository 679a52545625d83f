-- ===== src/Accounts.antt =====
-- internal/auth/service.go with username.go, password.go and session.go, over the tables users and
-- sessions as internal/storage/users.go and sessions.go read and write them. A text is the list of
-- its code points. strings.ToLower, bcrypt, sha256 and the random tokens are parameters. `works n`
-- says whether the n-th call of the database succeeds. Times are nanoseconds; the database keeps
-- them in whole seconds.
pub mod Sessions
use map_walker.Prelude.{
  ℕ, ◌+◌, ◌*◌, ◌/◌, Bool, true, false, not, ◌&&◌, ◌||◌, Option, none, some, List, [], ◌∷◌,
  if◌then◌else◌, ltb, leb, length, arith, ◌≡◌, ◌↔◌,
}
use map_walker.Prelude.Eq.{Eq, nat_eq}
use map_walker.Prelude.Map
use map_walker.Prelude.MultiMap.{is_empty}
use map_walker.Game.Appearance.{Appearance, default_appearance}
use map_walker.Synthetic.Naming.{has_prefix, username_prefix}

abbrev pub Text : Type 0
Text = List ℕ

abbrev pub text_beq : Text → Text → Bool
text_beq [] [] = true
text_beq [] (d ∷ t) = false
text_beq (c ∷ s) [] = false
text_beq (c ∷ s) (d ∷ t) = nat_eq.beq c d && text_beq s t

pub text_beq_iff : (s t : Text) → (text_beq s t ≡ true) ↔ (s ≡ t)
text_beq_iff [] [] = ground arith
text_beq_iff [] (d ∷ t) = ground arith
text_beq_iff (c ∷ s) [] = ground arith
text_beq_iff (c ∷ s) (d ∷ t) = ground (arith, text_beq_iff s t)

instance abbrev pub text_eq : Eq Text
text_eq = record { beq = text_beq; beq_iff = text_beq_iff }

-- The errors of errors.go, and any other.
pub data AuthError : Type 0 where
  invalid_username : AuthError
  invalid_password : AuthError
  username_unavailable : AuthError
  invalid_credentials : AuthError
  unauthenticated : AuthError
  session_expired : AuthError
  internal_error : AuthError

pub data Result (A : Type 0) : Type 0 where
  ok : A → Result A
  failed : AuthError → Result A

-- A row of users, without the last position.
pub record UserRow : Type 0 where
  pub username : Text
  pub username_normalized : Text
  pub password_hash : Text
  pub created_at : ℕ
  pub appearance : Appearance
  pub collectible_score : ℕ
  pub is_synthetic : Bool

pub record Session : Type 0 where
  pub user_id : ℕ
  pub created_at : ℕ
  pub expires_at : ℕ

-- `draws` counts the random tokens and salts.
pub record Db : Type 0 where
  pub users : List (ℕ × UserRow)
  pub sessions : List (Text × Session)
  pub next_id : ℕ
  pub calls : ℕ
  pub draws : ℕ

pub record User : Type 0 where
  pub id : ℕ
  pub username : Text
  pub appearance : Appearance
  pub score : ℕ
  pub is_synthetic : Bool

abbrev pub session_duration : ℕ
session_duration = 30 * 24 * 3600 * 1000000000

unfoldable pub session_expires_at : ℕ → ℕ
session_expires_at now = now + session_duration

-- What `parseTime` reads of what `formatTime` wrote.
unfoldable pub stored_time : ℕ → ℕ
stored_time t = t / 1000000000 * 1000000000

unfoldable pub validate_username : Text → Option AuthError
validate_username username =
    if ltb (length username) 3 || ltb 32 (length username) then some invalid_username else none

unfoldable pub validate_password : Text → Option AuthError
validate_password password = if ltb (length password) 8 then some invalid_password else none

unfoldable pub find_user : Text → List (ℕ × UserRow) → Option (ℕ × UserRow)
find_user normalized [] = none
find_user normalized ((id, row) ∷ rows) =
    let rest = find_user normalized rows in
    if text_beq row.username_normalized normalized then some (id, row) else rest

unfoldable pub auth_user_from_record : ℕ → UserRow → User
auth_user_from_record id row = record {
  id = id;
  username = row.username;
  appearance = row.appearance;
  score = row.collectible_score;
  is_synthetic = row.is_synthetic;
}

-- The next call, unless this one has failed.
abbrev pub on_success : {A B : Type 0} → Db × Result A → (Db → A → Db × Result B) → Db × Result B
on_success (db, failed e) next = (db, failed e)
on_success (db, ok a) next = next db a

abbrev pub count_call : Db → Db
count_call db = record db { calls = db.calls + 1 }

module _ (works : ℕ → Bool) where
  -- `DeleteSession`, whose result says whether a row is gone.
  unfoldable pub delete_session : Db → Text → Db × Result Bool
  delete_session db token_hash =
      if not (works db.calls) then (count_call db, failed internal_error) else (
        record (count_call db) { sessions = Map.delete token_hash db.sessions },
        ok (Map.has token_hash db.sessions),
      )

  -- The rest of the queries, which change nothing: the row, if there is one.
  unfoldable pub query : {A : Type 0} → Db → Option A → Db × Result (Option A)
  query db row =
      if works db.calls then (count_call db, ok row) else (count_call db, failed internal_error)

  module _ (to_lower : Text → Text) (hash_password : ℕ → Text → Option Text)
      (check_password : Text → Text → Bool) (new_token : ℕ → Option Text)
      (hash_token : Text → Text) where
    unfoldable pub validate_registration_username : Text → Option AuthError
    validate_registration_username username = elim (validate_username username) [
      | some e ↦ some e
      | none ↦
          if has_prefix username_prefix (to_lower username) then some username_unavailable else none
    ]

    -- `createSession`; a token hash is the key of its row, so that a second one is refused.
    unfoldable pub create_session : Db → ℕ → ℕ → Db × Result Text
    create_session db user_id now = elim (new_token db.draws) [
      | none ↦ (record db { draws = db.draws + 1 }, failed internal_error)
      | some token ↦
          let drawn = count_call (record db { draws = db.draws + 1 }) in
          if not (works db.calls) || Map.has (hash_token token) db.sessions
          then (drawn, failed internal_error)
          else (
            record drawn {
              sessions =
                  Map.insert (hash_token token)
                    (record {
                      user_id = user_id;
                      created_at = stored_time now;
                      expires_at = stored_time (session_expires_at now);
                    })
                    db.sessions;
            },
            ok token,
          )
    ]

    -- `CreateUser` of a new account.
    unfoldable pub create_user : Db → Text → Text → ℕ → Db × Result ℕ
    create_user db username password_hash now =
        if not (works db.calls)
        then (count_call db, failed internal_error)
        else (if Map.is_some (find_user (to_lower username) db.users)
            then (count_call db, failed username_unavailable)
            else (
              record (count_call db) {
                next_id = db.next_id + 1;
                users =
                    Map.insert db.next_id
                      (record {
                        username = username;
                        username_normalized = to_lower username;
                        password_hash = password_hash;
                        created_at = stored_time now;
                        appearance = default_appearance;
                        collectible_score = 0;
                        is_synthetic = false;
                      })
                      db.users;
              },
              ok db.next_id,
            ))

    -- The end of Register: the session and the row of the new user.
    unfoldable pub open_account : Db → ℕ → ℕ → Db × Result (Text × User)
    open_account db user_id now = on_success (create_session db user_id now) (λ db1 token.
        on_success (query db1 (Map.lookup user_id db1.users)) (λ db2 found. elim found [
          | none ↦ (db2, failed internal_error)
          | some row ↦ (db2, ok (token, auth_user_from_record user_id row))
        ]))

    unfoldable pub register : Db → Text → Text → ℕ → Db × Result (Text × User)
    register db username password now = elim (validate_registration_username username) [
      | some e ↦ (db, failed e)
      | none ↦ elim (validate_password password) [
        | some e ↦ (db, failed e)
        | none ↦ elim (hash_password db.draws password) [
          | none ↦ (record db { draws = db.draws + 1 }, failed internal_error)
          | some hash ↦
              on_success (create_user (record db { draws = db.draws + 1 }) username hash now)
                (λ db1 user_id. open_account db1 user_id now)
        ]
      ]
    ]

    -- Login once the row is known.
    unfoldable pub open_session : Db → ℕ → UserRow → Text → ℕ → Db × Result (Text × User)
    open_session db id row password now =
        if not (check_password row.password_hash password)
        then (db, failed invalid_credentials)
        else on_success (create_session db id now)
            (λ db1 token. (db1, ok (token, auth_user_from_record id row)))

    unfoldable pub login : Db → Text → Text → ℕ → Db × Result (Text × User)
    login db username password now =
        if Map.is_some (validate_username username) || Map.is_some (validate_password password)
        then (db, failed invalid_credentials)
        else on_success (query db (find_user (to_lower username) db.users)) (λ db1 found.
          elim found [
            | none ↦ (db1, failed invalid_credentials)
            | some (id, row) ↦ open_session db1 id row password now
          ])

    unfoldable pub logout : Db → Text → Db × Result Bool
    logout db token =
        if is_empty token
        then (db, failed unauthenticated)
        else on_success (delete_session db (hash_token token))
            (λ db1 deleted. if deleted then (db1, ok true) else (db1, failed unauthenticated))

    -- AuthenticateSession once the session is known.
    unfoldable pub session_user : Db → Session → ℕ → Db × Result User
    session_user db session now =
        if leb session.expires_at now
        then (db, failed session_expired)
        else on_success (query db (Map.lookup session.user_id db.users)) (λ db1 found. elim found [
          | none ↦ (db1, failed unauthenticated)
          | some row ↦ (db1, ok (auth_user_from_record session.user_id row))
        ])

    unfoldable pub authenticate_session : Db → Text → ℕ → Db × Result User
    authenticate_session db token now =
        if is_empty token
        then (db, failed unauthenticated)
        else on_success (query db (Map.lookup (hash_token token) db.sessions)) (λ db1 found.
          elim found [
            | none ↦ (db1, failed unauthenticated)
            | some session ↦ session_user db1 session now
          ])
