-- ===== src/Tests/AccountRuns.antt =====
-- Logins at concrete inputs.
use map_walker.Prelude.{ℕ, ◌≡◌, refl, Bool, true, false, Option, some, [], ◌∷◌, if◌then◌else◌, leb}
use map_walker.Prelude.Eq.{nat_eq}
use map_walker.Prelude.Map
use map_walker.Game.Appearance.{default_appearance}
use map_walker.Accounts.{
  Text, text_eq, Db, UserRow, ok, failed, invalid_credentials, unauthenticated, session_expired,
  find_user, validate_username, validate_password, login, logout, authenticate_session,
  auth_user_from_record, stored_time, session_expires_at,
}
use map_walker.Accounts.Sessions.{
  AreRight, IsFresh, are_credentials, login-authenticates, login-refused,
}

abbrev works : ℕ → Bool
works n = true

works_up : (n : ℕ) → works n ≡ true
works_up n = refl

abbrev same : Text → Text
same s = s

abbrev hash_password : ℕ → Text → Option Text
hash_password n s = some s

abbrev check_password : Text → Text → Bool
check_password = text_eq.beq

abbrev new_token : ℕ → Option Text
new_token n = some (n ∷ [])

abbrev hash_token : Text → Text
hash_token s = 7 ∷ s

abbrev anna : Text
anna = 97 ∷ 110 ∷ 110 ∷ 97 ∷ []

abbrev secret : Text
secret = 1 ∷ 2 ∷ 3 ∷ 4 ∷ 5 ∷ 6 ∷ 7 ∷ 8 ∷ []

abbrev anna_row : UserRow
anna_row = record {
  username = anna;
  username_normalized = anna;
  password_hash = secret;
  created_at = 0;
  appearance = default_appearance;
  collectible_score = 3;
  is_synthetic = false;
}

abbrev db : Db
db = record { users = (4, anna_row) ∷ []; sessions = []; next_id = 5; calls = 0; draws = 9 }

anna-AreRight :
    AreRight works same hash_password check_password new_token hash_token works_up db anna secret 4
      anna_row
unfolding validate_username validate_password find_user Map.lookup
anna-AreRight = record { name = refl; length = refl; account = refl; stored = refl; matches = refl }

token-IsFresh :
    IsFresh works same hash_password check_password new_token hash_token works_up db (9 ∷ [])
unfolding Map.lookup
token-IsFresh = record { drawn = refl; some_char = refl; unused = refl }

login-authenticates_example :
    ((login works same hash_password check_password new_token hash_token db anna secret 5000).1
      ≡ ok (9 ∷ [], auth_user_from_record 4 anna_row))
    × ((authenticate_session works same hash_password check_password new_token hash_token
          (login works same hash_password check_password new_token hash_token db anna secret 5000).0
          (9 ∷ [])
          6000).1
        ≡ (if leb (stored_time (session_expires_at 5000)) 6000
            then failed session_expired
            else ok (auth_user_from_record 4 anna_row)))
    × ((authenticate_session works same hash_password check_password new_token hash_token
          (logout works same hash_password check_password new_token hash_token
            (login works same hash_password check_password new_token hash_token db anna secret
              5000).0
            (9 ∷ [])).0
          (9 ∷ [])
          6000).1
        ≡ failed unauthenticated)
login-authenticates_example =
    login-authenticates works same hash_password check_password new_token hash_token works_up db
      anna secret 5000 4 anna_row (9 ∷ []) 6000 anna-AreRight token-IsFresh

login-refused_example :
    ((login works same hash_password check_password new_token hash_token db anna anna 5000).1
      ≡ failed invalid_credentials)
    × ((login works same hash_password check_password new_token hash_token db anna anna
          5000).0.sessions
        ≡ db.sessions)
unfolding are_credentials validate_username validate_password find_user
login-refused_example =
    login-refused works same hash_password check_password new_token hash_token works_up db anna anna
      5000 refl
