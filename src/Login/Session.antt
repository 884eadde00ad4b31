-- ===== src/Login/Session.antt =====
-- What a login gives: `checkUserIsAllowed`, `generateTgSession` and `prepareSession` of
-- pkg/services/auth.go. The base64 encoding is a parameter.
use teldrive_easy.Prelude.{
  ℕ, ◌/◌, ◌%◌, Bool, true, false, ◌||◌, List, [], ◌∷◌, ◌++◌, ◌==◌, if◌then◌else◌,
}
use teldrive_easy.Text.{Text, text_equal}
use teldrive_easy.Login.Attempt.{Session}

pub record User : Type 0 where
  pub id : ℕ
  pub username : Text
  pub first_name : Text
  pub last_name : Text
  pub premium : Bool

pub record SessionData : Type 0 where
  pub dc : ℕ
  pub auth_key : List ℕ

unfoldable pub contains : List Text → Text → Bool
contains [] t = false
contains (s ∷ ss) t = text_equal s t || contains ss t

unfoldable pub check_user_is_allowed : List Text → Text → Bool
check_user_is_allowed [] user_name = true
check_user_is_allowed (u ∷ us) user_name = contains (u ∷ us) user_name

-- The address of a data centre; an unknown one has none, which packs to zeros.
unfoldable pub dc_address : ℕ → List ℕ
dc_address dc =
    if dc == 1
    then 149 ∷ 154 ∷ 175 ∷ 53 ∷ []
    else if dc == 2
    then 149 ∷ 154 ∷ 167 ∷ 51 ∷ []
    else if dc == 3
    then 149 ∷ 154 ∷ 175 ∷ 100 ∷ []
    else if dc == 4
    then 149 ∷ 154 ∷ 167 ∷ 91 ∷ []
    else if dc == 5
    then 91 ∷ 108 ∷ 56 ∷ 130 ∷ []
    else 0 ∷ 0 ∷ 0 ∷ 0 ∷ []

unfoldable pub put_uint16 : ℕ → List ℕ
put_uint16 n = n % 65536 / 256 ∷ n % 256 ∷ []

unfoldable pub generate_tg_session : (List ℕ → Text) → (dc : ℕ) → List ℕ → (port : ℕ) → Text
generate_tg_session base64 dc auth_key port =
    49 ∷ base64 (dc % 256 ∷ dc_address dc ++ put_uint16 port ++ auth_key)

unfoldable pub prepare_session : (List ℕ → Text) → User → SessionData → Session
prepare_session base64 user data_ = record {
  session = generate_tg_session base64 data_.dc data_.auth_key 443;
  user_id = user.id;
  user_name = user.username;
  name = user.first_name ++ 32 ∷ user.last_name;
  is_premium = user.premium;
}
