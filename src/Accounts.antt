-- ===== src/Accounts.antt =====
-- app/services/auth.py. The password hasher is a parameter: `verify` is false where it raises.
use emailmarketing.Text.{◌==◌ as str_eq, Text, lower, strip}
use emailmarketing.Base.{
  ℕ, ◌==◌, ◌+◌, Bool, true, false, not, Option, none, some, List, [], ◌∷◌, if◌then◌else◌, ◌++◌,
  find, update_where,
}

pub record User : Type 0 where
  pub id : ℕ
  pub email : Text
  pub password_hash : Text
  pub is_active : Bool
  pub is_admin : Bool
  pub must_change_password : Bool

pub record UserTable : Type 0 where
  pub users : List User
  pub next_id : ℕ

unfoldable pub normalize_login : Text → Text
normalize_login email = lower (strip email)

module _ (hash : Text → Text) (verify : Text → Text → Bool) where
  -- the guards of a login on the row that is found
  unfoldable pub admit : Option User → Text → Option User
  admit none password = none
  admit (some u) password =
      if not u.is_active then none else if verify u.password_hash password then some u else none

  unfoldable pub authenticate : Text → Text → UserTable → Option User
  authenticate email password t =
      admit (find (λ (u : User). str_eq u.email (normalize_login email)) t.users) password

  unfoldable pub create_user : Text → Text → Bool → Bool → UserTable → UserTable × User
  create_user email password is_admin must_change_password t =
      let user : User = record {
        id = t.next_id;
        email = normalize_login email;
        password_hash = hash password;
        is_active = true;
        is_admin = is_admin;
        must_change_password = must_change_password;
      } in
      (record { users = t.users ++ user ∷ []; next_id = t.next_id + 1 }, user)

  unfoldable pub set_password : User → Text → UserTable → UserTable
  set_password user new_password t = record t {
    users =
        update_where (λ (u : User). u.id == user.id)
          (λ (u : User). record u {
            password_hash = hash new_password;
            must_change_password = false;
          })
          t.users;
  }
