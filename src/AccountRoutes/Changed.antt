-- ===== src/AccountRoutes/Changed.antt =====
-- A changed password (app/routers/auth.py, `change_password`).
use webui_hub.Prelude.{
  String, ◌≡◌, refl, ◌∙◌, Bool, true, false, not, ◌&&◌, none, some, List, [], ◌∷◌, ◌++◌, ◌==◌, find,
  keep, any, arith, eq_refl,
}
use webui_hub.Disk.{Disk}
use webui_hub.Exec.{ok}
use webui_hub.Codec.{Codec}
use webui_hub.Models.{User}
use webui_hub.Auth.{Passwords, authenticate_user, verify_password, hash_password}
use webui_hub.Auth.Tokens.{authenticate_user_iff, authenticate-hash_password}
use webui_hub.Store.Users.{load_users, save_user, get_user}
use webui_hub.Store.Users.Bootstrap.{load_users-save_users}
use webui_hub.AccountRoutes.{change_password, with_password}

-- Has another account the name?
abbrev pub is_shared : User → List User → Bool
is_shared u us = any (λ x. not (x.id == u.id) && (x.username == u.username)) us

find-replaced :
    (u : User) (us : List User)
    → is_shared u us ≡ false
    → find (λ x. x.username == u.username) (keep (λ x. not (x.id == u.id)) us ++ u ∷ []) ≡ some u
find-replaced u [] h = ground (arith, eq_refl u.username)
find-replaced u (x ∷ us) h = ground (arith, h, find-replaced u us)

module _ ⦃passwords : Passwords⦄ ⦃users : Codec User⦄ where
  -- A user whose name no other account has changes its password, and gives the current one: the
  -- route succeeds, the new password logs in, and a password that does not verify against the new
  -- hash does not.
  pub change_password-authenticate_user :
      (user : User) (current new other : String) (d : Disk)
      → is_shared user (load_users d) ≡ false
      → verify_password current user.hashed_password ≡ true
      → passwords.verify (passwords.cut other) (hash_password new) ≡ false
      → ((change_password current new user d).0 ≡ ok tt)
        × (authenticate_user user.username new (change_password current new user d).1
            ≡ some (with_password new user))
        × (authenticate_user user.username other (change_password current new user d).1 ≡ none)
  unfolding change_password
  change_password-authenticate_user user current new other d own verified wrong = rw verified (
    refl,
    authenticate-hash_password user.username new _ (with_password new user) stored refl,
    authenticate_user_iff user.username other _ (with_password new user) stored
        ∙ ground (arith, wrong),
  )
    where
      stored :
          get_user user.username (save_user (with_password new user) d)
          ≡ some (with_password new user)
      stored =
          unfold get_user save_user in
          rw load_users-save_users (find-replaced (with_password new user) (load_users d) own)
