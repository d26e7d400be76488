-- ===== src/Examples/AccountRuns.antt =====
-- Runs of the accounts, the tokens and the guards.
use webui_hub.Prelude.{◌≡◌, ◌≢◌, refl, true, false, none, some, [], ◌∷◌, map}
use webui_hub.Disk.{open_file}
use webui_hub.Exec.{ok}
use webui_hub.Auth.{verify_password, Server, authenticate_user, hash_password}
use webui_hub.Store.Users.{get_user, load_users, ensure_admin}
use webui_hub.Store.Users.Bootstrap.{load_users-save_users, ensure_admin-keeps_users, kept}
use webui_hub.Codec.{validate_each}
use webui_hub.Disk.{read_rows}
use webui_hub.Examples.Rows.{user_codec, command_codec}
use webui_hub.Examples.TenantRows.{tenant_codec}
use webui_hub.Examples.SpokeRows.{spoke_format, stroke_instants}
use webui_hub.Examples.Outside.{
  open_fernet, plain_json, blank_digest, open_tokens, salted_passwords,
}
use webui_hub.AccountRoutes.{change_password, with_password}
use webui_hub.AccountRoutes.Changed.{change_password-authenticate_user, is_shared}
use webui_hub.Examples.Data.{alice, root, mounted, user_disk}

users_loaded : load_users user_disk ≡ root ∷ alice ∷ []
users_loaded = load_users-save_users (root ∷ alice ∷ []) []

some_users : load_users user_disk ≢ []
some_users = rw users_loaded (λ e. cc)

ensure_admin-keeps_users_example :
    (true ≡ false → ensure_admin mounted root true user_disk ≡ user_disk)
    × (map (kept "root") (load_users (ensure_admin mounted root true user_disk))
        ≡ map (kept "root") (load_users user_disk))
ensure_admin-keeps_users_example = ensure_admin-keeps_users mounted root true user_disk some_users

no_users : load_users [] ≡ []
unfolding load_users validate_each read_rows open_file
no_users = refl

abbrev here : Server
here = record { boot_id = "b1"; expire_minutes = 60 }

alice_found : get_user "alice" user_disk ≡ some alice
unfolding get_user
alice_found = rw users_loaded

own_name : is_shared alice (load_users user_disk) ≡ false
own_name = rw (load_users-save_users (root ∷ alice ∷ []) []) refl

change_password-authenticate_user_example :
    ((change_password "sesame" "swordfish" alice user_disk).0 ≡ ok tt)
    × (authenticate_user "alice" "swordfish"
          (change_password "sesame" "swordfish" alice user_disk).1
        ≡ some (with_password "swordfish" alice))
    × (authenticate_user "alice" "sesame" (change_password "sesame" "swordfish" alice user_disk).1
        ≡ none)
change_password-authenticate_user_example =
    change_password-authenticate_user alice "sesame" "swordfish" "sesame" user_disk own_name
      (unfold verify_password in unfold hash_password in refl) (unfold hash_password in refl)
