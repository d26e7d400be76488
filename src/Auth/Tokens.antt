-- ===== src/Auth/Tokens.antt =====
-- Tokens: who is let in, and for how long.
use webui_hub.Prelude.{
  ℕ, String, ◌≡◌, false, ◌&&◌, not, none, some, ◌==◌, ◌+◌, ◌*◌, ltb, if◌then◌else◌, arith,
}
use webui_hub.Disk.{Disk}
use webui_hub.Exec.{ok, raised, http_error}
use webui_hub.Codec.{Codec}
use webui_hub.Models.{User}
use webui_hub.Store.Users.{get_user}
use webui_hub.Auth.{
  Jwt, Passwords, Server, login_token, create_qa_runner_token, decode_access_token, qa_user,
  qa_runner_sub, authenticate_user, verify_password, hash_password, or_unauthorized,
}

module _ (Token : Type 0) ⦃jwt : Jwt Token⦄ ⦃users : Codec User⦄ where
  -- A login token of a user whose name is neither empty nor the QA runner's names the user exactly
  -- while it lives, on servers of the same boot id: there the user is looked up in the file, and
  -- everywhere else the answer is 401.
  pub decode-login_token :
      (issuer server : Server) (issued now : ℕ) (username : String) (d : Disk)
      → (username == "") ≡ false
      → (username == qa_runner_sub) ≡ false
      → decode_access_token {Token = Token} server now (login_token issuer issued username) d ≡ (
          if ltb (issued + 60 * issuer.expire_minutes) now
          then raised (http_error 401)
          else if issuer.boot_id == server.boot_id
          then or_unauthorized (get_user username d)
          else raised (http_error 401))
  unfolding decode_access_token login_token
  decode-login_token issuer server issued now username d filled other =
      rw jwt.decode-encode (ground (arith, filled, other))

  -- A QA token for a tenant id that is not empty names the QA runner of the tenant, for two hours
  -- at most and on servers of the same boot id.
  pub decode-create_qa_runner_token :
      (issuer server : Server) (issued now : ℕ) (tenant_id key_id : String) (d : Disk)
      → (tenant_id == "") ≡ false
      → decode_access_token {Token = Token} server now
          (create_qa_runner_token issuer issued tenant_id key_id)
          d
        ≡ (if ltb (issued + 7200) now
            then raised (http_error 401)
            else if issuer.boot_id == server.boot_id
            then ok (qa_user now tenant_id)
            else raised (http_error 401))
  unfolding decode_access_token create_qa_runner_token
  decode-create_qa_runner_token issuer server issued now tenant_id key_id d filled =
      rw jwt.decode-encode (ground (arith, filled))

module _ ⦃passwords : Passwords⦄ ⦃users : Codec User⦄ where
  -- A login succeeds exactly for the stored user of that name whose hash is not empty and verifies.
  pub authenticate_user_iff :
      (username password : String) (d : Disk) (user : User)
      → get_user username d ≡ some user
      → authenticate_user username password d ≡ (
          if not (user.hashed_password == "")
            && passwords.verify (passwords.cut password) user.hashed_password
          then some user
          else none)
  unfolding authenticate_user verify_password
  authenticate_user_iff username password d user h = rw h (ground arith)

  -- The password that was hashed into the stored user logs in.
  pub authenticate-hash_password :
      (username password : String) (d : Disk) (user : User)
      → get_user username d ≡ some user
      → user.hashed_password ≡ hash_password password
      → authenticate_user username password d ≡ some user
  unfolding authenticate_user verify_password hash_password
  authenticate-hash_password username password d user h e = rw h (
      ground (
        arith,
        e,
        passwords.hash_filled (passwords.cut password),
        passwords.verify-hash (passwords.cut password),
      ))
