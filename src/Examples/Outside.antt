-- ===== src/Examples/Outside.antt =====
-- Concrete functions for the libraries that the program calls.
use webui_hub.Prelude.{
  ℕ, String, ◌≡◌, ◌≢◌, refl, ap, ltb, if◌then◌else◌, true, false, Option, none, some, arith, ◌==◌,
  eq_iff, eq_refl, Bool-cases, inl, inr,
}
use Prim.Native.Char.{Char}
use webui_hub.Auth.{Passwords}
use webui_hub.Json.{Json, num, str}
use webui_hub.Crypto.{Fernet, JsonText}
use webui_hub.Auth.{Jwt, Claims}
use webui_hub.Store.Push.{Digest}

-- A cipher that hides nothing.
instance abbrev pub open_fernet : Fernet
open_fernet = record { encrypt = λ t. t; decrypt = λ t. some t; decrypt-encrypt = λ t. refl }

abbrev pub str_or_blank : Json → String
str_or_blank (str t) = t
str_or_blank _ = ""

abbrev pub int_or_none : Json → Option ℕ
int_or_none (num n) = some n
int_or_none _ = none

instance abbrev pub plain_json : JsonText
plain_json = record {
  dumps = str_or_blank;
  loads = λ t. some (str t);
  str_of = str_or_blank;
  int_of = int_or_none;
  str_of_str = λ t. refl;
  int_of_num = λ n. refl;
}

instance abbrev pub blank_digest : Digest
blank_digest = record { digest = λ d. "" }

instance abbrev pub open_tokens : Jwt Claims
open_tokens = record {
  encode = λ c. c;
  decode = λ now c. if ltb c.exp now then none else some c;
  decode-encode = λ now c. refl;
}

-- A hash that puts one character before the password.
abbrev pub salted : String → String
salted p = String.◌∷◌ (Prim.Native.Char.char 36 tt) p

pub salted_filled : (p : String) → (salted p == "") ≡ false
salted_filled p = elim (Bool-cases (salted p == "")) [ inl e ↦ absurd (not_blank e) | inr e ↦ e ]
  where
    is_filled : String → ℕ
    is_filled String.[] = 0
    is_filled (String.◌∷◌ c s) = 1

    not_blank : salted p == "" ≢ true
    not_blank e = omega (arith, ap is_filled ((eq_iff (salted p) "").0 e))

instance abbrev pub salted_passwords : Passwords
salted_passwords = record {
  cut = λ p. p;
  hash = salted;
  verify = λ p h. salted p == h;
  verify-hash = λ p. eq_refl (salted p);
  hash_filled = salted_filled;
}
