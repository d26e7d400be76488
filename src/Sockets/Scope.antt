-- ===== src/Sockets/Scope.antt =====
-- Which browsers an event reaches.
use webui_hub.Prelude.{
  ℕ, String, ◌≡◌, refl, ap, ◌∙◌, Bool, true, false, not, ◌&&◌, ◌||◌, Option, some, List, [], ◌∷◌,
  ◌++◌, ◌==◌, eqb, keep, map, any, arith, keep-append, Bool-cases, inl, inr,
}
use mathlib.Core.List.{map-append}
use webui_hub.Json.{Json, Dict, str, truthy}
use webui_hub.Exec.{Result, ok, raised}
use webui_hub.Models.{User, tenant_ids}
use webui_hub.Auth.{require_tenant_access}
use webui_hub.Sockets.{
  Browser, Sockets, ws_connect, ws_broadcast, sees, event_tenant, scope_of, other_socket,
}

abbrev pub passes : Result User → Bool
passes (ok user) = true
passes (raised e) = false

-- The scope of a user's socket shows what the guard of the routes lets the user see.
sees-scope_of :
    (t : String) (user : User)
    → (t == "") ≡ false
    → sees (some (str t)) (scope_of user) ≡ passes (require_tenant_access t user)
unfolding truthy require_tenant_access tenant_ids
sees-scope_of t user filled = elim (Bool-cases user.is_superadmin) [
  | inl e ↦ simp e
  | inr e ↦ simp e (rw filled (ground arith))
]

any-others :
    (w : ℕ) (test : Browser → Bool) (bs : List Browser)
    → any (λ x. eqb x w) (map (λ b. b.socket) (keep test (keep (other_socket w) bs))) ≡ false
any-others w test [] = refl
any-others w test (b ∷ bs) = ground (arith, any-others w test bs)

any_socket-others :
    (w : ℕ) (test : Browser → Bool) (bs : List Browser)
    → any (λ b. eqb b.socket w) (keep test (keep (other_socket w) bs)) ≡ false
any_socket-others w test [] = refl
any_socket-others w test (b ∷ bs) = ground (arith, any_socket-others w test bs)

any-append {ℓ} :
    {A : Type ℓ} (test : A → Bool) (xs ys : List A)
    → any test (xs ++ ys) ≡ (any test xs || any test ys)
any-append test [] ys = refl
any-append test (x ∷ xs) ys = ground (arith, any-append test xs ys)

module _ (w : ℕ) (test : Browser → Bool) (scope : Option (List String)) (bs : List Browser) where
  abbrev connected : Browser
  connected = record { socket = w; scope = scope }

  any-connected :
      any
        (λ x. eqb x w)
        (map (λ b. b.socket) (keep test (keep (other_socket w) bs ++ connected ∷ [])))
      ≡ test connected
  any-connected = rw (keep-append, map-append) (rw (any-append, any-others) (ground arith))

  any_socket-connected :
      any (λ b. eqb b.socket w) (keep test (keep (other_socket w) bs ++ connected ∷ []))
      ≡ test connected
  any_socket-connected = rw keep-append (rw (any-append, any_socket-others) (ground arith))

-- After a user's socket is connected, an event of a tenant reaches the socket exactly where the
-- routes would let the user see the tenant and the send does not raise, and the socket is
-- disconnected exactly where the send was tried and raised.
pub ws_broadcast-ws_connect :
    (fails : ℕ → Bool) (w : ℕ) (user : User) (t : String) (event : Dict Json) (s : Sockets)
    → event_tenant event ≡ some (str t)
    → (t == "") ≡ false
    → (any (λ x. eqb x w) (ws_broadcast fails event (ws_connect w (some user) s)).0
        ≡ (passes (require_tenant_access t user) && not (fails w)))
      × (any
            (λ b. eqb b.socket w)
            (ws_broadcast fails event (ws_connect w (some user) s)).1.browser_connections
          ≡ not (passes (require_tenant_access t user) && fails w))
unfolding ws_broadcast ws_connect
ws_broadcast-ws_connect fails w user t event s named filled = rw named (
  any-connected w _ (scope_of user) s.browser_connections
      ∙ ap (λ r. r && not (fails w)) (sees-scope_of t user filled),
  any_socket-connected w _ (scope_of user) s.browser_connections
      ∙ ap (λ r. not (r && fails w)) (sees-scope_of t user filled),
)
