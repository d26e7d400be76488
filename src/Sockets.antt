-- ===== src/Sockets.antt =====
-- Sockets of browsers and spokes (app/ws.py). A socket is a number, by which the program's objects
-- are told apart; which sends raise is the environment's choice.
pub mod Sessions
pub mod Scope
pub mod Push
use webui_hub.Prelude.{
  ℕ, String, ◌≡◌, refl, Bool, true, false, not, ◌&&◌, ◌||◌, Option, none, some, List, [], ◌∷◌, ◌++◌,
  ◌==◌, if◌then◌else◌, eqb, elem, keep, map, any, find,
}
use webui_hub.Text.{strip}
use webui_hub.Json.{Json, Dict, str, obj, get, truthy, of_fields}
use webui_hub.Crypto.{JsonText}
use webui_hub.Exec.{Exec, Result, ok, raised, return, ◌>>=◌, ◌>>◌}
use webui_hub.Disk.{Disk}
use webui_hub.Codec.{Codec}
use webui_hub.Models.{User, Command, tenant_ids}
use webui_hub.Auth.{Server, Jwt, decode_access_token}
use webui_hub.Store.Queue.{peek_queued_commands, mark_commands_delivered}

-- A browser's socket with the tenants that it may see; `none`: all of them.
pub record Browser : Type 0 where
  pub socket : ℕ
  pub scope : Option (List String)

pub record SpokeLine : Type 0 where
  pub tenant_id : String
  pub spoke_id : String
  pub socket : ℕ

pub record Sockets : Type 0 where
  pub browser_connections : List Browser
  pub spoke_connections : List SpokeLine

abbrev dict_in : Option Json → Dict Json
dict_in (some (obj fs)) = of_fields fs
dict_in _ = []

abbrev text_in : Option Json → String
text_in (some (str t)) = strip t
text_in _ = ""

abbrev or_nested : String → Dict Json → String
or_nested t payload = if t == "" then text_in (get "token" (dict_in (get "payload" payload))) else t

abbrev token_in : Option Json → String
token_in (some (obj fs)) = or_nested (text_in (get "token" (of_fields fs))) (of_fields fs)
token_in _ = ""

abbrev starts_with_brace : String → Bool
starts_with_brace String.[] = false
starts_with_brace (String.◌∷◌ c s) = String.◌∷◌ c String.[] == "{"

-- A bare token, or the token of a JSON message.
unfoldable pub extract_ws_token : ⦃json : JsonText⦄ → String → String
extract_ws_token ⦃json⦄ message =
    if strip message == ""
    then ""
    else if starts_with_brace (strip message)
    then token_in (json.loads (strip message))
    else strip message

-- What a socket does before it is connected: the token of its address, and its first message.
pub record Opening : Type 0 where
  pub token : String
  pub first_message : Option String

abbrev user_of : Result User → Option User
user_of (ok user) = some user
user_of (raised e) = none

abbrev message_token : ⦃json : JsonText⦄ → Option String → String
message_token none = ""
message_token (some m) = extract_ws_token m

-- `none`: the socket is closed, or the peer left.
unfoldable pub authenticate_browser_websocket :
    {Token : Type 0} ⦃jwt : Jwt Token⦄ ⦃users : Codec User⦄ ⦃json : JsonText⦄
    → (String → Token)
    → Server
    → ℕ
    → Opening
    → Disk
    → Option User
authenticate_browser_websocket read_token server now opening d =
    if strip opening.token == ""
    then (if message_token opening.first_message == ""
        then none
        else user_of
            (decode_access_token server now (read_token (message_token opening.first_message)) d))
    else user_of (decode_access_token server now (read_token (strip opening.token)) d)

abbrev pub scope_of : User → Option (List String)
scope_of user = if user.is_superadmin then none else some (tenant_ids user)

abbrev other_socket : ℕ → Browser → Bool
other_socket socket b = not (eqb b.socket socket)

-- `browser_connections[websocket] = tenant_scope`
unfoldable pub ws_connect : ℕ → Option User → Sockets → Sockets
ws_connect socket none s = s
ws_connect socket (some user) s = record s {
  browser_connections =
      keep (other_socket socket) s.browser_connections
      ++ record { socket = socket; scope = scope_of user } ∷ [];
}

unfoldable pub ws_disconnect : ℕ → Sockets → Sockets
ws_disconnect socket s = record s {
  browser_connections = keep (other_socket socket) s.browser_connections;
}

abbrev pub is_line : String → String → SpokeLine → Bool
is_line tenant_id spoke_id l = (l.tenant_id == tenant_id) && (l.spoke_id == spoke_id)

unfoldable pub register_spoke : ℕ → String → String → Sockets → Sockets
register_spoke socket tenant_id spoke_id s = record s {
  spoke_connections =
      record { tenant_id = tenant_id; spoke_id = spoke_id; socket = socket }
      ∷ keep (λ l. not (is_line tenant_id spoke_id l)) s.spoke_connections;
}

abbrev is_current : Option ℕ → SpokeLine → Bool
is_current none l = true
is_current (some socket) l = eqb l.socket socket

-- A socket that was replaced does not remove its successor.
unfoldable pub unregister_spoke : String → String → Option ℕ → Sockets → Sockets
unregister_spoke tenant_id spoke_id socket s = record s {
  spoke_connections =
      keep (λ l. not (is_line tenant_id spoke_id l && is_current socket l)) s.spoke_connections;
}

unfoldable pub line_of : String → String → Sockets → Option SpokeLine
line_of tenant_id spoke_id s = find (is_line tenant_id spoke_id) s.spoke_connections

abbrev if_truthy : Option Json → Option Json → Option Json
if_truthy none other = other
if_truthy (some j) other = if truthy j then some j else other

-- `data.get("tenant_id") or (data.get("job") or {}).get("tenant_id")`
unfoldable pub event_tenant : Dict Json → Option Json
event_tenant event = if_truthy (get "tenant_id" event) (get "tenant_id" (dict_in (get "job" event)))

abbrev names : Json → List String → Bool
names (str t) scope = elem t scope
names _ scope = false

abbrev is_truthy : Option Json → Bool
is_truthy none = false
is_truthy (some j) = truthy j

-- May the socket see the event? An event of no tenant goes to all.
abbrev pub sees : Option Json → Option (List String) → Bool
sees tenant none = true
sees none (some scope) = true
sees (some j) (some scope) = if truthy j then names j scope else true

-- The sockets that the message reached, and the connections without those whose send raised.
unfoldable pub ws_broadcast : (ℕ → Bool) → Dict Json → Sockets → List ℕ × Sockets
ws_broadcast fails event s =
    let tenant = event_tenant event in
    (
      map (λ b. b.socket)
          (keep (λ b. sees tenant b.scope && not (fails b.socket)) s.browser_connections),
      record s {
        browser_connections =
            keep (λ b. not (sees tenant b.scope && fails b.socket)) s.browser_connections;
      },
    )

abbrev send_on : (ℕ → Bool) → String → String → Option SpokeLine → Sockets → Bool × Sockets
send_on fails tenant_id spoke_id none s = (false, s)
send_on fails tenant_id spoke_id (some l) s =
    if fails l.socket
    then (false, unregister_spoke tenant_id spoke_id (some l.socket) s)
    else (true, s)

-- Was the message sent?
unfoldable pub send_to_spoke : (ℕ → Bool) → String → String → Sockets → Bool × Sockets
send_to_spoke fails tenant_id spoke_id s =
    send_on fails tenant_id spoke_id (line_of tenant_id spoke_id s) s

-- The commands that were sent, if any, whether the push succeeded, and the sockets that are left.
pub record Pushed : Type 0 where
  pub sent : List Command
  pub succeeded : Bool
  pub sockets : Sockets

abbrev push_result : List Command → Bool → Sockets → Pushed
push_result sent succeeded sockets = record {
  sent = sent;
  succeeded = succeeded;
  sockets = sockets;
}

module _ ⦃commands : Codec Command⦄ where
  abbrev after_send : ℕ → String → String → List Command → Bool × Sockets → Exec Pushed
  after_send now tenant_id spoke_id cmds (false, s) = return (push_result [] false s)
  after_send now tenant_id spoke_id cmds (true, s) = do
    mark_commands_delivered now tenant_id spoke_id (map (λ x. x.id) cmds)
    return (push_result cmds true s)

  abbrev pub send_commands : (ℕ → Bool) → ℕ → String → String → Sockets → List Command → Exec Pushed
  send_commands fails now tenant_id spoke_id s [] = return (push_result [] true s)
  send_commands fails now tenant_id spoke_id s (c ∷ cs) =
      after_send now tenant_id spoke_id (c ∷ cs) (send_to_spoke fails tenant_id spoke_id s)

  abbrev push_on : (ℕ → Bool) → ℕ → String → String → Sockets → Option SpokeLine → Exec Pushed
  push_on fails now tenant_id spoke_id s none = return (push_result [] false s)
  push_on fails now tenant_id spoke_id s (some l) = do
    queued ← peek_queued_commands now tenant_id spoke_id
    send_commands fails now tenant_id spoke_id s queued

  unfoldable pub push_spoke_commands : (ℕ → Bool) → ℕ → String → String → Sockets → Exec Pushed
  push_spoke_commands fails now tenant_id spoke_id s =
      push_on fails now tenant_id spoke_id s (line_of tenant_id spoke_id s)
