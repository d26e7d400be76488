-- ===== src/Sockets/Sessions.antt =====
-- Sessions whose messages a socket routes (app/ws.py): five tables of queues under session ids.
use webui_hub.Prelude.{
  String, ◌≡◌, refl, not, ◌&&◌, Option, none, some, List, [], ◌∷◌, ◌++◌, ◌==◌, if◌then◌else◌,
  eq_iff, Bool-cases, inl, inr, sym, ◌∙◌,
}
use webui_hub.Text.{strip}
use webui_hub.Json.{Json, Dict, str, get, put, pop, get-put}
use webui_hub.Crypto.{JsonText}
use webui_hub.Store.Payload.{or_json}

-- `asyncio.Queue`s: the messages that wait, the oldest first.
abbrev pub Queues : Type 0
Queues = Dict (List (Dict Json))

pub record SessionQueues : Type 0 where
  pub shell_queues : Queues
  pub vnc_queues : Queues
  pub provision_queues : Queues
  pub log_fetch_queues : Queues
  pub command_trace_queues : Queues

abbrev added : String → Dict Json → Option (List (Dict Json)) → Queues → Queues
added id message none qs = qs
added id message (some q) qs = put id (q ++ message ∷ []) qs

-- A message of no session, or of one that is not registered, is dropped.
unfoldable pub route : String → Dict Json → Queues → Queues
route id message qs = if id == "" then qs else added id message (get id qs) qs

unfoldable pub session_id : ⦃json : JsonText⦄ → String → Dict Json → String
session_id ⦃json⦄ key message = strip (json.str_of (or_json (get key message) (str "")))

unfoldable pub register_shell_session : String → SessionQueues → SessionQueues
register_shell_session id s = record s { shell_queues = put id [] s.shell_queues }

unfoldable pub unregister_shell_session : String → SessionQueues → SessionQueues
unregister_shell_session id s = record s { shell_queues = pop id s.shell_queues }

unfoldable pub register_vnc_session : String → SessionQueues → SessionQueues
register_vnc_session id s = record s { vnc_queues = put id [] s.vnc_queues }

unfoldable pub unregister_vnc_session : String → SessionQueues → SessionQueues
unregister_vnc_session id s = record s { vnc_queues = pop id s.vnc_queues }

unfoldable pub register_provision_session : String → SessionQueues → SessionQueues
register_provision_session id s = record s { provision_queues = put id [] s.provision_queues }

unfoldable pub unregister_provision_session : String → SessionQueues → SessionQueues
unregister_provision_session id s = record s { provision_queues = pop id s.provision_queues }

unfoldable pub register_log_fetch : String → SessionQueues → SessionQueues
register_log_fetch id s = record s { log_fetch_queues = put id [] s.log_fetch_queues }

unfoldable pub unregister_log_fetch : String → SessionQueues → SessionQueues
unregister_log_fetch id s = record s { log_fetch_queues = pop id s.log_fetch_queues }

unfoldable pub register_command_trace : String → SessionQueues → SessionQueues
register_command_trace id s = record s { command_trace_queues = put id [] s.command_trace_queues }

unfoldable pub unregister_command_trace : String → SessionQueues → SessionQueues
unregister_command_trace id s = record s { command_trace_queues = pop id s.command_trace_queues }

module _ ⦃json : JsonText⦄ where
  unfoldable pub route_shell_message : Dict Json → SessionQueues → SessionQueues
  unfolding route session_id
  route_shell_message m s = record s {
    shell_queues = route (session_id "session_id" m) m s.shell_queues;
  }

  unfoldable pub route_vnc_message : Dict Json → SessionQueues → SessionQueues
  unfolding route session_id
  route_vnc_message m s = record s { vnc_queues = route (session_id "request_id" m) m s.vnc_queues }

  unfoldable pub route_provision_message : Dict Json → SessionQueues → SessionQueues
  unfolding route session_id
  route_provision_message m s = record s {
    provision_queues = route (session_id "request_id" m) m s.provision_queues;
  }

  unfoldable pub route_log_fetch_message : Dict Json → SessionQueues → SessionQueues
  unfolding route session_id
  route_log_fetch_message m s = record s {
    log_fetch_queues = route (session_id "request_id" m) m s.log_fetch_queues;
  }

  unfoldable pub route_command_trace_message : Dict Json → SessionQueues → SessionQueues
  unfolding route session_id
  route_command_trace_message m s = record s {
    command_trace_queues = route (session_id "request_id" m) m s.command_trace_queues;
  }

abbrev appended : Dict Json → Option (List (Dict Json)) → Option (List (Dict Json))
appended m none = none
appended m (some q) = some (q ++ m ∷ [])

get-added :
    (id j : String) (m : Dict Json) (o : Option (List (Dict Json))) (qs : Queues)
    → get id qs ≡ o
    → get j (added id m o qs) ≡ (if id == j then appended m (get id qs) else get j qs)
get-added id j m none qs h = elim (Bool-cases (id == j)) [
  | inl e ↦ rw e (rw (sym ((eq_iff id j).0 e)) (rw h))
  | inr e ↦ rw e
]
get-added id j m (some q) qs h = rw h (get-put id j (q ++ m ∷ []) qs)

pub get-route :
    (id j : String) (m : Dict Json) (qs : Queues)
    → get j (route id m qs)
      ≡ (if not (id == "") && (id == j) then appended m (get j qs) else get j qs)
unfolding route
get-route id j m qs = elim (Bool-cases (id == "")) [
  | inl e ↦ rw e
  | inr e ↦ rw e (get-added id j m (get id qs) qs refl ∙ same)
]
  where
    same :
        (if id == j then appended m (get id qs) else get j qs)
        ≡ (if id == j then appended m (get j qs) else get j qs)
    same = elim (Bool-cases (id == j)) [ inl e ↦ rw e (rw ((eq_iff id j).0 e)) | inr e ↦ rw e ]
