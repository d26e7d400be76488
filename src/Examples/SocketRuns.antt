-- ===== src/Examples/SocketRuns.antt =====
-- Runs of the sockets of browsers and spokes.
use webui_hub.Prelude.{◌≡◌, refl, true, false, some, [], ◌∷◌, any, eqb, not, ◌&&◌, map}
use webui_hub.Json.{str, get, truthy}
use webui_hub.Exec.{ok}
use webui_hub.Store.Queue.{load_queue, deliver_if, is_queued, load_queue-save_queue_self}
use webui_hub.Auth.{require_tenant_access}
use webui_hub.Sockets.{
  event_tenant, line_of, Sockets, ws_connect, ws_broadcast, register_spoke, push_spoke_commands,
}
use webui_hub.Sockets.Scope.{passes, ws_broadcast-ws_connect}
use webui_hub.Sockets.Push.{push_spoke_commands_lem, sent_of}
use webui_hub.Examples.Rows.{command_codec}
use webui_hub.Examples.Data.{alice, reboot, queue_disk}

abbrev no_sockets : Sockets
no_sockets = record { browser_connections = []; spoke_connections = [] }

other_named : event_tenant (("tenant_id", str "other") ∷ []) ≡ some (str "other")
unfolding event_tenant get truthy
other_named = refl

ws_broadcast-ws_connect_example :
    (any
        (λ x. eqb x 4)
        (ws_broadcast
          (λ w. false)
          (("tenant_id", str "other") ∷ [])
          (ws_connect 4 (some alice) no_sockets)).0
      ≡ (passes (require_tenant_access "other" alice) && true))
    × (any
          (λ b. eqb b.socket 4)
          (ws_broadcast
            (λ w. false)
            (("tenant_id", str "other") ∷ [])
            (ws_connect 4 (some alice) no_sockets)).1.browser_connections
        ≡ not (passes (require_tenant_access "other" alice) && false))
ws_broadcast-ws_connect_example =
    ws_broadcast-ws_connect (λ w. false) 4 alice "other" (("tenant_id", str "other") ∷ [])
      no_sockets other_named refl

connected :
    line_of "acme" "s1" (register_spoke 7 "acme" "s1" no_sockets)
    ≡ some (record { tenant_id = "acme"; spoke_id = "s1"; socket = 7 })
unfolding line_of register_spoke
connected = refl

push_spoke_commands_lem_example :
    (sent_of
        (push_spoke_commands
          (λ w. false)
          8
          "acme"
          "s1"
          (register_spoke 7 "acme" "s1" no_sockets)
          queue_disk).0
      ≡ reboot ∷ [])
    × (load_queue "acme" "s1"
          (push_spoke_commands
            (λ w. false)
            8
            "acme"
            "s1"
            (register_spoke 7 "acme" "s1" no_sockets)
            queue_disk).1
        ≡ ok (map (deliver_if 8 is_queued) (reboot ∷ [])))
push_spoke_commands_lem_example =
    push_spoke_commands_lem (λ w. false) 8 "acme" "s1" (register_spoke 7 "acme" "s1" no_sockets)
      (record { tenant_id = "acme"; spoke_id = "s1"; socket = 7 }) (reboot ∷ []) queue_disk
      connected (load_queue-save_queue_self "acme" "s1" (reboot ∷ []) _)
