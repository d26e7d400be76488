-- ===== src/SpokeRoutes/Fleet/Pushed.antt =====
-- A configuration that a user pushes reaches its spoke (app/routers/spokes.py,
-- `_queue_spoke_config_push`).
use webui_hub.Json.{Json}
use webui_hub.Disk.{Disk}
use webui_hub.Codec.{Codec}
