-- ===== src/Lib.antt =====
-- The hub's data layer: what `app/store.py` keeps in JSON files for users, tenants, spokes, command
-- queues and configuration pushes, with the accounts and tokens of
-- `app/auth.py` and, on top of it, the routes of accounts, commands, sites, reseed jobs and spokes
-- (registration, reports, inbox) and the sockets of `app/ws.py`.
--
-- The program is a FastAPI server (the hub) that manages tenants and the simulators (spokes) that
-- they run. Its routers and background tasks go through `app/store.py`, which keeps every state in
-- files under the data directory: `users.json`, `tenants.json` (and a backup), `global_config.json`,
-- and for each tenant `spokes.json` with a state file, a queue file and an audit file for a spoke.
-- A spoke fetches its commands from its queue, over the inbox route or a socket, and the hub pushes
-- the tenant's configuration to it as a `config_update` command under a version number.
--
-- The files:
-- - Json, Text: JSON values and dicts, `strip` and `lower` (ASCII).
-- - Disk: the data directory, from a path to rows, a table or a text that does not parse
--   (`_read_json`, `_write_json`). Exec: an operation on it that returns or raises.
-- - Codec: a pydantic model's validation and dump, which are parameters.
-- - Models: app/data_models.py. Crypto: app/crypto.py, with Fernet and `json` as parameters.
-- - Store.Users: the users and `ensure_admin`. Store.Tenants: tenants, soft deletion, the purge and
--   the backup that `_load_tenants` restores.
-- - Store.Spokes: the spokes' configuration rows and state files, approval, renaming and removal.
-- - Store.Queue: a spoke's command queue.
-- - Store.Queue.Mailbox: what a queue promises. Store.Queue.Life: its operations as steps.
-- - Store.Usb: the certified USB devices. Store.Payload: the pushed configuration of a tenant.
-- - Store.Push: the push of a configuration, its version numbers, the drift
--   check and the diagnosis of a spoke.
-- - Store.Lookup: finding a spoke over all tenants. Store.Pending: spokes that wait for approval.
-- - Store.Audit: the audit log. Store.QaKeys: API keys. Store.Macs: MAC profiles and the OUI pool.
-- - Store.Settings: settings of tenants and of the platform, and the counts of processing modes.
-- - Auth: passwords, tokens and the guards of the routes in app/auth.py.
-- - SpokeRoutes: the key check, the inbox and the monitored items of app/routers/spokes.py.
--   SpokeRoutes.Registration: `register_spoke`, for approved spokes (Approved) and others (Pending), with
--   its log and names (Names). Hub: a process's files, registration log and broadcast events.
--   SpokeRoutes.Reports: telemetry and acknowledgements. SpokeRoutes.UsbDevices: `_normalize_usb_vidpids`.
--   SpokeRoutes.Fleet: the routes by which users configure and update spokes.
--   SpokeRoutes.Updates: the update of all spokes and the task that follows it; its fuel counts looks
--   at the clock, of which 41 are enough.
-- - CommandRoutes: app/routers/commands.py. Sockets: app/ws.py, its registry of sockets, broadcast and
--   session queues. A socket is a number, and which sends raise is a parameter.
-- - Reseed: the reseed jobs of app/routers/backups.py, whose progress app/routers/spokes.py relays; the
--   retries that wait for their delay are part of the state, and their ends are steps.
-- - AccountRoutes: app/routers/auth.py and app/routers/qa.py, with the clients of outside login providers as
--   parameters. Sites: app/routers/sites.py. Webhook: app/routers/webhook.py.
-- - Ini: the editing of INI texts in app/routers/aggregate.py, with the settings that a text holds
--   (Settings), its lines (Breaks) and names (Names). Overrides: the routes that change them.
-- - AdminRoutes: users, roles and deleted tenants in app/routers/superadmin.py; Keys: onboarding keys.
-- - Tasks: passes of the loops in app/tasks.py: Notifications, Monitored, Online, Schedules.
-- - Examples: concrete instances of the parameters, and runs of the program on concrete files.
--
-- How the code corresponds: a function of the store is a function from the disk, under its own
-- name without a leading underscore; a reading function returns its value, a writing function the
-- new disk, and a function that may raise returns a `Result` with the disk it leaves. An instant
-- is a count of microseconds (of seconds in Auth) and is an argument, as are drawn ids and keys.
-- Each operation runs under the process's lock, so that it is one step here; a sequence of calls
-- is a composition. What a coroutine awaits, such as a send over a socket, is part of its step, and
-- no other task runs in between. Loops are structural recursion on the lists they run over, so no bound and no
-- fuel is needed (but in SpokeRoutes.Updates). Python's integers
-- are unbounded and the program's are not negative: they are ℕ.
--
-- Not modelled: the file system's partial writes and I/O errors (but for the start's looks at the
-- directory), the locks of threads and of processes, logging, the HTTP layer, the polls
-- of Aruba Central and the clients of outside services.
mod Prelude
pub mod Json
pub mod Text
pub mod Disk
pub mod Exec
pub mod Codec
pub mod Models
pub mod Crypto
pub mod Store
pub mod Auth
pub mod Hub
pub mod Sockets
pub mod Webhook
pub mod Ini
pub mod Sites
pub mod AccountRoutes
pub mod Reseed
pub mod CommandRoutes
pub mod SpokeRoutes
pub mod Overrides
pub mod AdminRoutes
pub mod Tasks
mod Examples
