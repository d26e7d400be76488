-- ===== src/Hub.antt =====
-- The state of a process of the hub: the files, the log of registrations that app/routers/spokes.py
-- keeps in memory, and the events that were handed to `ws_broadcast`, the oldest first.
use webui_hub.Prelude.{Bool, true, false, List, [], ◌∷◌, ◌++◌, if◌then◌else◌}
use webui_hub.Json.{Json, Dict}
use webui_hub.Disk.{Disk}
use webui_hub.Exec.{Exec, Exception, Result, ok, raised}

pub record Hub : Type 0 where
  pub disk : Disk
  pub registration_log : List (Dict Json)
  pub broadcasts : List (Dict Json)

abbrev pub Task : Type 0 → Type 0
Task A = Hub → Result A × Hub

abbrev pub done : {A : Type 0} → A → Task A
done a h = (ok a, h)

abbrev pub fail : {A : Type 0} → Exception → Task A
fail e h = (raised e, h)

-- A call of the store.
abbrev pub on_disk : {A : Type 0} → Exec A → Task A
on_disk m h = ((m h.disk).0, record h { disk = (m h.disk).1 })

-- `await ws_broadcast(event)`, or a task for it.
abbrev pub emit : Dict Json → Task (Unit {0})
emit event h = (ok tt, record h { broadcasts = h.broadcasts ++ event ∷ [] })

abbrev pub then_run : {A B : Type 0} → Result A → (A → Task B) → Task B
then_run (ok a) f h = f a h
then_run (raised e) f h = (raised e, h)

infixl 5 ◌>>=◌ ◌>>◌
unfoldable pub ◌>>=◌ : {A B : Type 0} → Task A → (A → Task B) → Task B
◌>>=◌ m f h = then_run (m h).0 f (m h).1

abbrev pub ◌>>◌ : {B : Type 0} → Task (Unit {0}) → Task B → Task B
m >> n = m >>= λ _. n

abbrev pub when : Bool → Task (Unit {0}) → Task (Unit {0})
when b m = if b then m else done tt

-- A relation of states that holds between equal ones, and chains.
pub record Frame : Type 1 where
  pub lies : Hub → Hub → Type 0
  pub stays : (h : Hub) → lies h h
  pub chains : (f g h : Hub) → lies f g → lies g h → lies f h

-- Tasks whose effect on the state lies in the relation.
pub record Keeps (F : Frame) {A : Type 0} (m : Task A) : Type 0 where
  pub kept : (h : Hub) → F.lies h (m h).1

module _ (F : Frame) where
  pub quiet : {A : Type 0} (f : Hub → Result A) → Keeps F (λ h. (f h, h))
  quiet f = record { kept = F.stays }

  then_run-Keeps :
      {A B : Type 0} (r : Result A) (f : A → Task B) (g h : Hub)
      → F.lies g h
      → ((a : A) → Keeps F (f a))
      → F.lies g (then_run r f h).1
  then_run-Keeps (ok a) f g h k l = F.chains g h _ k ((l a).kept h)
  then_run-Keeps (raised e) f g h k l = k

  pub bind-Keeps :
      {A B : Type 0} {m : Task A} {f : A → Task B}
      → Keeps F m
      → ((a : A) → Keeps F (f a))
      → Keeps F (m >>= f)
  unfolding ◌>>=◌
  bind-Keeps {m} {f} k l = record { kept = λ h. then_run-Keeps (m h).0 f h (m h).1 (k.kept h) l }

  pub if-Keeps :
      {A : Type 0} (b : Bool) {m n : Task A} → Keeps F m → Keeps F n → Keeps F (if b then m else n)
  if-Keeps true k l = k
  if-Keeps false k l = l

  pub when-Keeps : (b : Bool) {m : Task (Unit {0})} → Keeps F m → Keeps F (when b m)
  when-Keeps b k = if-Keeps b k (quiet _)
