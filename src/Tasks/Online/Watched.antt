-- ===== src/Tasks/Online/Watched.antt =====
-- What a pass of the heartbeat knows of a tenant's spokes (`heartbeat_monitor` of app/tasks.py).
use webui_hub.Prelude.{
  ℕ, String, ◌≡◌, refl, ap, sym, ◌∙◌, Bool, true, false, ◌&&◌, ◌||◌, Option, none, some, List, [],
  ◌∷◌, ◌==◌, eq_iff, if◌then◌else◌, Bool-cases, inl, inr,
}
use webui_hub.Json.{Dict, get, put, get-put}
use webui_hub.Models.{Spoke}
use webui_hub.Store.Spokes.{is_approved}
use webui_hub.SpokeRoutes.Fleet.{is_spoke_online}
use webui_hub.Tasks.Online.{mark_spokes, state_differs}

abbrev pub or_before : Option Bool → Option Bool → Option Bool
or_before none before = before
or_before (some b) before = some b

-- Whether the last approved spoke of this id was seen in the last five minutes.
abbrev pub last_state : ℕ → String → List Spoke → Option Bool
last_state now i [] = none
last_state now i (s ∷ spokes) =
    or_before (last_state now i spokes)
      (if is_approved s && (s.id == i) then some (is_spoke_online now s) else none)

-- A state that does not differ is the one that is there.
same_state : (o : Option Bool) (online : Bool) → state_differs o online ≡ false → o ≡ some online
same_state none online h = cc
same_state (some true) true h = refl
same_state (some true) false h = cc
same_state (some false) true h = cc
same_state (some false) false h = refl

or_before_assoc : (a b c : Option Bool) → or_before a (or_before b c) ≡ or_before (or_before a b) c
or_before_assoc none b c = refl
or_before_assoc (some x) b c = refl

or_left : (a b : Bool) → (a || b) ≡ false → a ≡ false
or_left true b h = h
or_left false b h = refl

or_right : (a b : Bool) → (a || b) ≡ false → b ≡ false
or_right true b h = cc
or_right false b h = h

if_false : (b : Bool) (x y : Dict Bool) → b ≡ false → (if b then x else y) ≡ y
if_false b x y h = rw h refl

chosen :
    (b online : Bool) (o : Option Bool)
    → (if b then some online else o) ≡ or_before (if b then some online else none) o
chosen true online o = refl
chosen false online o = refl

-- What a spoke that is passed over, or whose state is the one that is known, leaves.
marked_one :
    (now : ℕ) (i : String) (s : Spoke) (state : Dict Bool)
    → get i (
        if is_approved s && state_differs (get s.id state) (is_spoke_online now s)
        then put s.id (is_spoke_online now s) state
        else state)
      ≡ or_before
          (if is_approved s && (s.id == i) then some (is_spoke_online now s) else none)
          (get i state)
marked_one now i s state = elim (Bool-cases (is_approved s)) [
  | inr a ↦ rw a refl
  | inl a ↦ elim (Bool-cases (state_differs (get s.id state) (is_spoke_online now s))) [
    | inl d ↦
        rw (a, d)
          (get-put s.id i (is_spoke_online now s) state
            ∙ chosen (s.id == i) (is_spoke_online now s) (get i state))
    | inr d ↦ elim (Bool-cases (s.id == i)) [
      | inl e ↦ rw (a, d, e) (ap (λ k. get k state) (sym ((eq_iff s.id i).0 e)) ∙ same_state _ _ d)
      | inr e ↦ rw (a, d, e) refl
    ]
  ]
]

-- A pass knows of each approved spoke whether it was seen in the last five minutes, by its last entry,
-- and of any other id what it knew before. Where it reports no change, it knows what it knew.
pub mark_spokes_lem :
    (now : ℕ) (spokes : List Spoke) (state : Dict Bool)
    → ((i : String)
        → get i (mark_spokes now spokes state).0
          ≡ or_before (last_state now i spokes) (get i state))
      × ((mark_spokes now spokes state).1 ≡ false → (mark_spokes now spokes state).0 ≡ state)
unfolding mark_spokes
mark_spokes_lem now [] state = (λ i. refl, λ h. refl)
mark_spokes_lem now (s ∷ spokes) state =
    let marks = is_approved s && state_differs (get s.id state) (is_spoke_online now s) in
    let next = if marks then put s.id (is_spoke_online now s) state else state in
    let rest = mark_spokes_lem now spokes next in
    (
      λ i.
          rest.0 i
          ∙ ap (or_before (last_state now i spokes)) (marked_one now i s state)
          ∙ or_before_assoc (last_state now i spokes) _ (get i state),
      λ h. rest.1 (or_right marks _ h) ∙ if_false marks _ state (or_left marks _ h),
    )
