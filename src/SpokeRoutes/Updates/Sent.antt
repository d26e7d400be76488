-- ===== src/SpokeRoutes/Updates/Sent.antt =====
-- How often a spoke is sent its own update (app/routers/spokes.py, `_poll_update_job`).
use webui_hub.Prelude.{
  ℕ, ◌≡◌, ◌≤◌, ◌<◌, refl, Bool, true, false, List, [], ◌∷◌, ◌==◌, ◌+◌, if◌then◌else◌, leb, length,
  arith, Bool-cases, inl, inr, ◌⊎◌,
}
use webui_hub.Json.{Json}
use webui_hub.SpokeRoutes.Updates.{
  SpokeUpdate, Versions, fresh_update, poll_spoke, poll_agent, poll_version, is_changed,
}

-- The polls of a spoke that is listed in each: what the job knows of it behind them, and how often
-- the update was sent.
unfoldable pub poll_all : SpokeUpdate → List Versions → SpokeUpdate × ℕ
poll_all sd [] = (sd, 0)
poll_all sd (v ∷ vs) =
    let r = poll_spoke v sd in
    let later = poll_all r.0 vs in (later.0, (if r.1 then 1 else 0) + later.1)

abbrev pub agent_pending : SpokeUpdate → Bool
agent_pending sd = sd.agent_status == "pending"

-- What a poll does to the agent's part.
poll_version-agent :
    (cur : Json) (sd : SpokeUpdate)
    → ((poll_version cur sd).0.agent_status ≡ sd.agent_status)
      × ((poll_version cur sd).0.agent_check_count ≡ sd.agent_check_count)
unfolding poll_version
poll_version-agent cur sd = (ground arith, ground arith)

poll_settled :
    (v : Versions) (sd : SpokeUpdate)
    → agent_pending sd ≡ false
    → ((poll_spoke v sd).1 ≡ false) × (agent_pending (poll_spoke v sd).0 ≡ false)
unfolding poll_spoke poll_agent
poll_settled v sd h = let kept = poll_version-agent v.spoke sd in rw h (refl, rw (kept.0) h)

-- A poll that sends the update settles the agent, and any other one is counted.
poll_waiting :
    (v : Versions) (sd : SpokeUpdate)
    → agent_pending sd ≡ true
    → (((poll_spoke v sd).1 ≡ true) × (agent_pending (poll_spoke v sd).0 ≡ false))
      ⊎ (((poll_spoke v sd).1 ≡ false)
          × (agent_pending (poll_spoke v sd).0 ≡ true)
          × ((poll_spoke v sd).0.agent_check_count ≡ sd.agent_check_count + 1)
          × (sd.agent_check_count < 4))
unfolding poll_spoke poll_agent
poll_waiting v sd h = elim (Bool-cases (is_changed v.agent sd.agent_version_before)) [
  | inl c ↦ rw (h, c) (inl (refl, rw ((poll_version-agent v.spoke _).0) refl))
  | inr c ↦ elim (Bool-cases (leb 4 sd.agent_check_count)) [
    | inl l ↦ rw (h, c, l) (inl (refl, rw ((poll_version-agent v.spoke _).0) refl))
    | inr l ↦
        let counted =
          poll_version-agent v.spoke (record sd { agent_check_count = sd.agent_check_count + 1 }) in
        rw (h, c, l) (inr (refl, rw (counted.0) h, counted.1, ground (arith, l)))
  ]
]

poll_all-settled :
    (sd : SpokeUpdate) (vs : List Versions)
    → agent_pending sd ≡ false
    → ((poll_all sd vs).1 ≡ 0) × (agent_pending (poll_all sd vs).0 ≡ false)
unfolding poll_all
poll_all-settled sd [] h = (refl, h)
poll_all-settled sd (v ∷ vs) h =
    let (unsent, settled) = poll_settled v sd h in
    let (none_sent, after) = poll_all-settled (poll_spoke v sd).0 vs settled in
    (rw (unsent, none_sent) refl, after)

-- The polls of a spoke whose agent waits: it waits still, unsent, or was sent its update once.
abbrev Waited : ℕ → SpokeUpdate × ℕ → Type 0
Waited polls r =
    ((agent_pending r.0 ≡ true) × (r.1 ≡ 0) × (polls ≤ 4))
    ⊎ ((agent_pending r.0 ≡ false) × (r.1 ≡ 1))

poll_all-Waited :
    (sd : SpokeUpdate) (vs : List Versions)
    → agent_pending sd ≡ true
    → sd.agent_check_count ≤ 4
    → Waited (sd.agent_check_count + length vs) (poll_all sd vs)
unfolding poll_all
poll_all-Waited sd [] h c = inl (h, refl, omega arith)
poll_all-Waited sd (v ∷ vs) h c = elim (poll_waiting v sd h) [
  | inl (sent, settled) ↦
      let (none_sent, after) = poll_all-settled (poll_spoke v sd).0 vs settled in
      inr (after, rw (sent, none_sent) refl)
  | inr (unsent, waits, counted, few) ↦
      elim (poll_all-Waited (poll_spoke v sd).0 vs waits (omega (arith, counted))) [
        | inl (still, none_sent, polls) ↦
            inl (still, rw (unsent, none_sent) refl, omega (arith, counted))
        | inr (after, once) ↦ inr (after, rw (unsent, once) refl)
      ]
]

-- Over the polls of a spoke that is listed in each of them, from the start of a job, its update is
-- sent exactly if its agent is no longer pending, and then once. From the fifth poll on it has been
-- sent, whatever versions are reported.
pub poll_all_lem :
    (before : Versions) (vs : List Versions)
    → let after = poll_all (fresh_update before) vs in
      (after.1 ≡ (if agent_pending after.0 then 0 else 1))
      × (4 < length vs → (after.1 ≡ 1) × (agent_pending after.0 ≡ false))
poll_all_lem before vs = elim (poll_all-Waited (fresh_update before) vs refl (omega arith)) [
  | inl (waits, unsent, few) ↦ (rw waits unsent, λ many. absurd (omega arith))
  | inr (settled, once) ↦ (rw settled once, λ many. (once, settled))
]
