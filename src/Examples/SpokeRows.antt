-- ===== src/Examples/SpokeRows.antt =====
-- The concrete codec of spokes, and the instants of their state.
use webui_hub.Prelude.{
  ℕ, zero, suc, String, ◌≡◌, ◌≢◌, refl, ap, ◌+◌, ◌-◌, true, false, Option, none, some, arith, ◌==◌,
  eq_iff, Bool-cases, inl, inr,
}
use Prim.Native.Char.{Char}
use webui_hub.Json.{Json, str, obj, field, end}
use webui_hub.Codec.{Codec}
use webui_hub.Models.{Spoke}
use webui_hub.Store.Spokes.Format.{
  SpokeFormat, Instants, config_row, migrate_assigned_site, without_state,
}
use webui_hub.Examples.Codecs.{text, number, any_json, pair, opt, list, via}
use webui_hub.Examples.Rows.{mode_codec}

abbrev pub spoke_codec : Codec Spoke
spoke_codec =
    via
      (pair text (
        pair text (
          pair text (
            pair text (
              pair text (
                pair text (
                  pair (list text) (
                    pair text (
                      pair (opt text) (
                        pair text (
                          pair text (
                            pair (list (pair text any_json)) (
                              pair (list (pair text any_json)) (
                                pair mode_codec (
                                  pair number (
                                    pair number (
                                      pair (opt number) (
                                        pair (opt text) (
                                          pair (opt number) (
                                            pair (list (pair text any_json))
                                              (number)))))))))))))))))))))
      (λ r. (
        r.id,
        (
          r.tenant_id,
          (
            r.hostname,
            (
              r.label,
              (
                r.spoke_name,
                (
                  r.assigned_site,
                  (
                    r.assigned_sites,
                    (
                      r.status,
                      (
                        r.api_key_enc,
                        (
                          r.proxmox_host,
                          (
                            r.proxmox_token_enc,
                            (
                              r.seed_config,
                              (
                                r.config,
                                (
                                  r.processing_mode,
                                  (
                                    r.config_version,
                                    (
                                      r.applied_config_version,
                                      (
                                        r.last_config_applied_at,
                                        (
                                          r.last_pushed_config_hash,
                                          (r.last_seen, (r.telemetry, r.created_at)),
                                        ),
                                      ),
                                    ),
                                  ),
                                ),
                              ),
                            ),
                          ),
                        ),
                      ),
                    ),
                  ),
                ),
              ),
            ),
          ),
        ),
      ))
      (λ p. record {
        id = p.0;
        tenant_id = p.1.0;
        hostname = p.1.1.0;
        label = p.1.1.1.0;
        spoke_name = p.1.1.1.1.0;
        assigned_site = p.1.1.1.1.1.0;
        assigned_sites = p.1.1.1.1.1.1.0;
        status = p.1.1.1.1.1.1.1.0;
        api_key_enc = p.1.1.1.1.1.1.1.1.0;
        proxmox_host = p.1.1.1.1.1.1.1.1.1.0;
        proxmox_token_enc = p.1.1.1.1.1.1.1.1.1.1.0;
        seed_config = p.1.1.1.1.1.1.1.1.1.1.1.0;
        config = p.1.1.1.1.1.1.1.1.1.1.1.1.0;
        processing_mode = p.1.1.1.1.1.1.1.1.1.1.1.1.1.0;
        config_version = p.1.1.1.1.1.1.1.1.1.1.1.1.1.1.0;
        applied_config_version = p.1.1.1.1.1.1.1.1.1.1.1.1.1.1.1.0;
        last_config_applied_at = p.1.1.1.1.1.1.1.1.1.1.1.1.1.1.1.1.0;
        last_pushed_config_hash = p.1.1.1.1.1.1.1.1.1.1.1.1.1.1.1.1.1.0;
        last_seen = p.1.1.1.1.1.1.1.1.1.1.1.1.1.1.1.1.1.1.0;
        telemetry = p.1.1.1.1.1.1.1.1.1.1.1.1.1.1.1.1.1.1.1.0;
        created_at = p.1.1.1.1.1.1.1.1.1.1.1.1.1.1.1.1.1.1.1.1;
      })
      (λ r. refl)

-- A spoke's row has one field, which the choice of the fields keeps.
abbrev pub finish : Option Spoke → Option Spoke
finish none = none
finish (some s) = some (migrate_assigned_site (without_state s))

abbrev pub spoke_row : Json → Option Spoke
spoke_row (obj (field k j fs)) = finish (spoke_codec.validate j)
spoke_row _ = none

pub spoke_row_law :
    (s : Spoke)
    → spoke_row (config_row (obj (field "config" (spoke_codec.dump s) end)))
      ≡ some (migrate_assigned_site (without_state s))
unfolding config_row
spoke_row_law s = ap finish (spoke_codec.validate-dump s)

instance abbrev pub spoke_format : SpokeFormat
spoke_format = record {
  validate = spoke_row;
  dump = λ s. obj (field "config" (spoke_codec.dump s) end);
  validate-config_row = spoke_row_law;
}

-- An instant as a row of strokes.
abbrev pub strokes : ℕ → String
strokes zero = "i"
strokes (suc n) = String.◌∷◌ (Prim.Native.Char.char 105 tt) (strokes n)

abbrev pub count_strokes : String → ℕ
count_strokes String.[] = 0
count_strokes (String.◌∷◌ c s) = suc (count_strokes s)

abbrev pub read_instant : Json → Option ℕ
read_instant (str s) = some (count_strokes s - 1)
read_instant _ = none

pub read_strokes : (t : ℕ) → count_strokes (strokes t) ≡ t + 1
read_strokes zero = refl
read_strokes (suc t) = omega (arith, read_strokes t)

pub strokes_filled : (t : ℕ) → (strokes t == "") ≡ false
strokes_filled zero = refl
strokes_filled (suc t) = elim (Bool-cases (strokes (suc t) == "")) [
  | inl e ↦ absurd (not_blank e)
  | inr e ↦ e
]
  where
    not_blank : strokes (suc t) == "" ≢ true
    not_blank e = omega (arith, ap count_strokes ((eq_iff (strokes (suc t)) "").0 e))

pub read_shown : (t : ℕ) → read_instant (str (strokes t)) ≡ some t
read_shown t = ap some (omega (arith, read_strokes t))

instance abbrev pub stroke_instants : Instants
stroke_instants = record {
  show = strokes;
  read = read_instant;
  read-show = read_shown;
  shown = strokes_filled;
}
