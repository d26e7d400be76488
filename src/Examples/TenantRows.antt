-- ===== src/Examples/TenantRows.antt =====
-- The concrete codec of tenants.
use webui_hub.Prelude.{refl}
use webui_hub.Codec.{Codec}
use webui_hub.Models.{Tenant}
use webui_hub.Examples.Codecs.{text, number, flag, any_json, pair, opt, list, via}
use webui_hub.Examples.Rows.{mode_codec}

instance abbrev pub tenant_codec : Codec Tenant
tenant_codec =
    via
      (pair text (
        pair text (
          pair (opt text) (
            pair (opt text) (
              pair (opt text) (
                pair (opt text) (
                  pair mode_codec (
                    pair (list (pair text text)) (
                      pair flag (
                        pair (list (pair text any_json)) (
                          pair (opt text) (
                            pair (opt text) (
                              pair (list (pair text (list text))) (
                                pair (list (pair text any_json)) (
                                  pair number (
                                    pair (list (list (pair text any_json))) (
                                      pair text (
                                        pair (list text)
                                          (pair number (pair text ((opt number))))))))))))))))))))))
      (λ r. (
        r.id,
        (
          r.name,
          (
            r.aruba_cid,
            (
              r.aruba_config_enc,
              (
                r.notification_config_enc,
                (
                  r.github_config_enc,
                  (
                    r.default_processing_mode,
                    (
                      r.processing_modes,
                      (
                        r.hub_config_enabled,
                        (
                          r.hub_config,
                          (
                            r.sim_conf_override,
                            (
                              r.user_conf_override,
                              (
                                r.client_sim_overrides,
                                (
                                  r.central_sites_config,
                                  (
                                    r.central_browse_interval_minutes,
                                    (
                                      r.usb_vidpids,
                                      (
                                        r.onboarding_psk_enc,
                                        (
                                          r.onboarding_psks_enc,
                                          (r.created_at, (r.created_by, r.deleted_at)),
                                        ),
                                      ),
                                    ),
                                  ),
                                ),
                              ),
                            ),
                          ),
                        ),
                      ),
                    ),
                  ),
                ),
              ),
            ),
          ),
        ),
      ))
      (λ p. record {
        id = p.0;
        name = p.1.0;
        aruba_cid = p.1.1.0;
        aruba_config_enc = p.1.1.1.0;
        notification_config_enc = p.1.1.1.1.0;
        github_config_enc = p.1.1.1.1.1.0;
        default_processing_mode = p.1.1.1.1.1.1.0;
        processing_modes = p.1.1.1.1.1.1.1.0;
        hub_config_enabled = p.1.1.1.1.1.1.1.1.0;
        hub_config = p.1.1.1.1.1.1.1.1.1.0;
        sim_conf_override = p.1.1.1.1.1.1.1.1.1.1.0;
        user_conf_override = p.1.1.1.1.1.1.1.1.1.1.1.0;
        client_sim_overrides = p.1.1.1.1.1.1.1.1.1.1.1.1.0;
        central_sites_config = p.1.1.1.1.1.1.1.1.1.1.1.1.1.0;
        central_browse_interval_minutes = p.1.1.1.1.1.1.1.1.1.1.1.1.1.1.0;
        usb_vidpids = p.1.1.1.1.1.1.1.1.1.1.1.1.1.1.1.0;
        onboarding_psk_enc = p.1.1.1.1.1.1.1.1.1.1.1.1.1.1.1.1.0;
        onboarding_psks_enc = p.1.1.1.1.1.1.1.1.1.1.1.1.1.1.1.1.1.0;
        created_at = p.1.1.1.1.1.1.1.1.1.1.1.1.1.1.1.1.1.1.0;
        created_by = p.1.1.1.1.1.1.1.1.1.1.1.1.1.1.1.1.1.1.1.0;
        deleted_at = p.1.1.1.1.1.1.1.1.1.1.1.1.1.1.1.1.1.1.1.1;
      })
      (λ r. refl)
