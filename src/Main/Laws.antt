-- ===== src/Main/Laws.antt =====
-- What the start of src/main.rs can rely on, and its health check against the server.
use cyclone_dds_ws_bridge.Base.{
  Bool-cases, Bytes, List, Result, Result-cases, [], ap, false, if◌then◌else◌, inl, inr, list_eq,
  nat_eq, ok, pair_eq, refl, some, subst, take, ℕ, ◌+◌, ◌<◌, ◌==◌, ◌^◌, ◌∙◌, ◌≡◌,
}
use cyclone_dds_ws_bridge.Base.Int.{is_negative, ℤ}
use cyclone_dds_ws_bridge.Base.Text.{codes}
use cyclone_dds_ws_bridge.Bridge.{BridgeInner, create_bridge, created_bridge, try_create_bridge}
use cyclone_dds_ws_bridge.Bridge.Invariant.{IsBridge}
use cyclone_dds_ws_bridge.Bridge.Reach.{Connected, create_bridge-Connected, create_bridge-IsBridge}
use cyclone_dds_ws_bridge.Config.{Config}
use cyclone_dds_ws_bridge.Config.Env.{ConfigError, Env, load_config_from_args}
use cyclone_dds_ws_bridge.Dds.Api.{Dds}
use cyclone_dds_ws_bridge.Dds.Participant.{created_participant, new_participant}
use cyclone_dds_ws_bridge.Dds.Readers.{empty_readers}
use cyclone_dds_ws_bridge.Dds.Writer.{empty_writers}
use cyclone_dds_ws_bridge.Main.{
  Probe, Start, asks_health, bridge_started, config_loaded, config_or_default, exit_code,
  health_address, health_host, health_request, main, response, run_healthcheck, serves, starts_with,
}
use cyclone_dds_ws_bridge.Qos.Normalize.{policy_eq}
use cyclone_dds_ws_bridge.Ws.Server.{answer, health_response, is_health}

-- What the accept loop of the server writes to a stream comes back as the response.
abbrev pub Delivers : (Bytes → Bytes → Probe) → Type 0
Delivers probe =
    (address request text : Bytes)
    → answer (some (take 11 request)) ≡ some text
    → probe address request ≡ response text

health_request-answer :
    (host : Bytes) → answer (some (take 11 (health_request host))) ≡ some health_response
unfolding answer is_health health_request codes
health_request-answer host = refl

exit_code-health_response : exit_code (response health_response) ≡ 0
unfolding exit_code starts_with health_response codes
exit_code-health_response = refl

-- The health check exits with 0, whatever its arguments and environment, if what the accept loop
-- of the server answers to its request is what it reads.
run_healthcheck-answer :
    (read_toml : Bytes → Result ConfigError Config) (env : Env) (probe : Bytes → Bytes → Probe)
    (args : List Bytes)
    → Delivers probe
    → run_healthcheck read_toml env probe args ≡ 0
unfolding run_healthcheck
run_healthcheck-answer read_toml env probe args delivers =
    let c = config_or_default (load_config_from_args read_toml env args) in
    let host = health_host c in
    ap exit_code (
      delivers (health_address c) (health_request host) health_response
        (health_request-answer host))
    ∙ exit_code-health_response

ok_inj {ℓ κ} : {E : Type ℓ} {A : Type κ} {a c : A} → ◌≡◌ {A = Result E A} (ok a) (ok c) → a ≡ c
ok_inj e = cc

serves_inj : {d : Dds} {s t : BridgeInner d} → ◌≡◌ {A = Start d} (serves s) (serves t) → s ≡ t
serves_inj e = cc

module _ (d : Dds) (dds_create_participant : ℕ → d.World → ℤ × d.World) (default_domain : ℕ)
    (read_toml : Bytes → Result ConfigError Config) (env : Env) (probe : Bytes → Bytes → Probe)
    (args : List Bytes) (w : d.World) where
  -- The domain of the configuration, where 0 stands for the default.
  abbrev pub domain_of : Config → ℕ
  domain_of c = if c.dds.domain_id == 0 then default_domain else c.dds.domain_id

  -- The bridge has the configuration that was loaded, the participant that the library made in its
  -- domain, no session, writer or reader, and is in order.
  abbrev pub IsStarted : BridgeInner d → Type 0
  IsStarted s =
      let (handle, w') = dds_create_participant (domain_of s.config) w in
      (load_config_from_args read_toml env args ≡ ok s.config)
      × (is_negative handle ≡ false)
      × (s.participant.handle ≡ handle)
      × (s.world ≡ w')
      × (s.session_senders ≡ [])
      × (s.writers ≡ empty_writers)
      × (s.readers ≡ empty_readers)
      × ((room : ℕ) → room + 1 < 2 ^ 32 → IsBridge room s × Connected s)

  created-eq-ok :
      (c : Config) (made : ℤ × d.World) (s : BridgeInner d)
      → created_bridge d c (created_participant made) ≡ ok s
      → (is_negative made.0 ≡ false) × (create_bridge c made.0 made.1 ≡ s)
  unfolding created_bridge created_participant
  created-eq-ok c (handle, w') s e = elim (Bool-cases (is_negative handle)) [
    | inl refused ↦ let failed_to = rw refused at e in cc
    | inr made ↦ let same = rw made at e in (made, ok_inj same)
  ]

  try_create_bridge-eq-ok :
      (c : Config) (s : BridgeInner d)
      → try_create_bridge d dds_create_participant default_domain c w ≡ ok s
      → (let (handle, w') = dds_create_participant (domain_of c) w in
          (is_negative handle ≡ false) × (create_bridge c handle w' ≡ s))
  unfolding try_create_bridge new_participant
  try_create_bridge-eq-ok c s e = elim (Bool-cases (c.dds.domain_id == 0)) [
    | inl default_one ↦ rw default_one (created-eq-ok c _ s (rw default_one at e))
    | inr own ↦ rw own (created-eq-ok c _ s (rw own at e))
  ]

  config-IsStarted :
      (c : Config) (s : BridgeInner d)
      → load_config_from_args read_toml env args ≡ ok c
      → try_create_bridge d dds_create_participant default_domain c w ≡ ok s
      → IsStarted s
  unfolding create_bridge
  config-IsStarted c s loaded e =
      let (handle, w') = dds_create_participant (domain_of c) w in
      let (made, same) = try_create_bridge-eq-ok c s e in
      subst IsStarted same (
        loaded,
        made,
        refl,
        refl,
        refl,
        refl,
        refl,
        λ room small. (
          create_bridge-IsBridge d c handle w' room small,
          create_bridge-Connected d c handle w',
        ),
      )

  -- If `main` gets to its server and its poll loop, no health check was asked for, the
  -- configuration was loaded and is that of the bridge, and the bridge has the participant that
  -- the C library made in the domain of the configuration, where 0 stands for the default, no
  -- session, writer or reader, and is in order.
  pub main_lem :
      (s : BridgeInner d)
      → main d dds_create_participant default_domain read_toml env probe args w ≡ serves s
      → (asks_health args ≡ false) × IsStarted s
  unfolding main config_loaded bridge_started
  main_lem s e = elim (Bool-cases (asks_health args)) [
    | inl asked ↦ let exit = rw asked at e in cc
    | inr normal ↦ elim (Result-cases (load_config_from_args read_toml env args)) [
      | inr (error, bad) ↦ let exit = rw (normal, bad) at e in cc
      | inl (c, loaded) ↦
          elim (Result-cases (try_create_bridge d dds_create_participant default_domain c w)) [
            | inr (error, bad) ↦ let exit = rw (normal, loaded, bad) at e in cc
            | inl (t, made) ↦
                let same : t ≡ s = serves_inj (rw (normal, loaded, made) at e) in
                (normal, config-IsStarted c s loaded (made ∙ ap (λ x. ok x) same))
          ]
    ]
  ]
