-- ===== src/Tests/Start.antt =====
-- The claim about the start of the program at a concrete input.
use cyclone_dds_ws_bridge.Base.{
  Bytes, List, Result, [], err, false, none, refl, some, take, ◌+◌, ◌∷◌, ◌≡◌,
}
use cyclone_dds_ws_bridge.Base.Int.{pos}
use cyclone_dds_ws_bridge.Base.Text.{codes}
use cyclone_dds_ws_bridge.Bridge.{create_bridge, created_bridge, try_create_bridge}
use cyclone_dds_ws_bridge.Config.{Config, default_config}
use cyclone_dds_ws_bridge.Config.Env.{
  ConfigError, apply_env_overrides, config_path, from_defaults, load_config_from_args,
  parse_verbosity, verbosity_in,
}
use cyclone_dds_ws_bridge.Dds.Participant.{created_participant, new_participant}
use cyclone_dds_ws_bridge.Main.{
  Probe, asks_health, bridge_started, config_loaded, main, read_error, response, serves,
}
use cyclone_dds_ws_bridge.Main.Laws.{IsStarted, main_lem}
use cyclone_dds_ws_bridge.Tests.Values.{chatty}
use cyclone_dds_ws_bridge.Ws.Server.{answer}

-- The server's accept loop at the other end.
abbrev local_probe : Bytes → Bytes → Probe
local_probe address request = elim (answer (some (take 11 request))) [
  | none ↦ read_error
  | some text ↦ response text
]

abbrev program : List Bytes
program = codes "bridge" ∷ []

abbrev no_file : Bytes → Result ConfigError Config
no_file path = err (ConfigError.parse path)

program-serves :
    main chatty (λ domain w. (pos w, w + 1)) 4294967295 no_file (λ v. none) local_probe program 10
    ≡ serves (create_bridge {d = chatty} default_config (pos 10) 11)
unfolding main config_loaded bridge_started try_create_bridge created_bridge new_participant
    created_participant load_config_from_args apply_env_overrides from_defaults parse_verbosity
    verbosity_in config_path default_config codes create_bridge
program-serves = refl

main_lem_example :
    (asks_health program ≡ false)
    × IsStarted chatty
        (λ domain w. (pos w, w + 1))
        4294967295
        no_file
        (λ v. none)
        local_probe
        program
        10
        (create_bridge {d = chatty} default_config (pos 10) 11)
main_lem_example =
    main_lem chatty (λ domain w. (pos w, w + 1)) 4294967295 no_file (λ v. none) local_probe program
      10 (create_bridge {d = chatty} default_config (pos 10) 11) program-serves
