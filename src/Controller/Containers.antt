-- ===== src/Controller/Containers.antt =====
-- The containers of the node's pod: the builders of internal/controller/statefulset_builder.go, and
-- `buildContainers`, `buildInitContainers` and `buildMetricsSidecar` of workload_manager.go.
use tao_node_guardian.Base.{
  ℕ, String, List, [], ◌∷◌, ◌++◌, Option, none, some, Bool, true, false, str_eq, not, if◌then◌else◌,
}
use tao_node_guardian.Base.Int.{ℤ, pos}
use tao_node_guardian.Base.Dict.{Dict}
use tao_node_guardian.Base.Format.{int, Formatted, sprintf, text}
use tao_node_guardian.Api.Spec.{
  TaoNodeRole, miner, validator, ValidatorSpec, MonitoringSpec, ResourceRequirements,
}
use tao_node_guardian.Api.Status.{TaoNode}
use tao_node_guardian.Controller.Pod.{
  Capabilities, SecurityContext, VolumeMount, ContainerPort, from_int, from_string, tcp_socket,
  http_get, Container,
}

abbrev pub has_key_name : Option ValidatorSpec → Bool
has_key_name none = false
has_key_name (some v) = not (str_eq v.hot_key_secret "")

abbrev pub gated : TaoNodeRole → Option ValidatorSpec → Bool
gated validator v = has_key_name v
gated miner v = has_key_name v
gated _ v = false

unfoldable pub requires_hotkey_material : {Q : Type 0} → TaoNode Q → Bool
requires_hotkey_material tn = gated tn.spec.role tn.spec.validator

abbrev pub subtensor_uid : ℕ
subtensor_uid = 1000

abbrev pub subtensor_gid : ℕ
subtensor_gid = 1000

abbrev pub chain_data_volume : String
chain_data_volume = "chain-data"

abbrev pub chain_probe_port : ℤ
chain_probe_port = pos 9616

abbrev pub mount : String → String → Bool → VolumeMount
mount volume path read_only = record { name = volume; mount_path = path; read_only = read_only }

abbrev tcp : String → ℤ → ContainerPort
tcp port_name number = record { name = port_name; container_port = number; protocol = "TCP" }

abbrev no_capabilities : Capabilities
no_capabilities = record { drop_ = "ALL" ∷ []; add = [] }

abbrev chown_capabilities : Capabilities
chown_capabilities = record { drop_ = "ALL" ∷ []; add = "CHOWN" ∷ "DAC_OVERRIDE" ∷ [] }

-- The context of both sidecars.
abbrev sidecar_context : SecurityContext
sidecar_context = record {
  run_as_user = none;
  run_as_group = none;
  run_as_non_root = none;
  allow_privilege_escalation = some false;
  read_only_root_filesystem = some true;
  capabilities = some no_capabilities;
  seccomp_profile = "";
}

abbrev root_context : Option ℕ → SecurityContext
root_context group = record {
  run_as_user = some 0;
  run_as_group = group;
  run_as_non_root = none;
  allow_privilege_escalation = some false;
  read_only_root_filesystem = some true;
  capabilities = some chown_capabilities;
  seccomp_profile = "";
}

abbrev metrics_port : Option MonitoringSpec → ℤ
metrics_port none = pos 9615
metrics_port (some monitoring) = monitoring.port

abbrev pub is_monitored : Option MonitoringSpec → Bool
is_monitored none = false
is_monitored (some monitoring) = monitoring.enabled

-- `must_parse` is `resource.MustParse`.
module _ {Q : Type 0} (must_parse : String → Q) where
  abbrev cpu_and_memory : String → String → Dict Q
  cpu_and_memory cpu memory = ("cpu", must_parse cpu) ∷ ("memory", must_parse memory) ∷ []

  unfoldable pub build_init_container : String → Container Q
  build_init_container image = record {
    name = "volume-permissions";
    image = image;
    command = "/bin/sh" ∷ "-c" ∷ [];
    args =
        sprintf "mkdir -p /data/chains && chown -R %d:%d /data"
          (int (pos subtensor_uid) ∷ int (pos subtensor_gid) ∷ [])
        ∷ [];
    ports = [];
    env = [];
    resources = record { limits = some (cpu_and_memory "100m" "64Mi"); requests = none };
    volume_mounts = mount chain_data_volume "/data" false ∷ [];
    security_context = root_context (some 0);
    startup_probe = none;
    liveness_probe = none;
    readiness_probe = none;
  }

  unfoldable pub build_key_injector_init_container : Container Q
  build_key_injector_init_container = record {
    name = "key-injector";
    image = "busybox:1.36-musl";
    command = "/bin/sh" ∷ "-c" ∷ [];
    args =
        text
          "cp /secrets/hotkey /keystore/hotkey && chmod 0400 /keystore/hotkey && chown 1000:1000 /keystore/hotkey && KEY_SIZE=$(wc -c < /keystore/hotkey) && if [ \"$KEY_SIZE\" -lt 20 ]; then echo \"ERROR: Hotkey too small (${KEY_SIZE} bytes)\" && exit 1; fi && echo \"Key injected (${KEY_SIZE} bytes)\""
        ∷ [];
    ports = [];
    env = [];
    resources = record {
      limits = some (cpu_and_memory "50m" "32Mi");
      requests = some (cpu_and_memory "10m" "16Mi");
    };
    volume_mounts = mount "hotkey-secret" "/secrets" true ∷ mount "keystore" "/keystore" false ∷ [];
    security_context = root_context none;
    startup_probe = none;
    liveness_probe = none;
    readiness_probe = none;
  }

  unfoldable pub main_mounts : Bool → Bool → List VolumeMount
  main_mounts needs_external_spec has_hotkey =
      (mount chain_data_volume "/data" false ∷ [])
      ++ (if needs_external_spec then mount "chain-spec" "/data/chain-spec" true ∷ [] else [])
      ++ (if has_hotkey then mount "keystore" "/keystore" true ∷ [] else [])

  unfoldable pub build_main_container :
      String → ResourceRequirements Q → List Formatted → Bool → Bool → Container Q
  unfolding main_mounts
  build_main_container image resources cli_args needs_external_spec has_hotkey = record {
    name = "node";
    image = image;
    command = [];
    args = cli_args;
    ports = tcp "rpc" (pos 9944) ∷ tcp "p2p" (pos 30333) ∷ tcp "metrics" (pos 9615) ∷ [];
    env = [];
    resources = resources;
    volume_mounts = main_mounts needs_external_spec has_hotkey;
    security_context = record {
      run_as_user = some subtensor_uid;
      run_as_group = some subtensor_gid;
      run_as_non_root = some true;
      allow_privilege_escalation = some false;
      read_only_root_filesystem = some true;
      capabilities = some no_capabilities;
      seccomp_profile = "RuntimeDefault";
    };
    startup_probe = some (record {
      handler = tcp_socket (from_string "rpc");
      initial_delay_seconds = 10;
      period_seconds = 10;
      timeout_seconds = 0;
      failure_threshold = 180;
    });
    liveness_probe = some (record {
      handler = tcp_socket (from_string "p2p");
      initial_delay_seconds = 60;
      period_seconds = 30;
      timeout_seconds = 5;
      failure_threshold = 5;
    });
    readiness_probe = some (record {
      handler = http_get "/health" (from_string "rpc") "HTTP";
      initial_delay_seconds = 30;
      period_seconds = 15;
      timeout_seconds = 5;
      failure_threshold = 3;
    });
  }

  -- The chain-probe sidecar, written out in `buildContainers`.
  unfoldable pub chain_probe_container : Container Q
  chain_probe_container = record {
    name = "chain-probe";
    image = "ghcr.io/claudiobotelhosb/taonode-guardian-probe:latest";
    command = [];
    args = [];
    ports = tcp "probe" chain_probe_port ∷ [];
    env =
        record { name = "NODE_RPC_URL"; value = text "http://localhost:9944" }
        ∷ record { name = "PROBE_PORT"; value = sprintf "%d" (int chain_probe_port ∷ []) }
        ∷ [];
    resources = record {
      limits = some (cpu_and_memory "100m" "128Mi");
      requests = some (cpu_and_memory "50m" "64Mi");
    };
    volume_mounts = [];
    security_context = sidecar_context;
    startup_probe = none;
    liveness_probe = none;
    readiness_probe = some (record {
      handler = http_get "/readyz" (from_int chain_probe_port) "";
      initial_delay_seconds = 5;
      period_seconds = 10;
      timeout_seconds = 0;
      failure_threshold = 0;
    });
  }

  unfoldable pub build_metrics_sidecar : TaoNode Q → Container Q
  build_metrics_sidecar tn = record {
    name = "metrics";
    image = "prom/node-exporter:v1.8.1";
    command = [];
    args =
        sprintf "--web.listen-address=:%d" (int (metrics_port tn.spec.monitoring) ∷ [])
        ∷ text "--collector.disable-defaults"
        ∷ text "--collector.textfile"
        ∷ text "--collector.textfile.directory=/var/lib/node-exporter"
        ∷ [];
    ports = tcp "metrics" (metrics_port tn.spec.monitoring) ∷ [];
    env = [];
    resources = record {
      limits = some (cpu_and_memory "50m" "64Mi");
      requests = some (cpu_and_memory "25m" "32Mi");
    };
    volume_mounts = [];
    security_context = sidecar_context;
    startup_probe = none;
    liveness_probe = none;
    readiness_probe = none;
  }

  unfoldable pub build_init_containers : TaoNode Q → String → List (Container Q)
  unfolding build_init_container build_key_injector_init_container requires_hotkey_material
  build_init_containers tn image =
      (build_init_container image ∷ [])
      ++ (if requires_hotkey_material tn then build_key_injector_init_container ∷ [] else [])

  unfoldable pub build_containers :
      TaoNode Q → String → ResourceRequirements Q → List Formatted → Bool → List (Container Q)
  unfolding build_main_container chain_probe_container build_metrics_sidecar
      requires_hotkey_material
  build_containers tn image resources cli_args needs_external_spec =
      let has_hotkey = requires_hotkey_material tn in
      (build_main_container image resources cli_args needs_external_spec has_hotkey
        ∷ chain_probe_container
        ∷ [])
      ++ (if is_monitored tn.spec.monitoring then build_metrics_sidecar tn ∷ [] else [])
