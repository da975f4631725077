-- ===== src/Controller/Workload.antt =====
-- The objects that a TaoNode owns, internal/controller/workload_manager.go, with
-- `annotationsForNode` and `imageForNode` of helpers.go and `vctDriftDetected` of
-- statefulset_builder.go.
pub mod Ensure
pub mod Services
pub mod Isolation
pub mod Gate
pub mod Mounts
pub mod Privileges
pub mod Converge
pub mod Drift
use tao_node_guardian.Base.{
  ℕ, ◌*◌, String, List, [], ◌∷◌, ◌++◌, Option, none, some, Bool, true, false, join, str_eq,
  if◌then◌else◌,
}
use tao_node_guardian.Base.Int.{ℤ, pos}
use tao_node_guardian.Base.Dict.{Dict, insert}
use tao_node_guardian.Base.Errors.{Result}
use tao_node_guardian.Base.Format.{int, Formatted, sprintf, text}
use tao_node_guardian.Api.Spec.{TaoNodeRole, validator, ValidatorSpec, MonitoringSpec}
use tao_node_guardian.Api.Status.{TaoNode}
use tao_node_guardian.Api.Webhook.{role_text}
use tao_node_guardian.Controller.Snapshots.{labels_for_node}
use tao_node_guardian.Controller.Pod.{
  empty_dir, config_map, secret_volume, Volume, PodTemplate, PodSpec, ClaimTemplate, StatefulSet,
}
use tao_node_guardian.Controller.Gpu.{
  build_gpu_tolerations, build_gpu_node_affinity, node_resources,
}
use tao_node_guardian.Controller.ChainArgs.{TextOps, resolve_chain_spec, build, hash_args}
use tao_node_guardian.Controller.Containers.{
  requires_hotkey_material, subtensor_uid, subtensor_gid, chain_data_volume, build_init_containers,
  build_containers,
}

abbrev pub monitoring_annotations : Option MonitoringSpec → Dict Formatted → Dict Formatted
monitoring_annotations none ann = ann
monitoring_annotations (some monitoring) ann =
    if monitoring.enabled
    then insert "prometheus.io/port" (sprintf "%d" (int monitoring.port ∷ []))
        (insert "prometheus.io/scrape" (text "true") ann)
    else ann

abbrev pub is_unset : Formatted → Bool
is_unset message = str_eq message.format ""

abbrev update_strategy_of : TaoNodeRole → String
update_strategy_of validator = "OnDelete"
update_strategy_of _ = "RollingUpdate"

-- The octal mode 0400.
abbrev owner_read_only : ℕ
owner_read_only = 4 * (8 * 8)

-- A nil reference is never followed, since the material is required only of a validator spec.
abbrev key_name : Option ValidatorSpec → String
key_name none = ""
key_name (some v) = v.hot_key_secret

module _ {Q : Type 0} where
  unfoldable pub annotations_for_node : TaoNode Q → Dict Formatted
  annotations_for_node tn =
      let ann =
        ("tao.guardian.io/node-name", text tn.name)
        ∷ ("tao.guardian.io/network", text tn.spec.network)
        ∷ [] in
      monitoring_annotations tn.spec.monitoring (
        if str_eq tn.spec.version ""
        then ann
        else insert "tao.guardian.io/version" (text tn.spec.version) ann)

  unfoldable pub image_for_node : String → TaoNode Q → String
  image_for_node default_image tn =
      if str_eq tn.spec.image ""
      then (if str_eq default_image "" then "opentensor/subtensor:latest" else default_image)
      else tn.spec.image

  -- The annotations of the pod template: those of the node, the hash of the arguments, and the hash
  -- of the key.
  unfoldable pub template_annotations : TextOps → TaoNode Q → List Formatted → Dict Formatted
  unfolding annotations_for_node requires_hotkey_material hash_args
  template_annotations ops tn cli_args =
      let hashed =
        insert "tao.guardian.io/args-hash" (hash_args ops cli_args) (annotations_for_node tn) in
      let hotkey_hash = tn.status.hotkey_hash in
      if requires_hotkey_material tn
      then (if is_unset hotkey_hash
          then hashed
          else insert "tao.guardian.io/hotkey-hash" hotkey_hash hashed)
      else hashed

  unfoldable pub cli_args_for_node : TextOps → TaoNode Q → String → List Formatted
  unfolding build requires_hotkey_material
  cli_args_for_node ops tn chain_spec = build ops (record {
    chain_spec = chain_spec;
    role = role_text tn.spec.role;
    rpc_port = pos 9944;
    p2p_port = pos 30333;
    prometheus_port = pos 9615;
    node_name = tn.name;
    keystore_path = if requires_hotkey_material tn then "/keystore" else "";
    extra_args = [];
  })

  module _ (must_parse : String → Q) where
    unfoldable pub hotkey_volumes : TaoNode Q → List (Volume Q)
    hotkey_volumes tn =
        record {
          name = "hotkey-secret";
          source =
              secret_volume (key_name tn.spec.validator) owner_read_only
                (record { key = "hotkey"; path = "hotkey"; mode = owner_read_only } ∷ []);
        }
        ∷ record { name = "keystore"; source = empty_dir "Memory" (some (must_parse "1Mi")) }
        ∷ []

    unfoldable pub build_volumes : TaoNode Q → Bool → List (Volume Q)
    unfolding hotkey_volumes requires_hotkey_material
    build_volumes tn needs_external_spec =
        (record { name = "probe-tmp"; source = empty_dir "" none } ∷ [])
        ++ (if needs_external_spec
            then record { name = "chain-spec"; source = config_map (join tn.name "-chainspec") }
              ∷ []
            else [])
        ++ (if requires_hotkey_material tn then hotkey_volumes tn else [])

    unfoldable pub claim_template : TaoNode Q → ClaimTemplate Q
    unfolding labels_for_node
    claim_template tn = record {
      name = chain_data_volume;
      labels = labels_for_node tn;
      spec = record {
        access_modes = "ReadWriteOnce" ∷ [];
        storage_class_name = some tn.spec.chain_storage.storage_class;
        requests = ("storage", tn.spec.chain_storage.size) ∷ [];
        volume_mode = none;
      };
    }

    module _ (new_quantity : ℤ → Q) (ops : TextOps) (default_image : String) where
      unfoldable pub pod_spec : TaoNode Q → PodSpec Q
      unfolding resolve_chain_spec image_for_node cli_args_for_node build_init_containers
          build_containers build_volumes node_resources build_gpu_tolerations
          build_gpu_node_affinity
      pod_spec tn =
          let image = image_for_node default_image tn in
          let chain = resolve_chain_spec ops tn.spec.network in
          let cli_args = cli_args_for_node ops tn chain.0 in
          let resources = node_resources new_quantity tn.spec.gpu tn.spec.resources in
          record {
            security_context = record {
              run_as_non_root = some true;
              run_as_user = some subtensor_uid;
              fs_group = some subtensor_gid;
              fs_group_change_policy = "OnRootMismatch";
              seccomp_profile = "RuntimeDefault";
            };
            service_account_name = join tn.name "-sa";
            automount_service_account_token = some false;
            termination_grace_period_seconds = some 120;
            init_containers = build_init_containers must_parse tn image;
            containers = build_containers must_parse tn image resources cli_args chain.1;
            volumes = build_volumes tn chain.1;
            tolerations = tn.spec.tolerations ++ build_gpu_tolerations tn.spec.gpu;
            node_selector = tn.spec.node_selector;
            affinity = build_gpu_node_affinity tn.spec.gpu;
          }

      unfoldable pub pod_template : TaoNode Q → PodTemplate Q
      unfolding resolve_chain_spec cli_args_for_node labels_for_node template_annotations pod_spec
      pod_template tn = record {
        labels = labels_for_node tn;
        annotations =
            template_annotations ops tn
              (cli_args_for_node ops tn (resolve_chain_spec ops tn.spec.network).0);
        spec = pod_spec tn;
      }

      -- `set_owner` is `ctrl.SetControllerReference`.
      module _ (set_owner : TaoNode Q → StatefulSet Q → Result (StatefulSet Q)) where
        unfoldable pub desired_stateful_set_for_node : TaoNode Q → Result (StatefulSet Q)
        unfolding labels_for_node claim_template pod_template
        desired_stateful_set_for_node tn = set_owner tn (record {
          name = tn.name;
          namespace_ = tn.namespace_;
          resource_version = "";
          is_deleted = false;
          owners = [];
          labels = labels_for_node tn;
          spec = record {
            replicas = some 1;
            service_name = join tn.name "-headless";
            selector = labels_for_node tn;
            claims = claim_template tn ∷ [];
            update_strategy = update_strategy_of tn.spec.role;
            template = pod_template tn;
          };
        })
