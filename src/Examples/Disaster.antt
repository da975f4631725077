-- ===== src/Examples/Disaster.antt =====
-- A backup that is restored, and a restore whose CRD never becomes Established. Bytes are the values
-- that they stand for.
use tao_node_guardian.Base.{
  ℕ, ◌+◌, String, List, [], ◌∷◌, none, some, Bool, true, false, ◌≡◌, ◌≢◌, refl, ap, map, inl, inr,
  Bool-cases, if◌then◌else◌,
}
use tao_node_guardian.Base.Errors.{Result, ok, err, plain, api, not_found, ◌>>=◌}
use tao_node_guardian.Api.Status.{TaoNode, synced}
use tao_node_guardian.DisasterRecovery.Backup.{
  DrBackup, Encoder, backup_of, backup_payload, stripped_nodes, stripped_node,
}
use tao_node_guardian.DisasterRecovery.Restore.{
  DrArchive, Object, ObjectStore, Decoder, Resource, crd_resource, tao_resource, DynamicClient,
  Kubeconfig, RestoreOptions, parse_objects, with_type_meta, with_namespace, checked_archive,
  read_archive, prepare, run_restore, established,
}
use tao_node_guardian.DisasterRecovery.Restore.Phases.{Waiting, run_restore_keeps}
use tao_node_guardian.DisasterRecovery.Failover.{applied, Terraform, run_failover}
use tao_node_guardian.DisasterRecovery.Failover.Variables.{
  RefusesVariables, run_failover_never_applies,
}
use tao_node_guardian.DisasterRecovery.RoundTrip.{Codec, backup_restores}
use tao_node_guardian.Examples.Nodes.{node_in}

abbrev options : RestoreOptions
options = record {
  backup_key = "dr-backups/prod/1.json.gz";
  ns_override = "spare";
  dry_run = false;
  force = true;
  kubeconfig = "";
}

abbrev encoder : Encoder ℕ (DrBackup ℕ)
encoder = record { marshal = λ b. ok b; gzip_write = λ b. ok tt; gzip_close = λ b. ok b }

abbrev store_with : {B : Type 0} → B → ObjectStore B
store_with held = record {
  load_config = ok tt;
  get_object = λ key. ok held;
  gunzip = λ b. ok b;
  read_all = λ b. ok b;
  has_suffix = λ text suffix. true;
}

abbrev decoder : Decoder (TaoNode ℕ) (DrBackup ℕ) ℕ
decoder = record {
  unmarshal_archive = λ b. ok (record {
    timestamp = b.timestamp;
    cluster_id = b.cluster_id;
    schema_version = b.schema_version;
    crds = [];
    nodes = map (λ tn. tn) b.nodes;
  });
  unmarshal_object = λ tn. ok (record {
    api_version = "";
    kind = "";
    name = tn.name;
    namespace_ = tn.namespace_;
    content = 0;
  });
}

abbrev alpha : TaoNode ℕ
alpha = node_in synced none

abbrev held : DrBackup ℕ
held = record {
  timestamp = 7;
  cluster_id = "prod";
  schema_version = "v1alpha1";
  nodes = record alpha { resource_version = ""; uid = ""; managed_fields = [] } ∷ [];
}

same_bytes : (b d : DrBackup ℕ) → encoder.marshal b ≡ ok d → d ≡ b
same_bytes b d m = cc

packed_bytes :
    (d p : DrBackup ℕ)
    → encoder.gzip_close d ≡ ok p
    → ((store_with held).gunzip p >>= (store_with held).read_all) ≡ ok d
packed_bytes d p c = cc

abbrev codec : Codec encoder (store_with held) decoder
codec = record {
  raw = λ tn. tn;
  content = λ tn. 0;
  packed = λ b d p m c. packed_bytes d p c;
  archive = λ b d m. ap (λ x. decoder.unmarshal_archive x) (same_bytes b d m);
  object = λ tn. refl;
}

backup_restores_example :
    prepare (store_with held) decoder options
    ≡ ok (
      [],
      record {
        api_version = "tao.guardian.io/v1alpha1";
        kind = "TaoNode";
        name = "alpha";
        namespace_ = "spare";
        content = 0;
      }
          ∷ [],
    )
unfolding backup_payload backup_of stripped_nodes stripped_node
backup_restores_example =
    backup_restores encoder (store_with held) decoder codec "prod" 7 alpha [] held options refl refl
      refl refl

abbrev crd : Object ℕ
crd = record {
  api_version = "apiextensions.k8s.io/v1";
  kind = "CustomResourceDefinition";
  name = "taonodes.tao.guardian.io";
  namespace_ = "";
  content = 0;
}

abbrev node : Object ℕ
node = record { api_version = ""; kind = ""; name = "alpha"; namespace_ = "tao"; content = 0 }

abbrev archive : DrArchive (Object ℕ)
archive = record {
  timestamp = 7;
  cluster_id = "prod";
  schema_version = "v1alpha1";
  crds = crd ∷ [];
  nodes = node ∷ [];
}

abbrev plain_decoder : Decoder (Object ℕ) (DrArchive (Object ℕ)) ℕ
plain_decoder = record { unmarshal_archive = λ a. ok a; unmarshal_object = λ o. ok o }

abbrev patch_count : Resource → ℕ → ℕ
patch_count crd_resource w = w
patch_count tao_resource w = w + 1

-- The cluster counts the TaoNodes that are applied.
abbrev client : DynamicClient ℕ ℕ
client = record {
  marshal = λ obj. ok tt;
  patch = λ resource ns obj force w. (ok tt, patch_count resource w);
  get_crd = λ name w. err (api not_found);
  poll = λ c w. (if c w then ok tt else err (plain "timed out"), w);
}

abbrev configs : Kubeconfig ℕ
configs = record {
  from_file = λ path. ok 0;
  in_cluster = ok 0;
  recommended_home_file = "config";
  connect = λ c. ok tt;
}

polled : (c : ℕ → Bool) (w : ℕ) → (client.poll c w).0 ≡ ok tt → c (client.poll c w).1 ≡ true
polled c w e = elim (Bool-cases (c w)) [
  | inl holds ↦ holds
  | inr fails ↦ let refused = rw fails at e in absurd (cc)
]

waiting : Waiting client true (λ w. w ≡ 0) "taonodes.tao.guardian.io"
unfolding established
waiting = record {
  pending = λ w p. refl;
  crds = λ ns obj w p. p;
  time = λ c w p. p;
  polled = polled;
}

run_restore_keeps_example :
    (run_restore (store_with archive) plain_decoder configs client options 0).2 ≡ 0
unfolding prepare read_archive checked_archive parse_objects with_type_meta with_namespace
run_restore_keeps_example =
    run_restore_keeps (store_with archive) plain_decoder configs client (λ w. w ≡ 0) options crd []
      []
      (record {
        api_version = "tao.guardian.io/v1alpha1";
        kind = "TaoNode";
        name = "alpha";
        namespace_ = "spare";
        content = 0;
      }
        ∷ [])
      0 refl waiting refl

abbrev refusing : List String → Result (Unit {0})
refusing [] = ok tt
refusing (_ ∷ _) = err (plain "Can't set variables when applying a saved plan")

-- Every plan has changes.
abbrev terraform : Terraform ℕ
terraform = record {
  cut = λ pair. some ("region", "eu-west-1");
  look_path = λ name. ok "/usr/bin/terraform";
  is_not_exist = λ e. false;
  stat = λ path. ok true;
  getwd = ok "/root";
  new_terraform = λ dir bin. ok tt;
  init = λ w. (ok tt, w);
  plan = λ vars out w. (ok true, w);
  apply = λ file vars w. (refusing vars, w + 1);
}

refuses : RefusesVariables terraform
refuses file var vars w w' e = absurd (cc)

run_failover_never_applies_example :
    (run_failover terraform "infra" ("region=eu-west-1" ∷ []) false 0).0 ≢ ok applied
run_failover_never_applies_example =
    run_failover_never_applies terraform "infra" "region=eu-west-1" [] false 0 refuses
