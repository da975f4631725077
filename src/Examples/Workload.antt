-- ===== src/Examples/Workload.antt =====
-- The workload of a validator and of a node without a hotkey, on a cluster that has at most one
-- StatefulSet.
use tao_node_guardian.Base.{
  ℕ, String, List, [], ◌∷◌, ◌≡◌, refl, Option, none, some, Bool, true, false, All, length, ◌==◌,
  str_eq, ap, sym, subst,
}
use tao_node_guardian.Base.Int.{pos, pos_part}
use tao_node_guardian.Base.Dict.{Dict}
use tao_node_guardian.Base.Errors.{Result, ok, err, api, not_found, is_not_found}
use tao_node_guardian.Base.Format.{Formatted}
use tao_node_guardian.Api.Spec.{subtensor, MonitoringSpec}
use tao_node_guardian.Api.Status.{TaoNode, synced}
use tao_node_guardian.Controller.Pod.{ClaimTemplate, StatefulSet}
use tao_node_guardian.Controller.ChainArgs.{TextOps}
use tao_node_guardian.Controller.Snapshots.{labels_for_node}
use tao_node_guardian.Controller.Containers.{requires_hotkey_material}
use tao_node_guardian.Controller.Workload.{
  claim_template, pod_spec, pod_template, desired_stateful_set_for_node,
}
use tao_node_guardian.Controller.Workload.Isolation.{Isolated, pod_spec-Isolated}
use tao_node_guardian.Controller.Workload.Gate.{Keyless, pod_template-Keyless}
use tao_node_guardian.Controller.Workload.Mounts.{Mounted, pod_spec-Mounted}
use tao_node_guardian.Controller.Workload.Privileges.{
  Confined, RootRefused, pod_spec-Confined, init_containers_refused,
}
use tao_node_guardian.Controller.Workload.Ensure.{
  DeepEqual, SetClient, ensure_found, ensure_desired, ensure_node_workload,
}
use tao_node_guardian.Controller.Workload.Converge.{
  SetLaws, Converged, ensure_node_workload-Converged,
}
use tao_node_guardian.Controller.Retry.{last}
use tao_node_guardian.Examples.Nodes.{node_in}

-- Texts are taken as they are.
abbrev pub texts : TextOps
texts = record {
  to_lower = λ s. s;
  trim_space = λ s. s;
  sort_strings = λ l. l;
  join_with_nul = λ l. "";
  utf8 = λ s. [];
  sha256 = λ l. l;
  render = λ m. m.format;
}

abbrev pub parse : String → ℕ
parse s = 1

abbrev monitoring : MonitoringSpec
monitoring = record { enabled = true; port = pos 9615; alert_rules = [] }

abbrev validator_node : TaoNode ℕ
validator_node =
    let tn = node_in synced none in
    let monitored = record (tn.spec) { monitoring = some monitoring } in
    record tn { spec = monitored }

-- A full node with the block of a validator.
abbrev full_node : TaoNode ℕ
full_node =
    let changed = record (validator_node.spec) { role = subtensor } in
    record validator_node { spec = changed }

pod_spec-Isolated_example : Isolated (pod_spec parse pos_part texts "" validator_node)
pod_spec-Isolated_example = pod_spec-Isolated parse pos_part texts "" validator_node

pod_spec-Mounted_example :
    let p = pod_spec parse pos_part texts "" validator_node in
    let claim = claim_template parse validator_node in
    All (Mounted p.volumes claim) p.init_containers × All (Mounted p.volumes claim) p.containers
pod_spec-Mounted_example = pod_spec-Mounted parse pos_part texts "" validator_node

pod_spec-Confined_example :
    let p = pod_spec parse pos_part texts "" validator_node in All (Confined p) p.containers
pod_spec-Confined_example = pod_spec-Confined parse pos_part texts "" validator_node

init_containers_refused_example :
    let p = pod_spec parse pos_part texts "" validator_node in All (RootRefused p) p.init_containers
init_containers_refused_example = init_containers_refused parse pos_part texts "" validator_node

full_node_keyless : requires_hotkey_material full_node ≡ false
unfolding requires_hotkey_material
full_node_keyless = refl

pod_template-Keyless_example : Keyless (pod_template parse pos_part texts "" full_node)
pod_template-Keyless_example =
    pod_template-Keyless parse pos_part texts "" full_node full_node_keyless

abbrev same_mode : Option String → Option String → Bool
same_mode none none = true
same_mode (some a) (some b) = str_eq a b
same_mode _ _ = false

abbrev same_count : Option ℕ → Option ℕ → Bool
same_count none none = true
same_count (some a) (some b) = a == b
same_count _ _ = false

abbrev pub equal : DeepEqual ℕ
equal = record {
  claim_spec = λ a b. same_mode a.volume_mode b.volume_mode;
  labels = λ a b. length a == length b;
  selector = λ a b. length a == length b;
  replicas = same_count;
  update_strategy = str_eq;
  template = λ a b. length a.spec.containers == length b.spec.containers;
}

abbrev with_mode : List (ClaimTemplate ℕ) → List (ClaimTemplate ℕ)
with_mode [] = []
with_mode (c ∷ cs) =
    let filled = record (c.spec) { volume_mode = some "Filesystem" } in
    record c { spec = filled } ∷ with_mode cs

-- The server fills in the volume mode of the claim templates.
abbrev admit : StatefulSet ℕ → StatefulSet ℕ
admit s =
    let filled = record (s.spec) { claims = with_mode s.spec.claims } in record s { spec = filled }

abbrev find_set : String → String → Option (StatefulSet ℕ) → Result (StatefulSet ℕ)
find_set name ns none = err (api not_found)
find_set name ns (some s) = ok (record s { name = name; namespace_ = ns })

abbrev sets : SetClient ℕ (Option (StatefulSet ℕ))
sets = record {
  get = find_set;
  create = λ s w. (ok tt, some (admit s));
  delete_orphan = λ s w. (ok tt, none);
  update = λ s w. (ok tt, some (admit s));
  retry = λ f w. f w;
}

found_named :
    (name ns : String) (w : Option (StatefulSet ℕ)) (s : StatefulSet ℕ)
    → find_set name ns w ≡ ok s
    → (s.name ≡ name) × (s.namespace_ ≡ ns)
found_named name ns none s e = absurd (cc)
found_named name ns (some t) s e = (
  sym (ap (λ r. elim r [ ok x ↦ x.name | err _ ↦ name ]) e),
  sym (ap (λ r. elim r [ ok x ↦ x.namespace_ | err _ ↦ ns ]) e),
)

stored_as :
    (s : StatefulSet ℕ) (w' : Option (StatefulSet ℕ))
    → sets.create s none ≡ (ok tt, w')
    → find_set s.name s.namespace_ w' ≡ ok (admit s)
stored_as s w' e = subst (λ v. find_set s.name s.namespace_ v ≡ ok (admit s)) (ap (λ t. t.1) e) refl

sets_laws : SetLaws sets
sets_laws = record {
  admitted = admit;
  get_named = found_named;
  created = λ s w w' e. stored_as s w' e;
  updated = λ s w w' e. stored_as s w' e;
  retried = λ f w. last;
}

abbrev pub own : TaoNode ℕ → StatefulSet ℕ → Result (StatefulSet ℕ)
own tn s = ok (record s { owners = tn.name ∷ [] })

abbrev build_wanted : TaoNode ℕ → Result (StatefulSet ℕ)
build_wanted = desired_stateful_set_for_node parse pos_part texts "" own

abbrev labels : Dict Formatted
labels = labels_for_node validator_node

abbrev wanted : StatefulSet ℕ
wanted = record {
  name = "alpha";
  namespace_ = "tao";
  resource_version = "";
  is_deleted = false;
  owners = "alpha" ∷ [];
  labels = labels;
  spec = record {
    replicas = some 1;
    service_name = "alpha-headless";
    selector = labels;
    claims = claim_template parse validator_node ∷ [];
    update_strategy = "OnDelete";
    template = pod_template parse pos_part texts "" validator_node;
  };
}

built : build_wanted validator_node ≡ ok wanted
unfolding desired_stateful_set_for_node
built = refl

first_run :
    ensure_node_workload equal sets build_wanted validator_node none ≡ (ok tt, some (admit wanted))
unfolding ensure_node_workload ensure_desired ensure_found is_not_found
    desired_stateful_set_for_node
first_run = refl

ensure_node_workload-Converged_example :
    Converged equal sets sets_laws wanted none (some (admit wanted))
ensure_node_workload-Converged_example =
    ensure_node_workload-Converged equal sets sets_laws build_wanted validator_node wanted none
      (some (admit wanted)) built first_run
