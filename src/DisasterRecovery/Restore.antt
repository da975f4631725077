-- ===== src/DisasterRecovery/Restore.antt =====
-- The restore command, tools/tao-dr/internal/restore/restore.go. The object store, gzip, JSON and the
-- dynamic client are interfaces; `X` is what a decoded object has beside the fields that are read, `R`
-- the type of raw JSON and `B` that of bytes. Progress messages are left out, not the dry run's table.
pub mod Phases
use tao_node_guardian.Base.{
  ℕ, String, List, [], ◌∷◌, ◌++◌, Option, none, some, Bool, true, false, any, not, ◌&&◌, str_eq,
  if◌then◌else◌,
}
use tao_node_guardian.Base.Errors.{plain, wrap, Result, ok, err, ◌>>=◌, context}
use tao_node_guardian.Base.Format.{str, Formatted, sprintf, text}

pub record DrArchive (R : Type 0) : Type 0 where
  pub timestamp : ℕ
  pub cluster_id : String
  pub schema_version : String
  pub crds : List R
  pub nodes : List R

pub record Object (X : Type 0) : Type 0 where
  pub api_version : String
  pub kind : String
  pub name : String
  pub namespace_ : String
  pub content : X

pub record ObjectStore (B : Type 0) : Type 0 where
  pub load_config : Result (Unit {0})
  pub get_object : String → Result B
  pub gunzip : B → Result B
  pub read_all : B → Result B
  pub has_suffix : String → String → Bool

pub record Decoder (R B X : Type 0) : Type 0 where
  pub unmarshal_archive : B → Result (DrArchive R)
  pub unmarshal_object : R → Result (Object X)

pub data Resource : Type 0 where
  crd_resource tao_resource : Resource

pub record CrdCondition : Type 0 where
  pub type_ : String
  pub status : String

-- `marshal` gives the data that a patch sends. The namespace of a cluster-scoped patch is none. `poll` is
-- `wait.PollUntilContextTimeout` at 2 seconds for 90 seconds, of a condition that reads the cluster.
pub record DynamicClient (X W : Type 0) : Type 0 where
  pub marshal : Object X → Result (Unit {0})
  pub patch : Resource → Option String → Object X → Bool → W → Result (Unit {0}) × W
  pub get_crd : String → W → Result (List CrdCondition)
  pub poll : (W → Bool) → W → Result (Unit {0}) × W

-- `from_file` is `BuildConfigFromFlags` and `connect` `dynamic.NewForConfig`, on a type of configurations.
pub record Kubeconfig (C : Type 0) : Type 0 where
  pub from_file : String → Result C
  pub in_cluster : Result C
  pub recommended_home_file : String
  pub connect : C → Result (Unit {0})

pub record RestoreOptions : Type 0 where
  pub backup_key : String
  pub ns_override : String
  pub dry_run : Bool
  pub force : Bool
  pub kubeconfig : String

abbrev or_default : String → String → String
or_default value default = if str_eq value "" then default else value

module _ {X : Type 0} where
  unfoldable pub with_type_meta : Bool → Object X → Object X
  with_type_meta ensure obj =
      if ensure
      then record obj {
        api_version = or_default obj.api_version "tao.guardian.io/v1alpha1";
        kind = or_default obj.kind "TaoNode";
      }
      else obj

  unfoldable pub with_namespace : String → Object X → Object X
  with_namespace ns_override obj =
      if not (str_eq ns_override "") && not (str_eq obj.namespace_ "")
      then record obj { namespace_ = ns_override }
      else obj

  unfoldable pub parse_objects :
      {R B : Type 0} → Decoder R B X → String → Bool → List R → Result (List (Object X))
  unfolding with_type_meta with_namespace
  parse_objects decoder ns_override ensure [] = ok []
  parse_objects decoder ns_override ensure (raw ∷ raws) =
      let rest = parse_objects decoder ns_override ensure raws in
      context "resource[%d]: invalid JSON: %w" (decoder.unmarshal_object raw) >>= (λ obj.
        rest >>= (λ objs. ok (with_namespace ns_override (with_type_meta ensure obj) ∷ objs)))

  -- The table of the dry run, without its head.
  abbrev row : String → Object X → Formatted
  row format obj =
      sprintf format (str obj.kind ∷ str obj.namespace_ ∷ str obj.name ∷ str obj.api_version ∷ [])

  unfoldable pub rows : String → List (Object X) → List Formatted
  rows format [] = []
  rows format (obj ∷ rest) = row format obj ∷ rows format rest

  unfoldable pub print_dry_run : List (Object X) → List (Object X) → List Formatted
  unfolding rows
  print_dry_run crds nodes =
      rows "1/CRD\t%s\t%s\t%s\t%s\n" crds
      ++ rows "2/CR\t%s\t%s\t%s\t%s\n" nodes
      ++ (text "\n[dry-run] No changes applied." ∷ [])

abbrev pub has_resources : {R : Type 0} → List R → List R → DrArchive R → Result (DrArchive R)
has_resources [] [] archive = err (plain "backup contains no resources to restore")
has_resources [] (_ ∷ _) archive = ok archive
has_resources (_ ∷ _) _ archive = ok archive

-- The two checks of a decoded backup.
unfoldable pub checked_archive : {R : Type 0} → DrArchive R → Result (DrArchive R)
checked_archive archive =
    if str_eq archive.schema_version ""
    then err (plain "invalid backup: missing schemaVersion field")
    else has_resources archive.nodes archive.crds archive

abbrev pub opened : {B : Type 0} → ObjectStore B → String → B → Result B
opened store key body =
    if store.has_suffix key ".gz"
    then context "creating gzip reader: %w" (store.gunzip body)
    else ok body

module _ {R B X : Type 0} (store : ObjectStore B) (decoder : Decoder R B X) where
  -- Steps 1 to 3: download, decompress and decode.
  unfoldable pub read_archive : String → Result (DrArchive R)
  unfolding checked_archive
  read_archive key = context "loading AWS config: %w" store.load_config >>= (λ _.
      context "downloading backup: %w" (store.get_object key) >>= (λ body.
        opened store key body >>= (λ reader.
          context "reading backup body: %w" (store.read_all reader) >>= (λ raw.
            context "parsing backup JSON: %w" (decoder.unmarshal_archive raw)
            >>= (λ archive. checked_archive archive)))))

  -- Step 4: the CRDs and the TaoNodes of the backup.
  unfoldable pub prepare : RestoreOptions → Result (List (Object X) × List (Object X))
  unfolding read_archive parse_objects
  prepare options = read_archive options.backup_key >>= (λ archive.
      context "parsing CRD resources: %w" (parse_objects decoder "" false archive.crds) >>= (λ crds.
        context "parsing TaoNode resources: %w"
          (parse_objects decoder options.ns_override true archive.nodes)
        >>= (λ nodes. ok (crds, nodes))))

-- The configuration inside a cluster, or that of the home directory.
abbrev first_of : {C : Type 0} → Result C → Kubeconfig C → Result C
first_of (ok config) configs = ok config
first_of (err _) configs = configs.from_file configs.recommended_home_file

unfoldable pub kube_rest_config : {C : Type 0} → Kubeconfig C → String → Result C
kube_rest_config configs path =
    if str_eq path "" then first_of configs.in_cluster configs else configs.from_file path

abbrev is_established : CrdCondition → Bool
is_established c = str_eq c.type_ "Established" && str_eq c.status "True"

abbrev shows_established : Result (List CrdCondition) → Bool
shows_established (err _) = false
shows_established (ok conditions) = any is_established conditions

module _ {W : Type 0} where
  abbrev pub and_then : Result (Unit {0}) × W → (W → Result (Unit {0}) × W) → Result (Unit {0}) × W
  and_then (ok _, w) next = next w
  and_then (err e, w) next = (err e, w)

  abbrev pub in_context : String → Result (Unit {0}) × W → Result (Unit {0}) × W
  in_context format (answer, w) = (context format answer, w)

  -- A loop that stops at the first error.
  abbrev pub for_each :
      {A : Type 0} → String → (A → W → Result (Unit {0}) × W) → List A → W → Result (Unit {0}) × W
  for_each format f [] w = (ok tt, w)
  for_each format f (a ∷ rest) w =
      and_then (in_context format (f a w)) (λ v. for_each format f rest v)

abbrev defaulted : {X : Type 0} → Object X → Object X
defaulted node =
    if str_eq node.namespace_ ""
    then record node { namespace_ = "taonode-guardian-system" }
    else node

module _ {X W : Type 0} (client : DynamicClient X W) where
  -- The condition that is polled; a CRD that cannot be read is not there yet.
  unfoldable pub established : String → W → Bool
  established name w = shows_established (client.get_crd name w)

  unfoldable pub wait_crd_established : String → W → Result (Unit {0}) × W
  unfolding established
  wait_crd_established name w = client.poll (established name) w

  unfoldable pub wait_crds : List (Object X) → W → Result (Unit {0}) × W
  unfolding wait_crd_established
  wait_crds crds w =
      for_each "CRD %s did not become Established: %w" (λ crd. wait_crd_established crd.name) crds w

  module _ (force : Bool) where
    abbrev pub patched : Resource → Object X → Result (Unit {0}) → W → Result (Unit {0}) × W
    patched resource obj (err e) w = (err (wrap "marshaling object: %w" e), w)
    patched resource obj (ok _) w =
        client.patch resource (if str_eq obj.namespace_ "" then none else some obj.namespace_) obj
          force w

    unfoldable pub apply_resource : Resource → Object X → W → Result (Unit {0}) × W
    apply_resource resource obj w = patched resource obj (client.marshal obj) w

    unfoldable pub apply_nodes : List (Object X) → W → Result (Unit {0}) × W
    unfolding apply_resource
    apply_nodes nodes w =
        for_each "applying TaoNode %s/%s: %w" (λ node. apply_resource tao_resource (defaulted node))
          nodes w

    unfoldable pub apply_crds : List (Object X) → W → Result (Unit {0}) × W
    unfolding apply_resource
    apply_crds crds w = for_each "applying CRD %s: %w" (apply_resource crd_resource) crds w

    -- Steps 7 and 8: the two phases.
    unfoldable pub apply_phases : List (Object X) → List (Object X) → W → Result (Unit {0}) × W
    unfolding apply_crds wait_crds apply_nodes
    apply_phases crds nodes w =
        and_then (and_then (apply_crds crds w) (wait_crds crds)) (apply_nodes nodes)

module _ {R B X C W : Type 0} (store : ObjectStore B) (decoder : Decoder R B X)
    (configs : Kubeconfig C) (client : DynamicClient X W) where
  abbrev connected :
      RestoreOptions
      → Result (Unit {0})
      → List (Object X)
      → List (Object X)
      → W
      → Result (Unit {0}) × List Formatted × W
  connected options (err e) crds nodes w = (err e, [], w)
  connected options (ok _) crds nodes w =
      let t = apply_phases client options.force crds nodes w in (t.0, [], t.1)

  abbrev prepared :
      RestoreOptions
      → Result (List (Object X) × List (Object X))
      → W
      → Result (Unit {0}) × List Formatted × W
  prepared options (err e) w = (err e, [], w)
  prepared options (ok (crds, nodes)) w =
      let connection =
        context "building kubeconfig: %w" (kube_rest_config configs options.kubeconfig)
        >>= λ config. context "building dynamic client: %w" (configs.connect config) in
      if options.dry_run
      then (ok tt, print_dry_run crds nodes, w)
      else connected options connection crds nodes w

  -- `run`, with what it prints for a dry run.
  unfoldable pub run_restore : RestoreOptions → W → Result (Unit {0}) × List Formatted × W
  unfolding prepare kube_rest_config apply_phases print_dry_run
  run_restore options w = prepared options (prepare store decoder options) w
