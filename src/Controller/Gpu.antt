-- ===== src/Controller/Gpu.antt =====
-- GPU scheduling and status, internal/controller/gpu_advisor.go.
use tao_node_guardian.Base.{
  String, List, [], ◌∷◌, Option, none, some, Bool, ◌++◌, str_eq, if◌then◌else◌,
}
use tao_node_guardian.Base.Int.{ℤ, pos, ltb_ℤ}
use tao_node_guardian.Base.Format.{int}
use tao_node_guardian.Base.Dict.{Dict, insert}
use tao_node_guardian.Api.Spec.{GpuSpec, ResourceRequirements, Toleration}
use tao_node_guardian.Controller.State.{gauge, Run, put_status, emit}
use tao_node_guardian.Controller.Health.{ChainHealthResult}
use tao_node_guardian.Controller.Pod.{NodeSelectorRequirement, NodeAffinity}

unfoldable pub gpu_resource_name : String → String
gpu_resource_name gpu_type = if str_eq gpu_type "amd-gpu" then "amd.com/gpu" else "nvidia.com/gpu"

abbrev tolerated : String → String → String → Toleration
tolerated key operator value = record {
  key = key;
  operator = operator;
  value = value;
  effect = "NoSchedule";
}

abbrev spot_tolerations : Bool → List Toleration
spot_tolerations spot =
    if spot
    then tolerated "cloud.google.com/gke-spot" "Equal" "true"
      ∷ tolerated "kubernetes.azure.com/scalesetpriority" "Equal" "spot"
      ∷ []
    else []

unfoldable pub build_gpu_tolerations : Option GpuSpec → List Toleration
build_gpu_tolerations none = []
build_gpu_tolerations (some gpu) =
    (tolerated "nvidia.com/gpu" "Exists" "" ∷ []) ++ spot_tolerations gpu.spot_tolerant

abbrev product_requirement : String → NodeSelectorRequirement
product_requirement gpu_type = record {
  key = "nvidia.com/gpu.product";
  operator = "In";
  values = gpu_type ∷ [];
}

unfoldable pub build_gpu_node_affinity : Option GpuSpec → Option NodeAffinity
build_gpu_node_affinity none = none
build_gpu_node_affinity (some gpu) =
    let wanted = product_requirement gpu.type_ ∷ [] in
    some (
      if gpu.fallback_to_cpu
      then record { required = none; preferred = record { weight = 100; preference = wanted } ∷ [] }
      else record { required = some (wanted ∷ []); preferred = [] })

module _ {Q : Type 0} where
  -- A nil map is read as an empty one.
  abbrev pub entries : Option (Dict Q) → Dict Q
  entries none = []
  entries (some m) = m

  -- The loop that stores each entry of the second map in the first.
  unfoldable pub store_all : Dict Q → Dict Q → Dict Q
  store_all m [] = m
  store_all m (entry ∷ rest) = store_all (insert entry.0 entry.1 m) rest

  unfoldable pub merge_resource_requirements :
      ResourceRequirements Q → ResourceRequirements Q → ResourceRequirements Q
  unfolding store_all
  merge_resource_requirements base gpu = record {
    limits = some (store_all (entries base.limits) (entries gpu.limits));
    requests = some (store_all (entries base.requests) (entries gpu.requests));
  }

  -- `new_quantity n` is `resource.NewQuantity(n, resource.DecimalSI)`.
  module _ (new_quantity : ℤ → Q) where
    unfoldable pub build_gpu_resource_requirements : Option GpuSpec → ResourceRequirements Q
    build_gpu_resource_requirements none = record { limits = none; requests = none }
    build_gpu_resource_requirements (some gpu) =
        let m = (gpu_resource_name gpu.type_, new_quantity gpu.count) ∷ [] in
        record { limits = some m; requests = some m }

    -- The resources of the node container.
    unfoldable pub node_resources : Option GpuSpec → ResourceRequirements Q → ResourceRequirements Q
    unfolding merge_resource_requirements build_gpu_resource_requirements
    node_resources none base = base
    node_resources (some gpu) base =
        merge_resource_requirements base (build_gpu_resource_requirements (some gpu))

unfoldable pub update_gpu_status : {Q W : Type 0} → ChainHealthResult → Run Q W → Run Q W
update_gpu_status health s =
    if ltb_ℤ (pos 0) health.gpu_util_percent
    then (let resources = record (s.node.status.resources) {
      gpu_utilization_percent = some health.gpu_util_percent;
    } in
        let st = record (s.node.status) { resources = resources } in
        emit
          (gauge "gpuUtilization" (s.node.name ∷ s.node.namespace_ ∷ [])
            (int health.gpu_util_percent))
          (put_status st s))
    else s
