-- ===== src/Controller/Cost.antt =====
-- The cost estimate, internal/controller/finops_estimator.go, over an interface to Go's float64.
use tao_node_guardian.Base.{String, [], ◌∷◌, Option, none, some, Bool, if◌then◌else◌}
use tao_node_guardian.Base.Int.{ℤ, pos}
use tao_node_guardian.Base.Dict.{Dict, lookup}
use tao_node_guardian.Base.Format.{Arg, Formatted, sprintf}
use tao_node_guardian.Api.Quantities.{QuantityOps}
use tao_node_guardian.Api.Spec.{GpuSpec}
use tao_node_guardian.Api.Status.{TaoNode}
use tao_node_guardian.Controller.State.{gauge, Run, put_status, emit}

-- `literal` is the float64 nearest to a decimal number, and `shown` a float as an argument of a format.
pub record Float64 (F : Type 0) : Type 0 where
  pub literal : String → F
  pub of_int : ℤ → F
  pub add : F → F → F
  pub sub : F → F → F
  pub mul : F → F → F
  pub div : F → F → F
  pub at_least : F → F → Bool
  pub shown : F → Arg

module _ {F : Type 0} (f : Float64 F) where
  abbrev hours_per_month : F
  hours_per_month = f.literal "730.0"

  abbrev gib : F
  gib = f.literal "1073741824"

  unfoldable pub format_monthly_cost : F → Formatted
  format_monthly_cost usd =
      if f.at_least usd (f.literal "1000")
      then sprintf "$%.0f/mo" (f.shown usd ∷ [])
      else sprintf "$%.2f/mo" (f.shown usd ∷ [])

  -- A GPU's monthly cost, added, and 70% of it taken off again for a spot node.
  unfoldable pub add_gpu_cost : Option GpuSpec → F → F
  add_gpu_cost none total = total
  add_gpu_cost (some gpu) total =
      let cost = f.mul (f.mul (f.of_int gpu.count) (f.literal "2.50")) hours_per_month in
      let sum = f.add total cost in
      if gpu.spot_tolerant then f.sub sum (f.mul cost (f.literal "0.70")) else sum

  module _ {Q : Type 0} (ops : QuantityOps Q) (must_parse : String → Q) where
    abbrev parse_quantity_float : Q → F
    parse_quantity_float q = f.div (f.of_int (ops.milli_value q)) (f.literal "1000.0")

    abbrev quantity_to_gib : Q → F
    quantity_to_gib q = f.div (f.of_int (ops.value q)) gib

    abbrev value_or : Option Q → String → F
    value_or none default = parse_quantity_float (must_parse default)
    value_or (some q) default = parse_quantity_float q

    -- A nil list has no entry.
    unfoldable pub resource_value : Option (Dict Q) → String → String → F
    resource_value none res default = value_or none default
    resource_value (some reqs) res default = value_or (lookup res reqs) default

    abbrev gib_or_zero : Option Q → F
    gib_or_zero none = f.of_int (pos 0)
    gib_or_zero (some q) = quantity_to_gib q

    unfoldable pub resource_gib : Option (Dict Q) → String → F
    resource_gib none res = f.of_int (pos 0)
    resource_gib (some reqs) res = gib_or_zero (lookup res reqs)

    unfoldable pub estimate_monthly_cost_usd : TaoNode Q → F
    unfolding resource_value resource_gib add_gpu_cost
    estimate_monthly_cost_usd tn =
        let cpu = resource_value tn.spec.resources.requests "cpu" "0" in
        let memory = resource_gib tn.spec.resources.requests "memory" in
        let cpu_cost = f.mul (f.mul cpu (f.literal "0.05")) hours_per_month in
        let memory_cost = f.mul (f.mul memory (f.literal "0.006")) hours_per_month in
        let storage_cost = f.mul (quantity_to_gib tn.spec.chain_storage.size) (f.literal "0.10") in
        add_gpu_cost tn.spec.gpu
          (f.add (f.add (f.add (f.of_int (pos 0)) cpu_cost) memory_cost) storage_cost)

    unfoldable pub update_fin_ops_status : {W : Type 0} → Run Q W → Run Q W
    unfolding estimate_monthly_cost_usd format_monthly_cost
    update_fin_ops_status s =
        let cost = estimate_monthly_cost_usd s.node in
        let resources = record (s.node.status.resources) {
          estimated_monthly_usd = format_monthly_cost cost;
        } in
        let st = record (s.node.status) { resources = resources } in
        emit
          (gauge "estimatedMonthlyCost" (s.node.name ∷ s.node.namespace_ ∷ s.node.spec.network ∷ [])
            (f.shown cost))
          (put_status st s)
