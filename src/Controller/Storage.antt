-- ===== src/Controller/Storage.antt =====
-- internal/controller/storage_manager.go: growing the chain-data volume before it is full. Sizes are
-- int64 numbers of thousandths, and the arithmetic wraps as Go's does.
pub mod Bounds
use tao_node_guardian.Base.{[], String, ◌∷◌, Option, none, some, if◌then◌else◌}
use tao_node_guardian.Base.Int.{ℤ, ◌+ℤ◌, ◌*ℤ◌, quot, ltb_ℤ, leb_ℤ, wrap64}
use tao_node_guardian.Base.{join}
use tao_node_guardian.Base.Errors.{wrap, Result, ok, err}
use tao_node_guardian.Base.Format.{str, int, sprintf}
use tao_node_guardian.Controller.State.{normal, event, inc, Run, emit}
use tao_node_guardian.Api.Quantities.{QuantityOps}
use tao_node_guardian.Api.Spec.{AutoExpandSpec}

-- A PersistentVolumeClaim with its storage request, and the client's calls on it.
pub record Pvc (Q : Type 0) : Type 0 where
  pub name : String
  pub namespace_ : String
  pub storage_request : Q

pub record PvcClient (Q W : Type 0) : Type 0 where
  pub get_pvc : String → String → W → Result (Pvc Q)
  pub update_pvc : Pvc Q → W → Result (Unit {0}) × W

-- The new size: `current` grown by the percentage, but at most `most`.
unfoldable pub grown : ℤ → ℤ → ℤ → ℤ
grown current percent most =
    let increment = quot (wrap64 (current *ℤ percent)) 100 in
    let wanted = wrap64 (current +ℤ increment) in if ltb_ℤ most wanted then most else wanted

module _ {Q W : Type 0} (ops : QuantityOps Q) (pvcs : PvcClient Q W) where
  unfoldable pub expanded : Q → Q → Run Q W → Run Q W
  expanded from to s =
      emit (inc "predictiveActionsTotal" (s.node.name ∷ s.node.namespace_ ∷ "pvc-expand" ∷ [])) (
        emit
          (event normal "PVCExpanded" (
            sprintf "Expanded chain-data PVC from %s to %s (disk at %d%%)" (
              str (ops.to_text from)
              ∷ str (ops.to_text to)
              ∷ int s.node.status.resources.disk_usage_percent
              ∷ [])))
          s)

  unfoldable pub resize : AutoExpandSpec Q → Pvc Q → Run Q W → Result (Unit {0}) × Run Q W
  unfolding grown expanded
  resize ae pvc s =
      let current = ops.milli_value pvc.storage_request in
      let most = ops.milli_value ae.max_size in
      let new_size = ops.from_milli (grown current ae.increment_percent most) in
      let (r, w') = pvcs.update_pvc (record pvc { storage_request = new_size }) s.world in
      let s' = record s { world = w' } in
      if leb_ℤ most current then (ok tt, s) else elim r [
        | ok _ ↦ (ok tt, expanded pvc.storage_request new_size s')
        | err e ↦ (err (wrap "update PVC %s storage request: %w" e), s')
      ]

  unfoldable pub resize_found :
      AutoExpandSpec Q → Result (Pvc Q) → Run Q W → Result (Unit {0}) × Run Q W
  unfolding resize
  resize_found ae (err e) s = (err (wrap "get PVC %s: %w" e), s)
  resize_found ae (ok pvc) s = resize ae pvc s

  unfoldable pub expand_with : Option (AutoExpandSpec Q) → Run Q W → Result (Unit {0}) × Run Q W
  unfolding resize_found
  expand_with none s = (ok tt, s)
  expand_with (some ae) s =
      resize_found ae
        (pvcs.get_pvc s.node.namespace_ (join (join "chain-data-" s.node.name) "-0") s.world) s

  unfoldable pub expand_pvc_preemptively : Run Q W → Result (Unit {0}) × Run Q W
  unfolding expand_with
  expand_pvc_preemptively s = expand_with s.node.spec.chain_storage.auto_expand s

  abbrev auto_wrapped : Result (Unit {0}) × Run Q W → Result (Unit {0}) × Run Q W
  auto_wrapped (ok u, s) = (ok u, s)
  auto_wrapped (err e, s) = (err (wrap "auto-expand PVC: %w" e), s)

  unfoldable pub evaluate_with : Option (AutoExpandSpec Q) → Run Q W → Result (Unit {0}) × Run Q W
  unfolding expand_pvc_preemptively
  evaluate_with none s = (ok tt, s)
  evaluate_with (some ae) s =
      if ltb_ℤ s.node.status.resources.disk_usage_percent ae.threshold_percent
      then (ok tt, s)
      else auto_wrapped (expand_pvc_preemptively s)

  unfoldable pub evaluate_disk_pressure : Run Q W → Result (Unit {0}) × Run Q W
  unfolding evaluate_with
  evaluate_disk_pressure s = evaluate_with s.node.spec.chain_storage.auto_expand s
