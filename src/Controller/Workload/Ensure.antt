-- ===== src/Controller/Workload/Ensure.antt =====
-- `ensureNodeWorkload` of internal/controller/workload_manager.go, with the tests and the copy that
-- it makes, and `vctDriftDetected` of statefulset_builder.go.
use tao_node_guardian.Base.{
  ℕ, String, List, [], ◌∷◌, Option, Bool, true, false, not, ◌||◌, str_eq, if◌then◌else◌,
}
use tao_node_guardian.Base.Dict.{Dict}
use tao_node_guardian.Base.Errors.{wrap, Result, ok, err, is_not_found}
use tao_node_guardian.Base.Format.{Formatted}
use tao_node_guardian.Api.Status.{TaoNode}
use tao_node_guardian.Controller.Pod.{ClaimSpec, ClaimTemplate, PodTemplate, StatefulSet}

-- The tests that `equality.Semantic.DeepEqual` makes, for each type that it is asked of.
pub record DeepEqual (Q : Type 0) : Type 0 where
  pub claim_spec : ClaimSpec Q → ClaimSpec Q → Bool
  pub labels : Dict Formatted → Dict Formatted → Bool
  pub selector : Dict Formatted → Dict Formatted → Bool
  pub replicas : Option ℕ → Option ℕ → Bool
  pub update_strategy : String → String → Bool
  pub template : PodTemplate Q → PodTemplate Q → Bool

-- The client's calls on StatefulSets, by name and namespace; a deletion orphans the pods. `retry`
-- is `retry.RetryOnConflict(retry.DefaultRetry, …)`.
pub record SetClient (Q W : Type 0) : Type 0 where
  pub get : String → String → W → Result (StatefulSet Q)
  pub create : StatefulSet Q → W → Result (Unit {0}) × W
  pub delete_orphan : StatefulSet Q → W → Result (Unit {0}) × W
  pub update : StatefulSet Q → W → Result (Unit {0}) × W
  pub retry : (W → Result (Unit {0}) × W) → W → Result (Unit {0}) × W

module _ {Q : Type 0} (equal : DeepEqual Q) where
  -- Templates are compared one by one, and a list that is longer than the other differs.
  unfoldable pub claims_drift : List (ClaimTemplate Q) → List (ClaimTemplate Q) → Bool
  claims_drift [] [] = false
  claims_drift (c ∷ cs) [] = true
  claims_drift [] (d ∷ ds) = true
  claims_drift (c ∷ cs) (d ∷ ds) = not (equal.claim_spec c.spec d.spec) || claims_drift cs ds

  unfoldable pub vct_drift_detected : StatefulSet Q → StatefulSet Q → Bool
  unfolding claims_drift
  vct_drift_detected existing desired = claims_drift existing.spec.claims desired.spec.claims

  unfoldable pub stateful_set_structural_changes : StatefulSet Q → StatefulSet Q → Bool
  stateful_set_structural_changes current desired =
      not (str_eq current.spec.service_name desired.spec.service_name)
      || not (equal.selector current.spec.selector desired.spec.selector)

  unfoldable pub stateful_set_needs_mutable_update : StatefulSet Q → StatefulSet Q → Bool
  stateful_set_needs_mutable_update current desired =
      not (equal.labels current.labels desired.labels)
      || (not (equal.replicas current.spec.replicas desired.spec.replicas)
          || (not (equal.update_strategy current.spec.update_strategy desired.spec.update_strategy)
              || not (equal.template current.spec.template desired.spec.template)))

unfoldable pub copy_mutable_stateful_set_fields :
    {Q : Type 0} → StatefulSet Q → StatefulSet Q → StatefulSet Q
copy_mutable_stateful_set_fields dst src =
    let copied = record (dst.spec) {
      replicas = src.spec.replicas;
      update_strategy = src.spec.update_strategy;
      template = src.spec.template;
    } in
    record dst { labels = src.labels; spec = copied }

module _ {Q W : Type 0} (equal : DeepEqual Q) (client : SetClient Q W) where
  -- One attempt of the update in place.
  unfoldable pub attempt_found : StatefulSet Q → Result (StatefulSet Q) → W → Result (Unit {0}) × W
  unfolding stateful_set_needs_mutable_update copy_mutable_stateful_set_fields
  attempt_found desired (err e) w = (err e, w)
  attempt_found desired (ok latest) w =
      if stateful_set_needs_mutable_update equal latest desired
      then client.update (copy_mutable_stateful_set_fields latest desired) w
      else (ok tt, w)

  unfoldable pub attempt : StatefulSet Q → W → Result (Unit {0}) × W
  unfolding attempt_found
  attempt desired w = attempt_found desired (client.get desired.name desired.namespace_ w) w

  unfoldable pub create_again : StatefulSet Q → W → Result (Unit {0}) × W
  create_again desired w = client.create (record desired { resource_version = "" }) w

  -- What follows the answer of the deletion: only an error that is not NotFound stops.
  unfoldable pub after_delete : StatefulSet Q → Result (Unit {0}) × W → Result (Unit {0}) × W
  unfolding create_again
  after_delete desired (ok _, w) = create_again desired w
  after_delete desired (err e, w) =
      if is_not_found e
      then create_again desired w
      else (err (wrap "orphan-delete StatefulSet %s: %w" e), w)

  unfoldable pub recreate : StatefulSet Q → StatefulSet Q → W → Result (Unit {0}) × W
  unfolding after_delete create_again
  recreate current desired w =
      if current.is_deleted
      then create_again desired w
      else after_delete desired (client.delete_orphan current w)

  unfoldable pub ensure_found : StatefulSet Q → Result (StatefulSet Q) → W → Result (Unit {0}) × W
  unfolding recreate attempt vct_drift_detected stateful_set_structural_changes
  ensure_found desired (err e) w = if is_not_found e then client.create desired w else (err e, w)
  ensure_found desired (ok current) w =
      if vct_drift_detected equal current desired
        || stateful_set_structural_changes equal current desired
      then recreate current desired w
      else client.retry (attempt desired) w

  unfoldable pub ensure_desired : Result (StatefulSet Q) → W → Result (Unit {0}) × W
  unfolding ensure_found
  ensure_desired (err e) w = (err (wrap "build desired StatefulSet: %w" e), w)
  ensure_desired (ok desired) w =
      ensure_found desired (client.get desired.name desired.namespace_ w) w

  -- `build_desired` is `desiredStatefulSetForNode`.
  unfoldable pub ensure_node_workload :
      (TaoNode Q → Result (StatefulSet Q)) → TaoNode Q → W → Result (Unit {0}) × W
  unfolding ensure_desired
  ensure_node_workload build_desired tn w = ensure_desired (build_desired tn) w
