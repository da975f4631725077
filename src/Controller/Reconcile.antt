-- ===== src/Controller/Reconcile.antt =====
-- `Reconcile` of internal/controller/taonode_controller.go: its steps in order, with every early return.
-- The steps themselves are the definitions of the other modules.
pub mod Persisted
pub mod Guarded
use tao_node_guardian.Base.{
  ℕ, ◌*◌, String, List, [], ◌∷◌, Option, none, some, Bool, true, false, not, ◌⊎◌, inl, inr,
  if◌then◌else◌,
}
use tao_node_guardian.Base.Int.{ℤ, pos, ltb_ℤ}
use tao_node_guardian.Base.Errors.{Error, wrap, Result, ok, err, is_not_found}
use tao_node_guardian.Base.Format.{error_text, score, sprintf, text}
use tao_node_guardian.Api.Quantities.{QuantityOps}
use tao_node_guardian.Api.Status.{
  TaoNode, TaoNodePhase, unset, pending, is_true, is_false, AnalyticsStatusBlock,
  AnomalyScoreStatus,
}
use tao_node_guardian.Controller.Conditions.{ConditionOps}
use tao_node_guardian.Controller.RateLimiter.{RecoveryRateLimiter, second}
use tao_node_guardian.Controller.State.{
  Output, observe, KubeClient, Run, put_status, set_phase, emit, set_cond, phase_of,
}
use tao_node_guardian.Controller.Health.{
  ChainHealthResult, AnomalyScore, block_lag_of, is_pending, Outcome,
}
use tao_node_guardian.Controller.SyncState.{evaluate_sync_state, probe_interval}
use tao_node_guardian.Controller.ValidatorGuard.{
  LeaseClient, is_validator, ensure_validator_singleton,
}
use tao_node_guardian.Controller.Storage.{PvcClient, evaluate_disk_pressure}
use tao_node_guardian.Controller.Preflight.{
  PreflightClient, validate_namespace_permissions, validate_hotkey_secret,
}
use tao_node_guardian.Controller.Finalization.{
  finalizer_name, FinalizerOps, NodeClient, handle_finalization,
}
use tao_node_guardian.Controller.AnalyticsStep.{FloatOps, Plane, Visit, reconcile_with_analytics}
use tao_node_guardian.Controller.Pod.{StatefulSet, Service, ServiceAccount}
use tao_node_guardian.Controller.Gpu.{update_gpu_status}
use tao_node_guardian.Controller.ChainArgs.{TextOps}
use tao_node_guardian.Controller.Containers.{is_monitored}
use tao_node_guardian.Controller.Workload.{desired_stateful_set_for_node}
use tao_node_guardian.Controller.Workload.Ensure.{DeepEqual, SetClient, ensure_node_workload}
use tao_node_guardian.Controller.Workload.Services.{
  ServiceMonitor, OwnedClient, ensure_service_account, ensure_headless_service,
  ensure_service_monitor,
}
use tao_node_guardian.Controller.StatusUpdate.{NodeStore, update_status_and_requeue}
use tao_node_guardian.Controller.Advisory.{IncidentContext, maybe_request_ai_advisory}
use tao_node_guardian.Controller.Cost.{Float64, update_fin_ops_status}
use tao_node_guardian.Controller.Probe.{ProbeHttp, probe_chain_health}

-- The reconciler: its clients, the packages that it calls, and what it was configured with. `F` is Go's
-- float64 and `D` the state of the database.
pub record Reconciler (Q W F D : Type 0) : Type 0 where
  pub conds : ConditionOps
  pub kube : KubeClient W
  pub finalizers : FinalizerOps
  pub add_finalizer : List String → String → List String
  pub leases : LeaseClient W
  pub nodes : NodeClient Q W
  pub store : NodeStore Q W
  pub preflight : PreflightClient W
  pub accounts : OwnedClient Q ServiceAccount W
  pub services : OwnedClient Q Service W
  pub monitors : OwnedClient Q ServiceMonitor W
  pub sets : SetClient Q W
  pub equal : DeepEqual Q
  pub set_owner : TaoNode Q → StatefulSet Q → Result (StatefulSet Q)
  pub pvcs : PvcClient Q W
  pub http : ProbeHttp W
  pub quantities : QuantityOps Q
  pub must_parse : String → Q
  pub new_quantity : ℤ → Q
  pub texts : TextOps
  pub float64 : Float64 F
  pub rates : FloatOps F
  pub parse_score : String → Option ℕ
  pub default_image : String
  pub has_advisor : Bool

-- The time of the call and of the answer to the anomaly queries, and that answer, with none where there
-- is no detector.
pub record Moment : Type 0 where
  pub now : ℕ
  pub answered : ℕ
  pub answer : Option (Result (List AnomalyScore))

-- What a call ends with: the node as the reconciler holds it, the analytics that all calls share, and the
-- advisory that a goroutine was started for.
pub record Round (Q W F D : Type 0) : Type 0 where
  pub outcome : Outcome
  pub run : Run Q W
  pub plane : Option (Plane F D)
  pub advice : Option IncidentContext

abbrev pub is_unset_phase : TaoNodePhase → Bool
is_unset_phase unset = true
is_unset_phase _ = false

abbrev score_status : AnomalyScore → AnomalyScoreStatus
score_status a = record {
  type_ = a.type_;
  score = sprintf "%.3f" (score a.score_units ∷ []);
  detail = a.detail;
  detected_at = some a.detected_at;
}

unfoldable pub score_statuses : List AnomalyScore → List AnomalyScoreStatus
score_statuses [] = []
score_statuses (a ∷ rest) = score_status a ∷ score_statuses rest

-- Scores are stored when there are any, in a block that is there.
abbrev scored : List AnomalyScore → Option AnalyticsStatusBlock → Option AnalyticsStatusBlock
scored anomalies none = none
scored [] (some block) = some block
scored (a ∷ rest) (some block) = some (record block { anomaly_scores = score_statuses (a ∷ rest) })

module _ {Q W F D : Type 0} (r : Reconciler Q W F D) (m : Moment) where
  abbrev pub ended : Option (Plane F D) → Option IncidentContext → Outcome × Run Q W → Round Q W F D
  ended plane advice (outcome, s) = record {
    outcome = outcome;
    run = s;
    plane = plane;
    advice = advice;
  }

  abbrev pub failed_round : Option (Plane F D) → Outcome → Run Q W → Round Q W F D
  failed_round plane outcome s = record { outcome = outcome; run = s; plane = plane; advice = none }

  unfoldable pub persist : ℤ → Run Q W → Outcome × Run Q W
  unfolding update_status_and_requeue
  persist after s =
      let (outcome, w) = update_status_and_requeue r.store s.node after s.world in
      (outcome, record s { world = w })

  -- Step 6: the observed status.
  unfoldable pub observed_status : ChainHealthResult → List AnomalyScore → Run Q W → Run Q W
  unfolding update_gpu_status update_fin_ops_status score_statuses
  observed_status health anomalies s =
      let st = s.node.status in
      let sync_state = record (st.sync_state) {
        current_block = health.current_block;
        network_block = health.network_block;
        block_lag = block_lag_of health;
        state = health.sync_state;
      } in
      let chain = record (st.chain) {
        peer_count = health.peer_count;
        finalized_block = health.finalized_block;
        runtime_version = health.runtime_version;
        epoch = health.epoch;
      } in
      let resources = record (st.resources) { disk_usage_percent = health.disk_usage_percent } in
      let seen =
        put_status (record st { sync_state = sync_state; chain = chain; resources = resources })
          s in
      let priced =
        update_fin_ops_status r.float64 r.quantities r.must_parse (update_gpu_status health seen) in
      put_status
        (record (priced.node.status) { analytics = scored anomalies priced.node.status.analytics })
        priced

  -- The stamp of step 10 and the observed duration.
  abbrev pub stamp_status : Run Q W → Run Q W
  stamp_status s =
      let stamp = record (s.node.status) {
        observed_generation = s.node.generation;
        last_reconcile_time = some m.now;
      } in
      emit (observe "reconcileDuration" (s.node.name ∷ s.node.namespace_ ∷ "success" ∷ []))
        (put_status stamp s)

  -- Steps 8 to 10, after the evaluation of the sync state.
  unfoldable pub conclude :
      List AnomalyScore → Option (Plane F D) → Outcome × Run Q W → Round Q W F D
  unfolding evaluate_disk_pressure maybe_request_ai_advisory persist
  conclude anomalies plane (err e, s) = failed_round plane (err e) s
  conclude anomalies plane (ok after, s) =
      let disk = (evaluate_disk_pressure r.quantities r.pvcs s).1 in
      let advice = maybe_request_ai_advisory r.parse_score r.has_advisor disk.node anomalies in
      let done = stamp_status disk in
      ended plane advice (persist (if ltb_ℤ (pos 0) after then after else probe_interval done) done)

  -- Steps 5 to 7, with a probe that answered.
  unfoldable pub probed : ChainHealthResult → Option (Plane F D) → Run Q W → Round Q W F D
  unfolding reconcile_with_analytics observed_status evaluate_sync_state conclude
  probed health plane s =
      let visit : Visit = record {
        now = m.now;
        answered = m.answered;
        health = health;
        answer = m.answer;
      } in
      let analysed = reconcile_with_analytics r.conds r.rates visit s.node plane in
      let seen = observed_status health analysed.0 (record s { node = analysed.1 }) in
      conclude analysed.0 analysed.2
        (evaluate_sync_state r.conds r.kube m.now health analysed.0 seen)

  abbrev pub probe_failed : Error → Run Q W → Run Q W
  probe_failed e s =
      set_cond r.conds m.now "ProbeSucceeded" is_false "ProbeFailed"
        (sprintf "%v" (error_text e ∷ [])) s

  -- Step 4.
  unfoldable pub with_probe :
      Result ChainHealthResult → Option (Plane F D) → Run Q W → Round Q W F D
  unfolding set_cond persist probed
  with_probe (ok health) plane s =
      probed health plane
        (set_cond r.conds m.now "ProbeSucceeded" is_true "ProbeOK" (text "Chain probe succeeded") s)
  with_probe (err e) plane s =
      let noted = probe_failed e s in
      ended plane none
        (persist (if is_pending (phase_of s) then pos (15 * second) else pos (30 * second)) noted)

  abbrev pub probe_now : Option (Plane F D) → Run Q W → Round Q W F D
  probe_now plane s = with_probe (probe_chain_health r.kube r.http s.node s.world) plane s

  abbrev pub with_singleton : Option (Plane F D) → Result (Unit {0}) × Run Q W → Round Q W F D
  with_singleton plane (ok _, s) = probe_now plane s
  with_singleton plane (err e, s) =
      failed_round plane (err (wrap "ensure validator singleton: %w" e)) s

  unfoldable pub guard_validator : Option (Plane F D) → Run Q W → Round Q W F D
  unfolding ensure_validator_singleton probe_chain_health with_probe
  guard_validator plane s =
      if is_validator s.node.spec.role
      then with_singleton plane (ensure_validator_singleton r.leases r.kube m.now s)
      else probe_now plane s

  -- The error of the ServiceMonitor is only logged.
  unfoldable pub monitor : Run Q W → Run Q W
  unfolding ensure_service_monitor
  monitor s =
      if is_monitored s.node.spec.monitoring
      then record s { world = (ensure_service_monitor r.monitors s.node s.world).1 }
      else s

  abbrev pub with_workload : Option (Plane F D) → Result (Unit {0}) × W → Run Q W → Round Q W F D
  with_workload plane (ok _, w) s = guard_validator plane (monitor (record s { world = w }))
  with_workload plane (err e, w) s =
      failed_round plane (err (wrap "ensure StatefulSet: %w" e)) (record s { world = w })

  abbrev pub build_desired : TaoNode Q → Result (StatefulSet Q)
  build_desired tn =
      desired_stateful_set_for_node r.must_parse r.new_quantity r.texts r.default_image r.set_owner
        tn

  abbrev pub with_hotkey : Option (Plane F D) → Result (Unit {0}) × Run Q W → Round Q W F D
  with_hotkey plane (err _, s) = ended plane none (persist (pos (30 * second)) s)
  with_hotkey plane (ok _, s) =
      with_workload plane (ensure_node_workload r.equal r.sets build_desired s.node s.world) s

  abbrev pub with_permission : Option (Plane F D) → Result (Unit {0}) × Run Q W → Round Q W F D
  with_permission plane (err _, s) = ended plane none (persist (pos (60 * second)) s)
  with_permission plane (ok _, s) =
      with_hotkey plane (validate_hotkey_secret r.conds r.preflight m.now r.texts.sha256 s)

  -- The rest of step 3, once the ServiceAccount and the Service are there.
  unfoldable pub check_and_provision : Option (Plane F D) → Run Q W → Round Q W F D
  unfolding validate_namespace_permissions validate_hotkey_secret ensure_node_workload
      desired_stateful_set_for_node monitor guard_validator persist
  check_and_provision plane s =
      with_permission plane (validate_namespace_permissions r.conds r.preflight m.now s)

  abbrev pub with_service : Option (Plane F D) → Result (Unit {0}) × W → Run Q W → Round Q W F D
  with_service plane (err e, w) s =
      failed_round plane (err (wrap "ensure headless Service: %w" e)) (record s { world = w })
  with_service plane (ok _, w) s = check_and_provision plane (record s { world = w })

  abbrev pub with_account : Option (Plane F D) → Result (Unit {0}) × W → Run Q W → Round Q W F D
  with_account plane (err e, w) s =
      failed_round plane (err (wrap "ensure ServiceAccount: %w" e)) (record s { world = w })
  with_account plane (ok _, w) s =
      with_service plane (ensure_headless_service r.services s.node w) (record s { world = w })

  -- Step 3, after the phase of a new TaoNode is set.
  unfoldable pub provision : Option (Plane F D) → Run Q W → Round Q W F D
  unfolding ensure_service_account ensure_headless_service check_and_provision
  provision plane s =
      let named = if is_unset_phase (phase_of s) then set_phase pending s else s in
      with_account plane (ensure_service_account r.accounts named.node named.world) named

  abbrev pub added : Result (Unit {0}) → Outcome
  added (ok _) = ok (pos 0)
  added (err e) = err (wrap "add finalizer: %w" e)

  abbrev pub finalized : Result (Unit {0}) → Outcome
  finalized (ok _) = ok (pos 0)
  finalized (err e) = err e

  unfoldable pub put_finalizer : Run Q W → Outcome × Run Q W
  put_finalizer s =
      let tn = record (s.node) { finalizers = r.add_finalizer s.node.finalizers finalizer_name } in
      let (answer, w) = r.nodes.update_node tn s.world in
      (added answer, record s { node = tn; world = w })

  -- Step 2.
  unfoldable pub fetched : Option (Plane F D) → Run Q W → Round Q W F D
  unfolding handle_finalization put_finalizer provision
  fetched plane s =
      let gone = handle_finalization r.finalizers r.kube r.leases r.nodes m.now s in
      if s.node.is_deleted
      then ended plane none (finalized gone.0, gone.1)
      else if not (r.finalizers.contains_finalizer s.node.finalizers finalizer_name)
      then ended plane none (put_finalizer s)
      else provision plane s

  -- Step 1. Without a TaoNode there is no round, only an outcome.
  unfoldable pub reconcile :
      String
      → String
      → RecoveryRateLimiter
      → Option (Plane F D)
      → List Output
      → W
      → Outcome ⊎ Round Q W F D
  unfolding fetched
  reconcile ns name limiter plane outputs w = elim (r.store.get_node ns name w) [
    | err e ↦ inl (if is_not_found e then ok (pos 0) else err e)
    | ok tn ↦
        inr (fetched plane (record { node = tn; limiter = limiter; world = w; outputs = outputs }))
  ]
