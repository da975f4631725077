-- ===== src/Controller/Reconcile/Persisted.antt =====
-- What a call of `Reconcile` of internal/controller/taonode_controller.go that asks to be called again
-- has stored.
use tao_node_guardian.Base.{
  List, Option, none, Bool, true, false, ◌≡◌, ◌⊎◌, inl, inr, not, ◌*◌, if◌then◌else◌,
}
use tao_node_guardian.Base.Int.{ℤ, pos, ltb_ℤ}
use tao_node_guardian.Base.Errors.{Result, ok, err}
use tao_node_guardian.Api.Status.{pending}
use tao_node_guardian.Controller.RateLimiter.{second}
use tao_node_guardian.Controller.State.{Run, set_phase, phase_of}
use tao_node_guardian.Controller.Health.{ChainHealthResult, AnomalyScore, Outcome, is_pending}
use tao_node_guardian.Controller.ValidatorGuard.{is_validator}
use tao_node_guardian.Controller.Finalization.{finalizer_name, handle_finalization}
use tao_node_guardian.Controller.AnalyticsStep.{Plane}
use tao_node_guardian.Controller.SyncState.{probe_interval}
use tao_node_guardian.Controller.ValidatorGuard.{ensure_validator_singleton}
use tao_node_guardian.Controller.Storage.{evaluate_disk_pressure}
use tao_node_guardian.Controller.Probe.{probe_chain_health}
use tao_node_guardian.Controller.Preflight.{validate_namespace_permissions, validate_hotkey_secret}
use tao_node_guardian.Controller.Workload.Ensure.{ensure_node_workload}
use tao_node_guardian.Controller.Workload.Services.{ensure_service_account, ensure_headless_service}
use tao_node_guardian.Controller.StatusUpdate.Stored.{Has, StoreLaws, update_status_and_requeue-Has}
use tao_node_guardian.Controller.Reconcile.{
  Reconciler, Moment, Round, ended, persist, conclude, probed, with_probe, with_singleton,
  guard_validator, with_workload, with_hotkey, with_permission, check_and_provision, with_service,
  with_account, provision, added, finalized, put_finalizer, fetched, stamp_status, probe_failed,
  probe_now, is_unset_phase, monitor, build_desired,
}

module _ {Q W F D : Type 0} (r : Reconciler Q W F D) (m : Moment) (laws : StoreLaws r.store) where
  -- Nothing to be called for again, or the cluster has the status that the reconciler holds.
  abbrev pub Stored : ℤ → Run Q W → Type 0
  Stored o s = (o ≡ pos 0) ⊎ Has r.store s.node.namespace_ s.node.name s.node.status s.world

  abbrev pub IsPersisted : Round Q W F D → Type 0
  IsPersisted t = (o : ℤ) → t.outcome ≡ ok o → Stored o t.run

  either-IsPersisted :
      (b : Bool) (t u : Round Q W F D)
      → IsPersisted t
      → IsPersisted u
      → IsPersisted (if b then t else u)
  either-IsPersisted true t u h k = h
  either-IsPersisted false t u h k = k

  persist-Stored :
      (after o : ℤ) (s : Run Q W)
      → (persist r m after s).0 ≡ ok o
      → Stored o (persist r m after s).1
  unfolding persist
  persist-Stored after o s h =
      elim (update_status_and_requeue-Has r.store laws s.node after o s.world h) [
        | inl done ↦ inr done.1
        | inr gone ↦ inl gone
      ]

  conclude-IsPersisted :
      (anomalies : List AnomalyScore) (plane : Option (Plane F D)) (t : Outcome × Run Q W)
      → IsPersisted (conclude r m anomalies plane t)
  unfolding conclude
  conclude-IsPersisted anomalies plane (err e, s) o h = absurd (cc)
  conclude-IsPersisted anomalies plane (ok after, s) o h =
      let done = stamp_status r m (evaluate_disk_pressure r.quantities r.pvcs s).1 in
      persist-Stored (if ltb_ℤ (pos 0) after then after else probe_interval done) o done h

  with_probe-IsPersisted :
      (a : Result ChainHealthResult) (plane : Option (Plane F D)) (s : Run Q W)
      → IsPersisted (with_probe r m a plane s)
  unfolding with_probe probed
  with_probe-IsPersisted (ok health) plane s o h = conclude-IsPersisted _ _ _ o h
  with_probe-IsPersisted (err e) plane s o h =
      persist-Stored (if is_pending (phase_of s) then pos (15 * second) else pos (30 * second)) o
        (probe_failed r m e s) h

  with_singleton-IsPersisted :
      (plane : Option (Plane F D)) (t : Result (Unit {0}) × Run Q W)
      → IsPersisted (with_singleton r m plane t)
  with_singleton-IsPersisted plane (ok _, s) o h =
      with_probe-IsPersisted (probe_chain_health r.kube r.http s.node s.world) plane s o h
  with_singleton-IsPersisted plane (err e, s) o h = absurd (cc)

  guard_validator-IsPersisted :
      (plane : Option (Plane F D)) (s : Run Q W) → IsPersisted (guard_validator r m plane s)
  unfolding guard_validator
  guard_validator-IsPersisted plane s =
      either-IsPersisted (is_validator s.node.spec.role)
        (with_singleton r m plane (ensure_validator_singleton r.leases r.kube m.now s))
        (probe_now r m plane s)
        (with_singleton-IsPersisted plane (ensure_validator_singleton r.leases r.kube m.now s))
        (with_probe-IsPersisted (probe_chain_health r.kube r.http s.node s.world) plane s)

  with_workload-IsPersisted :
      (plane : Option (Plane F D)) (t : Result (Unit {0}) × W) (s : Run Q W)
      → IsPersisted (with_workload r m plane t s)
  with_workload-IsPersisted plane (ok _, w) s o h =
      guard_validator-IsPersisted plane (monitor r m (record s { world = w })) o h
  with_workload-IsPersisted plane (err e, w) s o h = absurd (cc)

  with_hotkey-IsPersisted :
      (plane : Option (Plane F D)) (t : Result (Unit {0}) × Run Q W)
      → IsPersisted (with_hotkey r m plane t)
  with_hotkey-IsPersisted plane (err _, s) o h = persist-Stored (pos (30 * second)) o s h
  with_hotkey-IsPersisted plane (ok _, s) o h =
      with_workload-IsPersisted plane
        (ensure_node_workload r.equal r.sets (build_desired r m) s.node s.world) s o h

  with_permission-IsPersisted :
      (plane : Option (Plane F D)) (t : Result (Unit {0}) × Run Q W)
      → IsPersisted (with_permission r m plane t)
  with_permission-IsPersisted plane (err _, s) o h = persist-Stored (pos (60 * second)) o s h
  with_permission-IsPersisted plane (ok _, s) o h =
      with_hotkey-IsPersisted plane
        (validate_hotkey_secret r.conds r.preflight m.now r.texts.sha256 s) o h

  with_service-IsPersisted :
      (plane : Option (Plane F D)) (t : Result (Unit {0}) × W) (s : Run Q W)
      → IsPersisted (with_service r m plane t s)
  unfolding check_and_provision
  with_service-IsPersisted plane (err e, w) s o h = absurd (cc)
  with_service-IsPersisted plane (ok _, w) s o h =
      with_permission-IsPersisted plane
        (validate_namespace_permissions r.conds r.preflight m.now (record s { world = w })) o h

  with_account-IsPersisted :
      (plane : Option (Plane F D)) (t : Result (Unit {0}) × W) (s : Run Q W)
      → IsPersisted (with_account r m plane t s)
  with_account-IsPersisted plane (err e, w) s o h = absurd (cc)
  with_account-IsPersisted plane (ok _, w) s o h =
      with_service-IsPersisted plane (ensure_headless_service r.services s.node w)
        (record s { world = w }) o h

  -- The outcomes of step 2 ask for no call.
  added-Stored : (a : Result (Unit {0})) (o : ℤ) → added r m a ≡ ok o → o ≡ pos 0
  added-Stored (ok _) o h = cc
  added-Stored (err e) o h = absurd (cc)

  finalized-Stored : (a : Result (Unit {0})) (o : ℤ) → finalized r m a ≡ ok o → o ≡ pos 0
  finalized-Stored (ok _) o h = cc
  finalized-Stored (err e) o h = absurd (cc)

  put_finalizer-Stored : (s : Run Q W) (o : ℤ) → (put_finalizer r m s).0 ≡ ok o → o ≡ pos 0
  unfolding put_finalizer
  put_finalizer-Stored s o h =
      let tn = record (s.node) { finalizers = r.add_finalizer s.node.finalizers finalizer_name } in
      added-Stored (r.nodes.update_node tn s.world).0 o h

  provision-IsPersisted :
      (plane : Option (Plane F D)) (s : Run Q W) → IsPersisted (provision r m plane s)
  unfolding provision
  provision-IsPersisted plane s =
      let named = if is_unset_phase (phase_of s) then set_phase pending s else s in
      with_account-IsPersisted plane (ensure_service_account r.accounts named.node named.world)
        named

  -- If the API server stores the status that it is sent, a call of Reconcile that found the TaoNode and
  -- returns without an error, on whatever path, either asks for no further call, or the cluster then has
  -- the TaoNode with exactly the status that the reconciler has computed.
  pub fetched-IsPersisted :
      (plane : Option (Plane F D)) (s : Run Q W) (o : ℤ)
      → (fetched r m plane s).outcome ≡ ok o
      → Stored o (fetched r m plane s).run
  unfolding fetched
  fetched-IsPersisted plane s =
      let gone = handle_finalization r.finalizers r.kube r.leases r.nodes m.now s in
      either-IsPersisted s.node.is_deleted (ended r m plane none (finalized r m gone.0, gone.1))
        (if not (r.finalizers.contains_finalizer s.node.finalizers finalizer_name)
          then ended r m plane none (put_finalizer r m s)
          else provision r m plane s)
        (λ o h. inl (finalized-Stored gone.0 o h))
        (either-IsPersisted (not (r.finalizers.contains_finalizer s.node.finalizers finalizer_name))
          (ended r m plane none (put_finalizer r m s)) (provision r m plane s)
          (λ o h. inl (put_finalizer-Stored s o h)) (provision-IsPersisted plane s))
