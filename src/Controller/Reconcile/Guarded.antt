-- ===== src/Controller/Reconcile/Guarded.antt =====
-- What a call of `Reconcile` of internal/controller/taonode_controller.go may do while the namespace's
-- Role or the hotkey is missing.
use tao_node_guardian.Base.{
  ℕ, ◌*◌, String, List, Option, none, some, Bool, true, false, ◌≡◌, ◌⊎◌, inl, inr, refl, sym, ap,
  ◌∙◌, subst, not, Bool-cases, if◌then◌else◌,
}
use tao_node_guardian.Base.Int.{ℤ, pos}
use tao_node_guardian.Base.Dict.{lookup}
use tao_node_guardian.Base.Errors.{Result, ok, err}
use tao_node_guardian.Api.Spec.{TaoNodeRole}
use tao_node_guardian.Api.Status.{TaoNode, pending}
use tao_node_guardian.Controller.RateLimiter.{second}
use tao_node_guardian.Controller.State.{Run, set_phase, phase_of}
use tao_node_guardian.Controller.Health.{is_err}
use tao_node_guardian.Controller.Finalization.{finalizer_name, handle_finalization}
use tao_node_guardian.Controller.AnalyticsStep.{Plane}
use tao_node_guardian.Controller.Preflight.{
  Secret, workload_manager_role, needs_hotkey, validate_namespace_permissions,
  validate_hotkey_secret,
}
use tao_node_guardian.Controller.Preflight.Outcome.{validate_hotkey_secret_outcome}
use tao_node_guardian.Controller.Preflight.Reads.{
  permissions_answer-Same, permissions_answer_fails, hotkey_check_world,
}
use tao_node_guardian.Controller.StatusUpdate.{update_status_and_requeue}
use tao_node_guardian.Controller.Workload.Services.{ensure_service_account, ensure_headless_service}
use tao_node_guardian.Controller.Reconcile.{
  Reconciler, Moment, Round, ended, finalized, persist, with_hotkey, with_permission,
  check_and_provision, with_service, with_account, provision, put_finalizer, fetched,
  is_unset_phase,
}

module _ {Q W F D : Type 0} (r : Reconciler Q W F D) (m : Moment) (P : W → Type 0) where
  -- What a call does before it may provide the workload keeps the property of the cluster: the deletion,
  -- the finalizer, the ServiceAccount, the Service, and the status update.
  pub record Kept : Type 0 where
    pub deletion :
        (s : Run Q W)
        → P s.world
        → P (handle_finalization r.finalizers r.kube r.leases r.nodes m.now s).1.world
    pub finalizer : (tn : TaoNode Q) (w : W) → P w → P (r.nodes.update_node tn w).1
    pub account : (tn : TaoNode Q) (w : W) → P w → P (ensure_service_account r.accounts tn w).1
    pub service : (tn : TaoNode Q) (w : W) → P w → P (ensure_headless_service r.services tn w).1
    pub status :
        (tn : TaoNode Q) (after : ℤ) (w : W)
        → P w
        → P (update_status_and_requeue r.store tn after w).1

  -- The Role cannot be read, or the role of the node needs a hotkey and no Secret of the namespace has one.
  abbrev pub IsBlocked : String → TaoNodeRole → W → Type 0
  IsBlocked ns role w =
      (is_err (r.preflight.get_role ns workload_manager_role w) ≡ true)
      ⊎ ((needs_hotkey role ≡ true)
          × ((name : String) (secret : Secret) (key : List ℕ)
              → r.preflight.get_secret ns name w ≡ ok secret
              → lookup "hotkey" secret.data_ ≡ some key
              → ⊥))

  module _ (kept : Kept) where
    persist_keeps : (after : ℤ) (s : Run Q W) → P s.world → P (persist r m after s).1.world
    unfolding persist
    persist_keeps after s p = kept.status s.node after s.world p

    -- A check that fails ends the call with a status update.
    failed_hotkey_keeps :
        (plane : Option (Plane F D)) (t : Result (Unit {0}) × Run Q W)
        → is_err t.0 ≡ true
        → P t.1.world
        → P (with_hotkey r m plane t).run.world
    failed_hotkey_keeps plane (ok _, s) e p = absurd (cc)
    failed_hotkey_keeps plane (err _, s) e p = persist_keeps (pos (30 * second)) s p

    failed_permission_keeps :
        (plane : Option (Plane F D)) (t : Result (Unit {0}) × Run Q W)
        → is_err t.0 ≡ true
        → P t.1.world
        → P (with_permission r m plane t).run.world
    failed_permission_keeps plane (ok _, s) e p = absurd (cc)
    failed_permission_keeps plane (err _, s) e p = persist_keeps (pos (60 * second)) s p

    -- Without a key the hotkey check fails.
    keyless_fails :
        (s : Run Q W)
        → needs_hotkey s.node.spec.role ≡ true
        → ((name : String) (secret : Secret) (key : List ℕ)
            → r.preflight.get_secret s.node.namespace_ name s.world ≡ ok secret
            → lookup "hotkey" secret.data_ ≡ some key
            → ⊥)
        → is_err (validate_hotkey_secret r.conds r.preflight m.now r.texts.sha256 s).0 ≡ true
    keyless_fails s needed keyless =
        elim (validate_hotkey_secret_outcome r.conds r.preflight m.now r.texts.sha256 s needed) [
          | inl refused ↦ refused.failed
          | inr found ↦ absurd (keyless found.name found.secret found.key found.answered found.held)
        ]

    keyless_keeps :
        (plane : Option (Plane F D)) (t : Result (Unit {0}) × Run Q W)
        → is_err (validate_hotkey_secret r.conds r.preflight m.now r.texts.sha256 t.1).0 ≡ true
        → P t.1.world
        → P (with_permission r m plane t).run.world
    keyless_keeps plane (ok _, s) e p =
        failed_hotkey_keeps plane
          (validate_hotkey_secret r.conds r.preflight m.now r.texts.sha256 s) e
          (subst P (sym (hotkey_check_world r.conds r.preflight m.now r.texts.sha256 s)) p)
    keyless_keeps plane (err _, s) e p = persist_keeps (pos (60 * second)) s p

    check_and_provision_keeps :
        (plane : Option (Plane F D)) (s : Run Q W)
        → IsBlocked s.node.namespace_ s.node.spec.role s.world
        → P s.world
        → P (check_and_provision r m plane s).run.world
    unfolding check_and_provision validate_namespace_permissions
    check_and_provision_keeps plane s blocked p =
        let answer = r.preflight.get_role s.node.namespace_ workload_manager_role s.world in
        let t = validate_namespace_permissions r.conds r.preflight m.now s in
        let same = permissions_answer-Same r.conds r.preflight m.now answer s in
        let p' : P t.1.world = subst P (sym same.world) p in
        elim blocked [
          | inl closed ↦
              failed_permission_keeps plane t
                (permissions_answer_fails r.conds r.preflight m.now answer s closed) p'
          | inr keyless ↦
              keyless_keeps plane t
                (keyless_fails t.1 (ap (λ role. needs_hotkey role) same.role ∙ keyless.0)
                  (λ name secret key g h.
                    keyless.1 name secret key
                      (sym (ap (λ w. r.preflight.get_secret s.node.namespace_ name w) same.world)
                        ∙ (sym (ap (λ n. r.preflight.get_secret n name t.1.world) same.namespace_)
                            ∙ g))
                      h))
                p'
        ]

    module _ (ns : String) (role : TaoNodeRole)
        (blocked : (w : W) → P w → IsBlocked ns role w) where
      service_keeps :
          (plane : Option (Plane F D)) (t : Result (Unit {0}) × W) (s : Run Q W)
          → s.node.namespace_ ≡ ns
          → s.node.spec.role ≡ role
          → P t.1
          → P (with_service r m plane t s).run.world
      service_keeps plane (err _, w) s n o p = p
      service_keeps plane (ok _, w) s n o p =
          check_and_provision_keeps plane (record s { world = w })
            (subst (λ x. IsBlocked x s.node.spec.role w) (sym n)
              (subst (λ x. IsBlocked ns x w) (sym o) (blocked w p)))
            p

      account_keeps :
          (plane : Option (Plane F D)) (t : Result (Unit {0}) × W) (s : Run Q W)
          → s.node.namespace_ ≡ ns
          → s.node.spec.role ≡ role
          → P t.1
          → P (with_account r m plane t s).run.world
      account_keeps plane (err _, w) s n o p = p
      account_keeps plane (ok _, w) s n o p =
          service_keeps plane (ensure_headless_service r.services s.node w) (record s { world = w })
            n o (kept.service s.node w p)

      provision_keeps :
          (plane : Option (Plane F D)) (s : Run Q W)
          → s.node.namespace_ ≡ ns
          → s.node.spec.role ≡ role
          → P s.world
          → P (provision r m plane s).run.world
      unfolding provision
      provision_keeps plane s n o p = elim (Bool-cases (is_unset_phase (phase_of s))) [
        | inl new ↦ rw new (
            account_keeps plane
              (ensure_service_account r.accounts (set_phase pending s).node s.world)
              (set_phase pending s) n o (kept.account (set_phase pending s).node s.world p))
        | inr known ↦ rw known (
            account_keeps plane (ensure_service_account r.accounts s.node s.world) s n o
              (kept.account s.node s.world p))
      ]

  either_keeps :
      (b : Bool) (t u : Round Q W F D)
      → P t.run.world
      → P u.run.world
      → P (if b then t else u).run.world
  either_keeps true t u p q = p
  either_keeps false t u p q = q

  -- Take a property of the cluster that the deletion, the finalizer, the ServiceAccount, the Service and
  -- the status update keep, and that a cluster can only have while the namespace's Role cannot be read or
  -- no Secret of the namespace has the hotkey that the node's role needs. Then a whole call of Reconcile
  -- keeps it, whatever the calls answer: while a check fails, the steps
  -- after it, from the StatefulSet to the recovery, do not change the cluster.
  pub fetched_keeps :
      (plane : Option (Plane F D)) (s : Run Q W)
      → Kept
      → ((w : W) → P w → IsBlocked s.node.namespace_ s.node.spec.role w)
      → P s.world
      → P (fetched r m plane s).run.world
  unfolding fetched put_finalizer
  fetched_keeps plane s kept blocked p =
      let gone = handle_finalization r.finalizers r.kube r.leases r.nodes m.now s in
      let tn = record (s.node) { finalizers = r.add_finalizer s.node.finalizers finalizer_name } in
      let unfinalized = not (r.finalizers.contains_finalizer s.node.finalizers finalizer_name) in
      either_keeps s.node.is_deleted (ended r m plane none (finalized r m gone.0, gone.1))
        (if unfinalized then ended r m plane none (put_finalizer r m s) else provision r m plane s)
        (kept.deletion s p)
        (either_keeps unfinalized (ended r m plane none (put_finalizer r m s))
          (provision r m plane s) (kept.finalizer tn s.world p)
          (provision_keeps kept s.node.namespace_ s.node.spec.role blocked plane s refl refl p))
