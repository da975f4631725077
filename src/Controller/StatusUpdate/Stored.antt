-- ===== src/Controller/StatusUpdate/Stored.antt =====
-- What the two writers of a TaoNode's status leave in the cluster,
-- internal/controller/taonode_controller.go.
use tao_node_guardian.Base.{ℕ, String, some, ◌≡◌, ◌⊎◌, inl, inr, refl, ap, subst, Bool-cases}
use tao_node_guardian.Base.Int.{ℤ, pos}
use tao_node_guardian.Base.Errors.{Result, ok, err, is_not_found}
use tao_node_guardian.Api.Status.{TaoNode, TaoNodeStatus}
use tao_node_guardian.Controller.Retry.{Attempts, last, again}
use tao_node_guardian.Controller.StatusUpdate.{
  NodeStore, IncidentReport, write_status, status_attempt, requeue_after, update_status_and_requeue,
  advisory_of, update_ai_advisory_status,
}

module _ {Q W : Type 0} (store : NodeStore Q W) where
  -- The cluster has the TaoNode, with this status.
  pub record Has (ns name : String) (st : TaoNodeStatus) (w : W) : Type 0 where
    pub node : TaoNode Q
    pub found : store.get_node ns name w ≡ ok node
    pub status : node.status ≡ st

  -- What the API server and the client promise.
  pub record StoreLaws : Type 0 where
    pub get_named :
        (ns name : String) (w : W) (tn : TaoNode Q)
        → store.get_node ns name w ≡ ok tn
        → (tn.namespace_ ≡ ns) × (tn.name ≡ name)
    pub updated :
        (tn : TaoNode Q) (w w' : W)
        → store.update_status tn w ≡ (ok tt, w')
        → Has tn.namespace_ tn.name tn.status w'
    pub retried : (f : W → Result (Unit {0}) × W) (w : W) → Attempts f w (store.retry f w)

  module _ (laws : StoreLaws) where
    -- The status that an attempt stores is the change of one that was there.
    abbrev pub Changed : String → String → (TaoNodeStatus → TaoNodeStatus) → W → Type 0
    Changed ns name change w = (old : TaoNodeStatus) × Has ns name (change old) w

    write-Changed :
        (ns name : String) (change : TaoNodeStatus → TaoNodeStatus) (a : Result (TaoNode Q))
        (w w' : W)
        → store.get_node ns name w ≡ a
        → write_status store change a w ≡ (ok tt, w')
        → Changed ns name change w'
    write-Changed ns name change (err e) w w' g h = absurd (cc)
    write-Changed ns name change (ok latest) w w' g h =
        let named = laws.get_named ns name w latest g in
        let has = laws.updated (record latest { status = change latest.status }) w w' h in
        (
          latest.status,
          subst (λ n. Has n name (change latest.status) w') named.0
              (subst (λ n. Has latest.namespace_ n (change latest.status) w') named.1 has),
        )

    Attempts-Changed :
        (ns name : String) (change : TaoNodeStatus → TaoNodeStatus) (w : W)
        (a : Result (Unit {0}) × W)
        → Attempts (status_attempt store ns name change) w a
        → a.0 ≡ ok tt
        → Changed ns name change a.1
    unfolding status_attempt
    Attempts-Changed ns name change w _ last h =
        let t : Result (Unit {0}) × W = write_status store change (store.get_node ns name w) w in
        write-Changed ns name change (store.get_node ns name w) w t.1 refl
          (ap (λ (r : Result (Unit {0})). (r, t.1)) h)
    Attempts-Changed ns name change w a (again _ more) h =
        Attempts-Changed ns name change _ a more h

    retry-Changed :
        (ns name : String) (change : TaoNodeStatus → TaoNodeStatus) (w : W)
        → (store.retry (status_attempt store ns name change) w).0 ≡ ok tt
        → Changed ns name change (store.retry (status_attempt store ns name change) w).1
    retry-Changed ns name change w h =
        let f = status_attempt store ns name change in
        Attempts-Changed ns name change w (store.retry f w) (laws.retried f w) h

    answered :
        (tn : TaoNode Q) (after : ℤ) (r : Result (Unit {0})) (o : ℤ)
        → requeue_after after r ≡ ok o
        → ((r ≡ ok tt) × (o ≡ after)) ⊎ (o ≡ pos 0)
    answered tn after (ok _) o h = inl (refl, cc)
    answered tn after (err e) o h = elim (Bool-cases (is_not_found e)) [
      | inl missing ↦ inr (let gone = rw missing at h in cc)
      | inr other ↦ let refused = rw other at h in absurd (cc)
    ]

    -- If the API server stores the status that it is sent, a status update that returns without an error
    -- either asks to be called again after the given time, and then the cluster has the TaoNode with
    -- exactly the status that the reconciler holds, whatever status it had before; or it asks for no
    -- call, with a zero.
    pub update_status_and_requeue-Has :
        (tn : TaoNode Q) (after o : ℤ) (w : W)
        → let t = update_status_and_requeue store tn after w in
          t.0 ≡ ok o → ((o ≡ after) × Has tn.namespace_ tn.name tn.status t.1) ⊎ (o ≡ pos 0)
    unfolding update_status_and_requeue
    update_status_and_requeue-Has tn after o w h =
        let f = status_attempt store tn.namespace_ tn.name (λ _. tn.status) in
        elim (answered tn after (store.retry f w).0 o h) [
          | inl done ↦
              inl (done.1, (retry-Changed tn.namespace_ tn.name (λ _. tn.status) w done.0).1)
          | inr gone ↦ inr gone
        ]

    -- If the API server stores the status that it is sent, and the goroutine of the AI advisor writes a
    -- report to the status while a reconcile that read the TaoNode before is under way, then the
    -- reconcile's own update, if it succeeds with a time to be called again, replaces the report by the
    -- advisory that the reconcile had read.
    pub advisory_overwritten :
        (now : ℕ) (tn : TaoNode Q) (report : IncidentReport) (after : ℤ) (w : W)
        → let advised = update_ai_advisory_status store now tn report w in
          let updated = update_status_and_requeue store tn after advised.1 in
          advised.0 ≡ ok tt
          → updated.0 ≡ ok after
          → (after ≡ pos 0 → ⊥)
          → ((st : TaoNodeStatus) × Has tn.namespace_ tn.name st advised.1
              × (st.ai_advisory ≡ some (advisory_of now report)))
            × ((st : TaoNodeStatus) × Has tn.namespace_ tn.name st updated.1
                × (st.ai_advisory ≡ tn.status.ai_advisory))
    unfolding update_ai_advisory_status
    advisory_overwritten now tn report after w a u later =
        let change : TaoNodeStatus → TaoNodeStatus =
          λ st. record st { ai_advisory = some (advisory_of now report) } in
        let advised = retry-Changed tn.namespace_ tn.name change w a in
        let w1 = (store.retry (status_attempt store tn.namespace_ tn.name change) w).1 in
        (
          (change advised.0, advised.1, refl),
          elim (update_status_and_requeue-Has tn after after w1 u) [
            | inl done ↦ (tn.status, done.1, refl)
            | inr gone ↦ absurd (later gone)
          ],
        )
