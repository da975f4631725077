-- ===== src/Controller/SyncState/History.antt =====
-- What calls of `Reconcile` of internal/controller/taonode_controller.go, one after another, do to what the
-- evaluation of the sync state reads: after an evaluation without error the status is stamped with the
-- time and stored, and after an error nothing is stored, so that the next call finds the old node. A call
-- that stops before the evaluation, where the Role, the hotkey or the probe fails, stores the status
-- without a stamp.
use tao_node_guardian.Base.{ℕ, List, [], ◌∷◌, some}
use tao_node_guardian.Base.Errors.{ok, err}
use tao_node_guardian.Base.Format.{Formatted}
use tao_node_guardian.Api.Status.{TaoNode, Condition}
use tao_node_guardian.Controller.Conditions.{ConditionOps}
use tao_node_guardian.Controller.State.{KubeClient, Run, put_status}
use tao_node_guardian.Controller.Health.{ChainHealthResult, AnomalyScore, Outcome}
use tao_node_guardian.Controller.SyncState.{evaluate_sync_state}

pub record Input : Type 0 where
  pub now : ℕ
  pub health : ChainHealthResult
  pub anomalies : List AnomalyScore

-- A call that evaluates, or one that stops before: with the conditions and the hotkey's hash that it
-- stores, which is the old ones if it returns an error.
pub data Round : Type 0 where
  evaluates : Input → Round
  stops : List Condition → Formatted → Round

module _ {Q W : Type 0} (conds : ConditionOps) (kube : KubeClient W) where
  abbrev stamped : ℕ → Run Q W → Run Q W
  stamped now s =
      let st = record (s.node.status) {
        observed_generation = s.node.generation;
        last_reconcile_time = some now;
      } in
      put_status st s

  unfoldable pub store_outcome : ℕ → TaoNode Q → Outcome × Run Q W → Run Q W
  store_outcome now old (ok _, t) = stamped now t
  store_outcome now old (err _, t) = record t { node = old }

  unfoldable pub reconcile_sync : Input → Run Q W → Run Q W
  unfolding store_outcome
  reconcile_sync i s =
      store_outcome i.now s.node (evaluate_sync_state conds kube i.now i.health i.anomalies s)

  unfoldable pub stop_early : List Condition → Formatted → Run Q W → Run Q W
  stop_early conditions hash s =
      put_status (record (s.node.status) { conditions = conditions; hotkey_hash = hash }) s

  unfoldable pub reconcile_round : Round → Run Q W → Run Q W
  unfolding reconcile_sync stop_early
  reconcile_round (evaluates i) s = reconcile_sync i s
  reconcile_round (stops conditions hash) s = stop_early conditions hash s

  unfoldable pub reconcile_all : List Round → Run Q W → Run Q W
  unfolding reconcile_round
  reconcile_all [] s = s
  reconcile_all (r ∷ rs) s = reconcile_all rs (reconcile_round r s)
