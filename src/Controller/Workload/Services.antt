-- ===== src/Controller/Workload/Services.antt =====
-- The objects beside the StatefulSet: `ensureServiceAccount`, `ensureHeadlessService` and
-- `ensureServiceMonitor` of internal/controller/workload_manager.go.
use tao_node_guardian.Base.{String, List, [], ◌∷◌, true, false, join, if◌then◌else◌}
use tao_node_guardian.Base.Int.{ℤ, pos}
use tao_node_guardian.Base.Dict.{Dict}
use tao_node_guardian.Base.Errors.{wrap, Result, ok, err}
use tao_node_guardian.Base.Format.{Formatted}
use tao_node_guardian.Api.Status.{TaoNode}
use tao_node_guardian.Controller.Snapshots.{labels_for_node}
use tao_node_guardian.Controller.Containers.{is_monitored}
use tao_node_guardian.Controller.Pod.{ServicePort, Service, ServiceAccount}

-- The unstructured ServiceMonitor, with the fields that are set.
pub record ServiceMonitor : Type 0 where
  pub name : String
  pub namespace_ : String
  pub labels : Dict Formatted
  pub match_labels : Dict Formatted
  pub endpoint_port : String
  pub interval : String
  pub path : String
  pub owners : List String

-- `create_or_update` is `controllerutil.CreateOrUpdate`: it is given the object with its name, and the
-- function that changes the one found or the new one. `owned` is `ctrl.SetControllerReference`.
pub record OwnedClient (Q T W : Type 0) : Type 0 where
  pub create_or_update : T → (T → Result T) → W → Result (Unit {0}) × W
  pub owned : TaoNode Q → T → Result T

unfoldable pub convert_labels : Dict Formatted → Dict Formatted
convert_labels [] = []
convert_labels (entry ∷ rest) = entry ∷ convert_labels rest

abbrev port : String → ℤ → ServicePort
port port_name number = record { name = port_name; port = number; protocol = "TCP" }

unfoldable pub headless_service : {Q : Type 0} → TaoNode Q → Service → Service
unfolding labels_for_node
headless_service tn svc = record svc {
  cluster_ip = "None";
  selector = labels_for_node tn;
  ports = port "p2p" (pos 30333) ∷ port "rpc" (pos 9944) ∷ port "metrics" (pos 9615) ∷ [];
  publish_not_ready_addresses = true;
}

abbrev monitor_result : Result (Unit {0}) → Result (Unit {0})
monitor_result (ok _) = ok tt
monitor_result (err e) = err (wrap "create or update ServiceMonitor: %w" e)

unfoldable pub monitored : {Q : Type 0} → TaoNode Q → ServiceMonitor → ServiceMonitor
unfolding labels_for_node convert_labels
monitored tn sm = record sm {
  labels = labels_for_node tn;
  match_labels = convert_labels (labels_for_node tn);
  endpoint_port = "metrics";
  interval = "30s";
  path = "/metrics";
}

module _ {Q W : Type 0} where
  unfoldable pub ensure_service_account :
      OwnedClient Q ServiceAccount W → TaoNode Q → W → Result (Unit {0}) × W
  unfolding labels_for_node
  ensure_service_account client tn w =
      client.create_or_update
        (record {
          name = join tn.name "-sa";
          namespace_ = tn.namespace_;
          labels = labels_for_node tn;
          owners = [];
        })
        (λ sa. client.owned tn sa) w

  unfoldable pub ensure_headless_service :
      OwnedClient Q Service W → TaoNode Q → W → Result (Unit {0}) × W
  unfolding labels_for_node headless_service
  ensure_headless_service client tn w =
      client.create_or_update
        (record {
          name = join tn.name "-headless";
          namespace_ = tn.namespace_;
          labels = labels_for_node tn;
          cluster_ip = "";
          selector = [];
          ports = [];
          publish_not_ready_addresses = false;
          owners = [];
        })
        (λ svc. client.owned tn (headless_service tn svc)) w

  unfoldable pub ensure_service_monitor :
      OwnedClient Q ServiceMonitor W → TaoNode Q → W → Result (Unit {0}) × W
  unfolding monitored
  ensure_service_monitor client tn w =
      let answer =
        client.create_or_update
          (record {
            name = tn.name;
            namespace_ = tn.namespace_;
            labels = [];
            match_labels = [];
            endpoint_port = "";
            interval = "";
            path = "";
            owners = [];
          })
          (λ sm. client.owned tn (monitored tn sm)) w in
      if is_monitored tn.spec.monitoring then (monitor_result answer.0, answer.1) else (ok tt, w)
