-- ===== src/Controller/Pod.antt =====
-- The objects of the Kubernetes API that internal/controller/workload_manager.go and
-- statefulset_builder.go build, with the fields they set. `Q` is the type of quantities; an empty
-- text or a `none` is a field that is not set.
use tao_node_guardian.Base.{ℕ, String, List, Option, Bool}
use tao_node_guardian.Base.Int.{ℤ}
use tao_node_guardian.Base.Dict.{Dict}
use tao_node_guardian.Base.Format.{Formatted}
use tao_node_guardian.Api.Spec.{ResourceRequirements, Toleration}

pub record Capabilities : Type 0 where
  pub drop_ : List String
  pub add : List String

pub record SecurityContext : Type 0 where
  pub run_as_user : Option ℕ
  pub run_as_group : Option ℕ
  pub run_as_non_root : Option Bool
  pub allow_privilege_escalation : Option Bool
  pub read_only_root_filesystem : Option Bool
  pub capabilities : Option Capabilities
  pub seccomp_profile : String

pub record VolumeMount : Type 0 where
  pub name : String
  pub mount_path : String
  pub read_only : Bool

pub record ContainerPort : Type 0 where
  pub name : String
  pub container_port : ℤ
  pub protocol : String

pub data IntOrString : Type 0 where
  from_int : ℤ → IntOrString
  from_string : String → IntOrString

pub data ProbeHandler : Type 0 where
  tcp_socket : IntOrString → ProbeHandler
  http_get : String → IntOrString → String → ProbeHandler

-- Zero is the number that is not set.
pub record Probe : Type 0 where
  pub handler : ProbeHandler
  pub initial_delay_seconds : ℕ
  pub period_seconds : ℕ
  pub timeout_seconds : ℕ
  pub failure_threshold : ℕ

pub record EnvVar : Type 0 where
  pub name : String
  pub value : Formatted

pub record Container (Q : Type 0) : Type 0 where
  pub name : String
  pub image : String
  pub command : List String
  pub args : List Formatted
  pub ports : List ContainerPort
  pub env : List EnvVar
  pub resources : ResourceRequirements Q
  pub volume_mounts : List VolumeMount
  pub security_context : SecurityContext
  pub startup_probe : Option Probe
  pub liveness_probe : Option Probe
  pub readiness_probe : Option Probe

pub record KeyToPath : Type 0 where
  pub key : String
  pub path : String
  pub mode : ℕ

pub data VolumeSource (Q : Type 0) : Type 0 where
  empty_dir : String → Option Q → VolumeSource Q
  config_map : String → VolumeSource Q
  secret_volume : String → ℕ → List KeyToPath → VolumeSource Q

pub record Volume (Q : Type 0) : Type 0 where
  pub name : String
  pub source : VolumeSource Q

pub record NodeSelectorRequirement : Type 0 where
  pub key : String
  pub operator : String
  pub values : List String

pub record PreferredSchedulingTerm : Type 0 where
  pub weight : ℕ
  pub preference : List NodeSelectorRequirement

-- The required terms, if there are any, and the preferred ones.
pub record NodeAffinity : Type 0 where
  pub required : Option (List (List NodeSelectorRequirement))
  pub preferred : List PreferredSchedulingTerm

pub record PodSecurityContext : Type 0 where
  pub run_as_non_root : Option Bool
  pub run_as_user : Option ℕ
  pub fs_group : Option ℕ
  pub fs_group_change_policy : String
  pub seccomp_profile : String

pub record PodSpec (Q : Type 0) : Type 0 where
  pub security_context : PodSecurityContext
  pub service_account_name : String
  pub automount_service_account_token : Option Bool
  pub termination_grace_period_seconds : Option ℕ
  pub init_containers : List (Container Q)
  pub containers : List (Container Q)
  pub volumes : List (Volume Q)
  pub tolerations : List Toleration
  pub node_selector : Option (Dict String)
  pub affinity : Option NodeAffinity

pub record PodTemplate (Q : Type 0) : Type 0 where
  pub labels : Dict Formatted
  pub annotations : Dict Formatted
  pub spec : PodSpec Q

-- `volume_mode` is set by the API server when the code leaves it out.
pub record ClaimSpec (Q : Type 0) : Type 0 where
  pub access_modes : List String
  pub storage_class_name : Option String
  pub requests : Dict Q
  pub volume_mode : Option String

pub record ClaimTemplate (Q : Type 0) : Type 0 where
  pub name : String
  pub labels : Dict Formatted
  pub spec : ClaimSpec Q

pub record StatefulSetSpec (Q : Type 0) : Type 0 where
  pub replicas : Option ℕ
  pub service_name : String
  pub selector : Dict Formatted
  pub claims : List (ClaimTemplate Q)
  pub update_strategy : String
  pub template : PodTemplate Q

-- `is_deleted` is a deletion timestamp that is set, and `owners` are the names of the owners.
pub record StatefulSet (Q : Type 0) : Type 0 where
  pub name : String
  pub namespace_ : String
  pub resource_version : String
  pub is_deleted : Bool
  pub owners : List String
  pub labels : Dict Formatted
  pub spec : StatefulSetSpec Q

pub record ServicePort : Type 0 where
  pub name : String
  pub port : ℤ
  pub protocol : String

pub record Service : Type 0 where
  pub name : String
  pub namespace_ : String
  pub labels : Dict Formatted
  pub cluster_ip : String
  pub selector : Dict Formatted
  pub ports : List ServicePort
  pub publish_not_ready_addresses : Bool
  pub owners : List String

pub record ServiceAccount : Type 0 where
  pub name : String
  pub namespace_ : String
  pub labels : Dict Formatted
  pub owners : List String
