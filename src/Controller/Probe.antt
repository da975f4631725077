-- ===== src/Controller/Probe.antt =====
-- `probeChainHealth` of internal/controller/chain_probe.go. The HTTP client and the decoder of its
-- answer are an interface.
use tao_node_guardian.Base.{ℕ, ◌==◌, [], ◌∷◌, join, str_eq, if◌then◌else◌}
use tao_node_guardian.Base.Errors.{plain, wrap, Result, ok, err}
use tao_node_guardian.Base.Format.{str, int, Formatted, sprintf}
use tao_node_guardian.Api.Status.{TaoNode}
use tao_node_guardian.Controller.State.{Pod, KubeClient}
use tao_node_guardian.Controller.Containers.{chain_probe_port}
use tao_node_guardian.Controller.Health.{ChainHealthResult}

-- The decoded body, and how long the request has taken.
pub record Response : Type 0 where
  pub status_code : ℕ
  pub body : Result ChainHealthResult
  pub latency : ℕ

pub record ProbeHttp (W : Type 0) : Type 0 where
  pub new_request : Formatted → Result (Unit {0})
  pub send : Formatted → W → Result Response

abbrev decoded : ℕ → Result ChainHealthResult → Result ChainHealthResult
decoded latency (err e) = err (wrap "decode probe response from %s: %w" e)
decoded latency (ok health) = ok (record health { probe_latency = latency })

abbrev responded : Result Response → Result ChainHealthResult
responded (err e) = err (wrap "probe %s: %w" e)
responded (ok r) =
    if r.status_code == 200 then decoded r.latency r.body else err (plain "probe returned HTTP %d")

abbrev requested : Result (Unit {0}) → Result Response → Result ChainHealthResult
requested (err e) answer = err (wrap "build probe request: %w" e)
requested (ok _) answer = responded answer

unfoldable pub probe_pod : {W : Type 0} → ProbeHttp W → Result Pod → W → Result ChainHealthResult
probe_pod http (err e) w = err (wrap "get pod %s/%s: %w" e)
probe_pod http (ok pod) w =
    let url = sprintf "http://%s:%d/health" (str pod.pod_ip ∷ int chain_probe_port ∷ []) in
    if str_eq pod.pod_ip ""
    then err (plain "pod %s/%s has no IP assigned yet")
    else requested (http.new_request url) (http.send url w)

module _ {W : Type 0} (kube : KubeClient W) (http : ProbeHttp W) where
  unfoldable pub probe_chain_health : {Q : Type 0} → TaoNode Q → W → Result ChainHealthResult
  unfolding probe_pod
  probe_chain_health tn w = probe_pod http (kube.get_pod tn.namespace_ (join tn.name "-0") w) w
