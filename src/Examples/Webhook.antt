-- ===== src/Examples/Webhook.antt =====
-- Requests to the admission webhook.
use tao_node_guardian.Base.{ℕ, String, ◌∷◌, [], ◌≡◌, ◌↔◌, none, some, false}
use tao_node_guardian.Base.Int.{pos}
use tao_node_guardian.Api.Status.{TaoNode, pending}
use tao_node_guardian.Api.Webhook.{validate, admitted}
use tao_node_guardian.Api.Webhook.Policy.{Policy, validate_iff}
use tao_node_guardian.Api.Webhook.Updates.{apply_updates, apply_updates_policy}
use tao_node_guardian.Examples.Nodes.{quantities, quantities_order, node_in}

abbrev node : TaoNode ℕ
node = node_in pending none

abbrev with_network : String → TaoNode ℕ
with_network network =
    let sp = record (node.spec) { network = network } in record node { spec = sp }

validate_iff_example :
    (validate quantities (some node) (with_network "testnet") ≡ admitted)
    ↔ Policy quantities (some node) (with_network "testnet")
validate_iff_example = validate_iff quantities (some node) (with_network "testnet")

apply_updates_policy_example :
    ((apply_updates quantities (with_network "testnet" ∷ node ∷ []) node).spec.network ≡ "mainnet")
    × ((apply_updates quantities (with_network "testnet" ∷ node ∷ []) node).spec.subnet_id ≡ pos 1)
    × (quantities.less
          (apply_updates quantities
            (with_network "testnet" ∷ node ∷ [])
            node).spec.chain_storage.size
          107374182400
        ≡ false)
apply_updates_policy_example =
    apply_updates_policy quantities quantities_order (with_network "testnet" ∷ node ∷ []) node
