-- ===== src/Api/Webhook/Updates.antt =====
-- What a sequence of update requests can do to a stored object.
use tao_node_guardian.Base.{◌≡◌, refl, ◌∙◌, List, [], ◌∷◌, some, false}
use tao_node_guardian.Api.Quantities.{QuantityOps, QuantityOrder}
use tao_node_guardian.Api.Status.{TaoNode}
use tao_node_guardian.Api.Webhook.{Admission, admitted, rejected, validate, validate_update}
use tao_node_guardian.Api.Webhook.Policy.{UpdatePolicy, validate_iff}

module _ {Q : Type 0} (ops : QuantityOps Q) where
  -- The API server stores an object that the webhook admits, and keeps the old one otherwise.
  abbrev stored : TaoNode Q → TaoNode Q → Admission → TaoNode Q
  stored old new admitted = new
  stored old new (rejected _ _) = old

  pub apply_update : TaoNode Q → TaoNode Q → TaoNode Q
  apply_update old new = stored old new (validate_update ops old new)

  pub apply_updates : List (TaoNode Q) → TaoNode Q → TaoNode Q
  apply_updates [] tn = tn
  apply_updates (new ∷ news) tn = apply_updates news (apply_update tn new)

  apply_update_policy :
      (order : QuantityOrder ops) (old new : TaoNode Q)
      → UpdatePolicy ops (some old) (apply_update old new)
  unfolding apply_update validate_update
  apply_update_policy order old new = go (validate ops (some old) new) refl
    where
      go :
          (a : Admission)
          → validate ops (some old) new ≡ a
          → UpdatePolicy ops (some old) (stored old new a)
      go admitted e = ((validate_iff ops (some old) new).0 e).update
      go (rejected _ _) e = (refl, refl, order.less_irrefl old.spec.chain_storage.size)

  -- Whatever updates are requested, the network and the subnet of the stored object stay those it was
  -- created with, and its storage size never falls below the first one. The order of quantities is
  -- taken to be total.
  pub apply_updates_policy :
      (order : QuantityOrder ops) (news : List (TaoNode Q)) (tn : TaoNode Q)
      → ((apply_updates news tn).spec.network ≡ tn.spec.network)
        × ((apply_updates news tn).spec.subnet_id ≡ tn.spec.subnet_id)
        × (ops.less (apply_updates news tn).spec.chain_storage.size tn.spec.chain_storage.size
            ≡ false)
  unfolding apply_updates
  apply_updates_policy order [] tn = (refl, refl, order.less_irrefl tn.spec.chain_storage.size)
  apply_updates_policy order (new ∷ news) tn =
      let (net, sub, size) = apply_updates_policy order news (apply_update tn new) in
      let (net', sub', size') = apply_update_policy order tn new in
      (net ∙ net', sub ∙ sub', order.not_less_trans _ _ _ size size')
