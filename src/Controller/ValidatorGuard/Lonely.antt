-- ===== src/Controller/ValidatorGuard/Lonely.antt =====
-- The Lease of the guard is named after the node itself, so no other node is ever found to hold it.
use tao_node_guardian.Base.{
  ℕ, ◌≡◌, inl, inr, refl, sym, ap, ◌∙◌, subst, String, arith, Option, none, some, Bool, true, false,
  ◌&&◌, str_eq, eq_iff, Bool-cases, Option-cases,
}
use tao_node_guardian.Base.{join}
use tao_node_guardian.Base.Errors.{ok, is_not_found}
use tao_node_guardian.Controller.State.{KubeClient, Run}
use tao_node_guardian.Controller.Recovery.{node_key}
use tao_node_guardian.Controller.ValidatorGuard.{
  Lease, LeaseClient, singleton_suffix, lease_name, is_exempt, new_lease, current_holder,
  text_or_empty, wrapped, create_own, with_lease, ensure_validator_singleton,
}
use text.Mathlib.TextLemmas.{append_cancel_right}
use tao_node_guardian.Controller.ValidatorGuard.Holder.{put, LeaseStore}

and_left : (a b : Bool) → (a && b) ≡ true → a ≡ true
and_left a b h = ground arith

and_right : (a b : Bool) → (a && b) ≡ true → b ≡ true
and_right a b h = ground arith

some_eq : (l l' : Lease) → some l ≡ some l' → l ≡ l'
some_eq l l' e = cc

put_hit :
    (view : String → String → Option Lease) (l : Lease) (ns n : String)
    → (str_eq l.namespace_ ns && str_eq l.name n) ≡ true
    → put view l ns n ≡ some l
put_hit view l ns n h = rw h

put_miss :
    (view : String → String → Option Lease) (l : Lease) (ns n : String)
    → (str_eq l.namespace_ ns && str_eq l.name n) ≡ false
    → put view l ns n ≡ view ns n
put_miss view l ns n h = rw h

module _ {W : Type 0} (leases : LeaseClient W) (store : LeaseStore leases) where
  -- Every singleton Lease is held by the node that it is named after, as the guard creates them.
  abbrev pub OwnHolders : W → Type 0
  OwnHolders w =
      (ns name : String) (l : Lease)
      → store.view w ns (join name singleton_suffix) ≡ some l
      → l.holder_identity ≡ some (join (join ns "/") name)

  put-OwnHolders :
      (w w' : W) (name : String) (l : Lease)
      → OwnHolders w
      → l.name ≡ join name singleton_suffix
      → l.holder_identity ≡ some (join (join l.namespace_ "/") name)
      → ((ns n : String) → store.view w' ns n ≡ put (store.view w) l ns n)
      → OwnHolders w'
  put-OwnHolders w w' name l own named held written ns name' l' e =
      elim (Bool-cases (str_eq l.namespace_ ns && str_eq l.name (join name' singleton_suffix))) [
        | inl here ↦
            let same_ns : l.namespace_ ≡ ns = (eq_iff l.namespace_ ns).0 (and_left _ _ here) in
            let same_name : l.name ≡ join name' singleton_suffix =
              (eq_iff l.name (join name' singleton_suffix)).0 (and_right _ _ here) in
            let name_eq : name ≡ name' =
              append_cancel_right name name' singleton_suffix (sym named ∙ same_name) in
            let l_eq : l ≡ l' = some_eq l l' (
              sym (
                written ns (join name' singleton_suffix)
                ∙ put_hit (store.view w) l ns (join name' singleton_suffix) here)
              ∙ e) in
            sym (ap (λ x. x.holder_identity) l_eq)
            ∙ held
            ∙ ap (λ x. some (join (join x "/") name)) same_ns
            ∙ ap (λ x. some (join (join ns "/") x)) name_eq
        | inr there ↦ own ns name' l' (
            sym (
              written ns (join name' singleton_suffix)
              ∙ put_miss (store.view w) l ns (join name' singleton_suffix) there)
            ∙ e)
      ]

  -- What the guard does to a node, whichever client it has for the pods.
  abbrev pub Unhindered : {Q : Type 0} → KubeClient W → ℕ → Run Q W → Type 0
  Unhindered kube now s =
      ((ensure_validator_singleton leases kube now s).0 ≡ ok tt)
      × OwnHolders (ensure_validator_singleton leases kube now s).1.world
      × ((kube' : KubeClient W)
          → ensure_validator_singleton leases kube' now s
            ≡ ensure_validator_singleton leases kube now s)

  own_Lease :
      {Q : Type 0} (kube : KubeClient W) (now : ℕ) (l : Lease) (s : Run Q W)
      → OwnHolders s.world
      → store.view s.world s.node.namespace_ (lease_name s.node) ≡ some l
      → let t = with_lease leases kube now l s in
        (t.0 ≡ ok tt)
        × OwnHolders t.1.world
        × ((kube' : KubeClient W) → with_lease leases kube' now l s ≡ t)
  unfolding with_lease
  own_Lease kube now l s own e =
      let held = own s.node.namespace_ s.node.name l e in
      let (same_ns, same_name) = store.keyed s.world s.node.namespace_ (lease_name s.node) l e in
      let mine : str_eq (current_holder l) (node_key s.node) ≡ true =
        (eq_iff (current_holder l) (node_key s.node)).1 (ap text_or_empty held) in
      let there : store.view s.world l.namespace_ l.name ≡ some l =
        subst (λ n. store.view s.world l.namespace_ n ≡ some l) (sym same_name)
          (subst (λ ns. store.view s.world ns (lease_name s.node) ≡ some l) (sym same_ns) e) in
      let (fine, written) = store.updated s.world (record l { renew_time = some now }) l there in
      let own_after : OwnHolders
          (leases.update_lease (record l { renew_time = some now }) s.world).1 =
        put-OwnHolders s.world _ s.node.name (record l { renew_time = some now }) own same_name
          (held ∙ ap (λ ns. some (join (join ns "/") s.node.name)) (sym same_ns)) written in
      rw mine (ap (wrapped "renew validator Lease: %w") fine, own_after, λ kube'. refl)

  -- The Lease that the guard creates.
  own_creation :
      {Q : Type 0} (kube : KubeClient W) (now : ℕ) (s : Run Q W)
      → OwnHolders s.world
      → store.view s.world s.node.namespace_ (lease_name s.node) ≡ none
      → let t = create_own leases kube now (ok tt) s in (t.0 ≡ ok tt) × OwnHolders t.1.world
  unfolding create_own new_lease
  own_creation kube now s own e =
      let (fine, written) = store.created s.world (new_lease now s.node) e in
      (
        ap (wrapped "create validator Lease: %w") fine,
        put-OwnHolders s.world _ s.node.name (new_lease now s.node) own refl refl written,
      )

  -- On a cluster where Lease calls succeed and every singleton Lease is held by the node that it is
  -- named after, which a cluster without such Leases satisfies, the guard lets every node through and
  -- keeps that so, and never uses the client for pods: no validator is ever cordoned, whichever other
  -- validators run on the subnet.
  pub ensure_validator_singleton-Unhindered :
      {Q : Type 0} (kube : KubeClient W) (now : ℕ) (s : Run Q W)
      → OwnHolders s.world
      → Unhindered kube now s
  unfolding ensure_validator_singleton is_not_found
  ensure_validator_singleton-Unhindered kube now s own = elim (Bool-cases (is_exempt s.node)) [
    | inl free ↦ rw free (refl, own, λ kube'. refl)
    | inr bound ↦ elim (Option-cases (store.view s.world s.node.namespace_ (lease_name s.node))) [
      | inl none_there ↦
          let made = own_creation kube now s own none_there in
          rw
            (
              bound,
              store.missing s.world s.node.namespace_ (lease_name s.node) none_there,
              store.referenced (node_key s.node) (new_lease now s.node),
            )
            (made.0, made.1, λ kube'. refl)
      | inr (l, there) ↦
          let (fine, own_after, same) = own_Lease kube now l s own there in
          rw (bound, store.found s.world s.node.namespace_ (lease_name s.node) l there)
            (fine, own_after, same)
    ]
  ]
