-- ===== src/Controller/ValidatorGuard/Holder.antt =====
-- A cluster in which the Lease calls of internal/controller/validator_guard.go succeed.
use tao_node_guardian.Base.{◌≡◌, String, Option, none, some, ◌&&◌, if◌then◌else◌, str_eq}
use tao_node_guardian.Base.Errors.{api, not_found, ok, err}
use tao_node_guardian.Controller.ValidatorGuard.{Lease, LeaseClient}

abbrev pub put : (String → String → Option Lease) → Lease → String → String → Option Lease
put view l ns n = if str_eq l.namespace_ ns && str_eq l.name n then some l else view ns n

-- The Leases of a cluster by namespace and name. A get finds what is there, and creating a new Lease
-- or updating one that is there stores it, and touches no other.
pub record LeaseStore {W : Type 0} (leases : LeaseClient W) : Type 0 where
  pub view : W → String → String → Option Lease
  pub keyed :
      (w : W) (ns n : String) (l : Lease)
      → view w ns n ≡ some l
      → (l.namespace_ ≡ ns) × (l.name ≡ n)
  pub found :
      (w : W) (ns n : String) (l : Lease) → view w ns n ≡ some l → leases.get_lease ns n w ≡ ok l
  pub missing :
      (w : W) (ns n : String) → view w ns n ≡ none → leases.get_lease ns n w ≡ err (api not_found)
  pub created :
      (w : W) (l : Lease)
      → view w l.namespace_ l.name ≡ none
      → ((leases.create_lease l w).0 ≡ ok tt)
        × ((ns n : String) → view (leases.create_lease l w).1 ns n ≡ put (view w) l ns n)
  pub updated :
      (w : W) (l old : Lease)
      → view w l.namespace_ l.name ≡ some old
      → ((leases.update_lease l w).0 ≡ ok tt)
        × ((ns n : String) → view (leases.update_lease l w).1 ns n ≡ put (view w) l ns n)
  pub referenced : (owner : String) (l : Lease) → leases.set_controller_reference owner l ≡ ok tt
