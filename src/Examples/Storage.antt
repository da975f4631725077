-- ===== src/Examples/Storage.antt =====
-- Growing a volume of 100 units by 20 percent, up to 400.
use tao_node_guardian.Base.{ℕ, refl, none, arith}
use tao_node_guardian.Base.Errors.{ok}
use tao_node_guardian.Api.Status.{synced}
use tao_node_guardian.Controller.Storage.{Pvc, PvcClient}
use tao_node_guardian.Controller.Storage.Bounds.{GrowsWithin, resize-GrowsWithin}
use tao_node_guardian.Examples.Nodes.{quantities, auto_expand, run_in}

abbrev claim : Pvc ℕ
claim = record { name = "chain-data-alpha-0"; namespace_ = "tao"; storage_request = 100 }

-- The cluster is the size of the claim.
abbrev claims : PvcClient ℕ ℕ
claims = record {
  get_pvc = λ ns name w. ok (record claim { storage_request = w });
  update_pvc = λ pvc w. (ok tt, pvc.storage_request);
}

resize-GrowsWithin_example :
    GrowsWithin quantities claims 100000 20 400000 auto_expand claim (run_in synced none)
resize-GrowsWithin_example =
    resize-GrowsWithin quantities claims auto_expand claim (run_in synced none) 100000 20 400000
      refl refl refl (omega arith) (omega arith) (omega arith) (omega arith)
