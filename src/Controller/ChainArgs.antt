-- ===== src/Controller/ChainArgs.antt =====
-- The command line of the node, internal/controller/statefulset_builder.go: `ResolveChainSpec`,
-- `SubstrateArgs` and `hashArgs`.
use tao_node_guardian.Base.{
  ℕ, String, List, [], ◌∷◌, ◌++◌, Option, none, some, Bool, true, false, take, map, str_eq,
  if◌then◌else◌,
}
use tao_node_guardian.Base.Int.{ℤ}
use tao_node_guardian.Base.Dict.{Dict, lookup}
use tao_node_guardian.Base.Format.{str, int, bytes, Formatted, sprintf, text}

unfoldable pub subtensor_chain_spec : Dict String
subtensor_chain_spec =
    ("mainnet", "finney")
    ∷ ("finney", "finney")
    ∷ ("testnet", "test_finney")
    ∷ ("test_finney", "test_finney")
    ∷ ("test-finney", "test_finney")
    ∷ ("local", "local")
    ∷ ("dev", "dev")
    ∷ ("devnet", "dev")
    ∷ []

abbrev spec_or_file : Option String → String × Bool
spec_or_file (some built_in) = (built_in, false)
spec_or_file none = ("/data/chain-spec/raw_spec.json", true)

-- What the builder uses of Go's `strings`, `sort` and `crypto/sha256`, and of `fmt`: `render` is
-- the text that `Sprintf` gives, and `utf8` the bytes of a text.
pub record TextOps : Type 0 where
  pub to_lower : String → String
  pub trim_space : String → String
  pub sort_strings : List String → List String
  pub join_with_nul : List String → String
  pub utf8 : String → List ℕ
  pub sha256 : List ℕ → List ℕ
  pub render : Formatted → String

pub record SubstrateArgs : Type 0 where
  pub chain_spec : String
  pub role : String
  pub rpc_port : ℤ
  pub p2p_port : ℤ
  pub prometheus_port : ℤ
  pub node_name : String
  pub keystore_path : String
  pub extra_args : List Formatted

-- An argument that is left out when its value is the empty text.
abbrev pub when_set : String → String → List Formatted
when_set format value = if str_eq value "" then [] else sprintf format (str value ∷ []) ∷ []

module _ (ops : TextOps) where
  unfoldable pub resolve_chain_spec : String → String × Bool
  resolve_chain_spec network =
      let normalized = ops.to_lower (ops.trim_space network) in
      spec_or_file (lookup normalized subtensor_chain_spec)

  abbrev pub role_args : String → List Formatted
  role_args role =
      let lower = ops.to_lower role in
      if str_eq lower "validator"
      then text "--validator" ∷ []
      else if str_eq lower "archive"
      then text "--pruning=archive" ∷ text "--sync=full" ∷ []
      else []

  unfoldable pub build : SubstrateArgs → List Formatted
  build s =
      (sprintf "--chain=%s" (str s.chain_spec ∷ [])
        ∷ text "--base-path=/data"
        ∷ sprintf "--rpc-port=%d" (int s.rpc_port ∷ [])
        ∷ text "--rpc-external"
        ∷ text "--rpc-methods=Safe"
        ∷ sprintf "--port=%d" (int s.p2p_port ∷ [])
        ∷ sprintf "--prometheus-port=%d" (int s.prometheus_port ∷ [])
        ∷ text "--prometheus-external"
        ∷ [])
      ++ when_set "--keystore-path=%s" s.keystore_path
      ++ role_args s.role
      ++ when_set "--name=%s" s.node_name
      ++ s.extra_args

  unfoldable pub hash_args : List Formatted → Formatted
  hash_args args =
      let sorted = ops.sort_strings (map ops.render args) in
      sprintf "%x" (bytes (take 8 (ops.sha256 (ops.utf8 (ops.join_with_nul sorted)))) ∷ [])
