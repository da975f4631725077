-- ===== src/DisasterRecovery/RoundTrip.antt =====
-- From the operator's backup, internal/controller/dr_runner.go, to the restore command of
-- tools/tao-dr/internal/restore/restore.go.
use tao_node_guardian.Base.{
  ℕ, String, List, [], ◌∷◌, true, ◌≡◌, refl, ap, inl, inr, map, not, ◌&&◌, str_eq, Bool-cases,
  if◌then◌else◌,
}
use tao_node_guardian.Base.Errors.{Result, ok, ◌>>=◌, context, >>=-eq-ok, context-eq-ok}
use tao_node_guardian.Api.Status.{TaoNode}
use tao_node_guardian.DisasterRecovery.Backup.{
  DrBackup, Encoder, stripped_node, stripped_nodes, backup_of, backup_payload,
}
use tao_node_guardian.DisasterRecovery.Restore.{
  Object, ObjectStore, Decoder, RestoreOptions, with_type_meta, with_namespace, parse_objects,
  checked_archive, read_archive, prepare,
}

-- What the encoder of the one program and the decoder of the other promise. `raw` is the JSON of a
-- TaoNode, and `content` what its object has beside the fields that are read.
pub record Codec {Q R B X : Type 0} (encoder : Encoder Q B) (store : ObjectStore B)
    (decoder : Decoder R B X) : Type 0 where
  pub raw : TaoNode Q → R
  pub content : TaoNode Q → X
  pub packed :
      (b : DrBackup Q) (data_ payload : B)
      → encoder.marshal b ≡ ok data_
      → encoder.gzip_close data_ ≡ ok payload
      → (store.gunzip payload >>= store.read_all) ≡ ok data_
  pub archive :
      (b : DrBackup Q) (data_ : B)
      → encoder.marshal b ≡ ok data_
      → decoder.unmarshal_archive data_
        ≡ ok (record {
          timestamp = b.timestamp;
          cluster_id = b.cluster_id;
          schema_version = b.schema_version;
          crds = [];
          nodes = map raw b.nodes;
        })
  -- The typed client leaves the type out.
  pub object :
      (tn : TaoNode Q)
      → decoder.unmarshal_object (raw tn)
        ≡ ok (record {
          api_version = "";
          kind = "";
          name = tn.name;
          namespace_ = tn.namespace_;
          content = content tn;
        })

module _ {Q R B X : Type 0} (encoder : Encoder Q B) (store : ObjectStore B)
    (decoder : Decoder R B X) (codec : Codec encoder store decoder) where
  -- The object that is applied for a TaoNode of the backup.
  abbrev pub restored : String → TaoNode Q → Object X
  restored ns_override tn = record {
    api_version = "tao.guardian.io/v1alpha1";
    kind = "TaoNode";
    name = tn.name;
    namespace_ =
        if not (str_eq ns_override "") && not (str_eq tn.namespace_ "")
        then ns_override
        else tn.namespace_;
    content = codec.content (stripped_node tn);
  }

  parse_stripped :
      (ns_override : String) (nodes : List (TaoNode Q))
      → parse_objects decoder ns_override true (map codec.raw (stripped_nodes nodes))
        ≡ ok (map (restored ns_override) nodes)
  unfolding parse_objects stripped_nodes stripped_node with_type_meta with_namespace
  parse_stripped ns_override [] = refl
  parse_stripped ns_override (tn ∷ rest) =
      elim (Bool-cases (not (str_eq ns_override "") && not (str_eq tn.namespace_ ""))) [
        | inl moved ↦
            rw (codec.object (stripped_node tn), parse_stripped ns_override rest, moved) refl
        | inr kept ↦
            rw (codec.object (stripped_node tn), parse_stripped ns_override rest, kept) refl
      ]

  -- What a payload is made of.
  payload_parts :
      (cluster_id : String) (now : ℕ) (nodes : List (TaoNode Q)) (payload : B)
      → backup_payload encoder cluster_id now nodes ≡ ok payload
      → (data_ : B) × (encoder.marshal (backup_of encoder cluster_id now nodes) ≡ ok data_)
        × (encoder.gzip_close data_ ≡ ok payload)
  unfolding backup_payload
  payload_parts cluster_id now nodes payload h =
      let m =
        context "marshal DR backup: %w"
          (encoder.marshal (backup_of encoder cluster_id now nodes)) in
      let (data_, marshalled, rest) = >>=-eq-ok m _ payload h in
      let written =
        >>=-eq-ok (context "gzip write: %w" (encoder.gzip_write data_)) _ payload rest in
      (
        data_,
        context-eq-ok "marshal DR backup: %w" _ data_ marshalled,
        context-eq-ok "gzip close: %w" _ payload written.2,
      )

  -- If what one side encodes the other decodes, then the restore command, given the key under which the
  -- store has the operator's backup of at least one TaoNode, prepares no CRD and exactly these TaoNodes
  -- in their order: each with its name, with its type filled in, in its own namespace or in the one
  -- that the command line puts in its place, and with its content without the fields of the server.
  pub backup_restores :
      (cluster_id : String) (now : ℕ) (tn : TaoNode Q) (rest : List (TaoNode Q)) (payload : B)
      (options : RestoreOptions)
      → backup_payload encoder cluster_id now (tn ∷ rest) ≡ ok payload
      → store.load_config ≡ ok tt
      → store.get_object options.backup_key ≡ ok payload
      → store.has_suffix options.backup_key ".gz" ≡ true
      → prepare store decoder options ≡ ok ([], map (restored options.ns_override) (tn ∷ rest))
  unfolding prepare read_archive checked_archive backup_of stripped_nodes parse_objects
  backup_restores cluster_id now tn rest payload options h configured held suffix =
      let backup = backup_of encoder cluster_id now (tn ∷ rest) in
      let (data_, marshalled, closed) = payload_parts cluster_id now (tn ∷ rest) payload h in
      let (reader, unzipped, all_read) =
        >>=-eq-ok (store.gunzip payload) store.read_all data_
          (codec.packed backup data_ payload marshalled closed) in
      let decoded = codec.archive backup data_ marshalled in
      let parsed = parse_stripped options.ns_override (tn ∷ rest) in
      let finish : Result (List (Object X)) → Result (List (Object X) × List (Object X)) =
        λ r. context "parsing TaoNode resources: %w" r >>= λ nodes. ok ([], nodes) in
      rw (configured, held, suffix, unzipped, all_read, decoded) (ap finish parsed)
