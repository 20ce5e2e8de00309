-- ===== src/Schemas.antt =====
-- schema_export.py: the files that `export_schemas` writes. The schema of a contract is what
-- pydantic generates, the text of a schema what json.dumps makes of it, and the file system
-- decides what cannot be made or written: all three are parameters.
pub mod Paths
pub mod Written
use locus_mesh.Base.{String, ◌⧺◌, Option, none, some, List, [], ◌∷◌, ◌==◌, string_eq, if◌then◌else◌}
use locus_mesh.Fail.{Result, ok, err, os_error, ◌>>=◌}

-- The types that _SCHEMAS names.
pub data Contract : Type 0 where
  execution_intent evidence_level fabric_candidate_observation fabric_observation : Contract
  peer_manifest topology_edge topology_snapshot route_plan hop_receipt : Contract
  route_attestation admission_policy admission_decision : Contract

-- _SCHEMAS, in its order
abbrev pub schemas : List (String × Contract)
schemas =
    ("execution-intent", execution_intent)
    ∷ ("evidence-level", evidence_level)
    ∷ ("fabric-candidate-observation", fabric_candidate_observation)
    ∷ ("fabric-observation", fabric_observation)
    ∷ ("peer-manifest", peer_manifest)
    ∷ ("topology-edge", topology_edge)
    ∷ ("topology-snapshot", topology_snapshot)
    ∷ ("route-plan", route_plan)
    ∷ ("hop-receipt", hop_receipt)
    ∷ ("route-attestation", route_attestation)
    ∷ ("admission-policy", admission_policy)
    ∷ ("admission-decision", admission_decision)
    ∷ []

-- A directory: the texts of its files by their names, the last one written first.
abbrev pub Directory : Type 0
Directory = List (String × String)

unfoldable pub read_file : String → Directory → Option String
read_file name [] = none
read_file name ((n, text) ∷ files) = if n == name then some text else read_file name files

-- An OSError of write_text, and the part of the text that it leaves in the file, if it opened it.
pub record WriteFault : Type 0 where
  pub message : String
  pub left : Option String

left_by : Option String → String → Directory → Directory
left_by none path dir = dir
left_by (some part) path dir = (path, part) ∷ dir

-- path.write_text(text)
unfoldable pub write_text :
    Option WriteFault → String → String → Directory → Result (Unit {0}) × Directory
unfolding left_by
write_text none path text dir = (ok tt, (path, text) ∷ dir)
write_text (some fault) path text dir = (err (os_error fault.message), left_by fault.left path dir)

-- path.name
abbrev pub schema_file : String → String
schema_file name = name ⧺ ".schema.json"

-- written.append(path), and the rest of the loop, unless the write has raised
unfoldable pub appended :
    String
    → Result (Unit {0}) × Directory
    → Result (List String) × Directory
    → Result (List String) × Directory
appended path (err e, dir) rest = (err e, dir)
appended path (ok done, dir) (written, last) = (written >>= λ paths. ok (path ∷ paths), last)

module _ (schema_text : Contract → String) (faults : String → Option WriteFault) where
  -- the loop over _SCHEMAS: the paths that it returns, and the directory after it
  unfoldable pub write_schemas :
      List (String × Contract) → Directory → Result (List String) × Directory
  unfolding write_text appended
  write_schemas [] dir = (ok [], dir)
  write_schemas ((name, contract) ∷ rest) dir =
      let path = schema_file name in
      let step = write_text (faults path) path (schema_text contract ⧺ "\n") dir in
      appended path step (write_schemas rest step.1)

  -- `mkdir` is the OSError of output_dir.mkdir, if it raises one.
  unfoldable pub export_schemas : Option String → Directory → Result (List String) × Directory
  unfolding write_schemas
  export_schemas none output_dir = write_schemas schemas output_dir
  export_schemas (some mkdir) output_dir = (err (os_error mkdir), output_dir)
