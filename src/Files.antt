-- ===== src/Files.antt =====
-- io.py and adapters/fixture.py: bounded reading of a file, and loading of a contract from it.
pub mod Keys
pub mod Yaml
use locus_mesh.Base.{ℕ, String, List, [], ltb}
use locus_mesh.Fail.{Result, ok, err, value_error, ◌>>=◌, ◌>>◌, raise_if}
use locus_mesh.Json.{Json, Fields}
use locus_mesh.Models.Topology.{TopologySnapshot}
use locus_mesh.Observer.Payload.{reject_duplicate_keys}

-- What path.stat().st_size and path.read_text(encoding="utf-8") return or raise.
pub record InputFile : Type 0 where
  pub st_size : Result ℕ
  pub read_text : Result String

-- json.loads(text, object_pairs_hook=hook)
abbrev pub ParserWithHook : Type 0
ParserWithHook = (List (String × Json) → Result Fields) → String → Result Json

-- io.py's hook for the pairs of a JSON object
abbrev pub unique_object : List (String × Json) → Result Fields
unique_object = reject_duplicate_keys "duplicate key: " []

-- the hook of adapters/fixture.py
abbrev pub fixture_object : List (String × Json) → Result Fields
fixture_object = reject_duplicate_keys "duplicate JSON key: " []

unfoldable pub read_bounded : InputFile → Result String
read_bounded path = do
  size ← path.st_size
  raise_if (ltb 1048576 size) (value_error "input exceeds 1048576 bytes")
  path.read_text

module _ {A : Type 0} (model_validate : Json → Result A) where
  unfoldable pub load_json_model : ParserWithHook → InputFile → Result A
  unfolding read_bounded
  load_json_model loads path = do
    text ← read_bounded path
    parsed ← loads unique_object text
    model_validate parsed

  -- yaml.load(text, Loader=_UniqueKeySafeLoader)
  unfoldable pub load_yaml_model : (String → Result Json) → InputFile → Result A
  unfolding read_bounded
  load_yaml_model load path = do text ← read_bounded path; parsed ← load text; model_validate parsed

-- FixtureTopologyProvider.snapshot
unfoldable pub snapshot :
    (Json → Result TopologySnapshot) → ParserWithHook → InputFile → Result TopologySnapshot
snapshot model_validate loads path = do
  size ← path.st_size
  raise_if (ltb 1048576 size) (value_error "topology fixture exceeds 1 MiB")
  text ← path.read_text
  parsed ← loads fixture_object text
  model_validate parsed

-- ports.py's TopologyProvider, and FixtureTopologyProvider(path) as one
pub record TopologyProvider : Type 0 where
  pub snapshot : Result TopologySnapshot

unfoldable pub fixture_provider :
    (Json → Result TopologySnapshot) → ParserWithHook → InputFile → TopologyProvider
unfolding snapshot
fixture_provider model_validate loads path = record {
  snapshot = snapshot model_validate loads path;
}
