-- ===== src/Examples/Observed.antt =====
-- A private two-node status, observed.
use locus_mesh.Base.{String, ◌≡◌, refl, Bool, true, false, some, [], ◌∷◌}
use locus_mesh.Fail.{Result, ok, err, http_exception}
use locus_mesh.Scope.{private_mesh}
use locus_mesh.Json.{Json, bool, str, arr, obj, nil, Fields}
use locus_mesh.Models.Fabric.{FabricObservation}
use locus_mesh.Policy.Digest.{items_of, fields_of}
use locus_mesh.Observer.Project.{MeshLlmStatusObserver}
use locus_mesh.Observer.Observe.{Loads, Response, observe}
use locus_mesh.Observer.Escapes.{Escapes}
use locus_mesh.Examples.Runs.{observing}
use locus_mesh.Examples.Data.{constant, at}

abbrev pub owner : Json
owner = obj (fields_of (("verified", bool true) ∷ []))

abbrev pub peer : Json
peer = obj (
    fields_of (
      ("id", str "peer-1")
      ∷ ("state", str "SERVING")
      ∷ ("serving_models", arr (items_of (str "model-a" ∷ [])))
      ∷ ("owner", owner)
      ∷ []))

abbrev pub status : Fields
status = fields_of (
    ("version", str "0.1.0")
    ∷ ("node_id", str "node-1")
    ∷ ("node_state", str "client")
    ∷ ("serving_models", arr nil)
    ∷ ("owner", owner)
    ∷ ("mesh_discovery_mode", str "mdns")
    ∷ ("discovery_scope", str "lan")
    ∷ ("discovery_source", str "mdns")
    ∷ ("nostr_discovery", bool false)
    ∷ ("publication_state", str "private")
    ∷ ("peers", arr (items_of (peer ∷ [])))
    ∷ [])

abbrev status_loads : Loads
status_loads hook raw = ok (obj status)

abbrev pub observer : MeshLlmStatusObserver
observer = record {
  source_endpoint = "http://127.0.0.1:3131";
  status_url = "http://127.0.0.1:3131/api/status";
  requested_max_scope = private_mesh;
  ttl_seconds = 5;
}

abbrev answer : String → Result Response
answer url = ok (record { status = some 200; read = λ size. ok (123 ∷ 125 ∷ []) })

abbrev within : Result FabricObservation → Bool
within (ok o) = o.within_requested_scope
within (err e) = false

observed_within : within (observe status_loads constant observer (at 500) answer) ≡ true
unfolding observing
observed_within = refl

-- A response whose body ends before its length is reached.
abbrev cut_short : String → Result Response
cut_short url =
    ok (record { status = some 200; read = λ size. err (http_exception "IncompleteRead") })
