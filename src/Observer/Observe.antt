-- ===== src/Observer/Observe.antt =====
-- `observe` and `_fetch` of the observer. The opener, and json.loads of UTF-8 bytes, are parameters.
use locus_mesh.Base.{ℕ, String, not, Option, none, some, List, [], ◌!=◌, nat_eq, length, ltb}
use locus_mesh.Fail.{
  Exn, Result, ok, err, value_error, type_error, key_error, os_error, http_error, validation_error,
  fabric_observation_error, ◌>>=◌, ◌>>◌, raise_if,
}
use locus_mesh.Runtime.{Runtime, DateTime, is_aware}
use locus_mesh.Json.{Json, obj, Fields}
use locus_mesh.Models.Fabric.{FabricObservation}
use locus_mesh.Observer.Payload.{reject_duplicate_keys}
use locus_mesh.Observer.Project.{MeshLlmStatusObserver, project}

-- What the opener returns: `read` is response.read, which may raise; a response of another opener
-- may have no status.
pub record Response : Type 0 where
  pub status : Option ℕ
  pub read : ℕ → Result (List ℕ)

-- getattr(response, "status", 200)
abbrev pub status_of : Option ℕ → ℕ
status_of none = 200
status_of (some status) = status

-- json.loads(raw.decode("utf-8"), object_pairs_hook=hook)
abbrev pub Loads : Type 0
Loads = (List (String × Json) → Result Fields) → List ℕ → Result Json

unavailable : Exn
unavailable = fabric_observation_error "Mesh-LLM status endpoint was unavailable"

-- except (HTTPError, URLError, OSError, TimeoutError), which are all OSErrors
unfoldable pub from_network {ℓ} : {A : Type ℓ} → Result A → Result A
unfolding unavailable
from_network (ok a) = ok a
from_network (err (os_error m)) = err unavailable
from_network (err (http_error m)) = err unavailable
from_network (err e) = err e

-- except (UnicodeDecodeError, JSONDecodeError, ValueError), which are all ValueErrors
unfoldable pub from_parser : Result Json → Result Json
from_parser (err (value_error m)) =
    err (fabric_observation_error "Mesh-LLM status response was not strict JSON")
from_parser (err (validation_error m)) =
    err (fabric_observation_error "Mesh-LLM status response was not strict JSON")
from_parser r = r

unfoldable pub as_payload : Json → Result Fields
as_payload (obj fields) = ok fields
as_payload _ = err (fabric_observation_error "Mesh-LLM status response must be a JSON object")

-- except (KeyError, TypeError, ValueError, ValidationError)
unfoldable pub from_projection {ℓ} : {A : Type ℓ} → Result A → Result A
from_projection (ok a) = ok a
from_projection (err (key_error m)) =
    err (
      fabric_observation_error
        "Mesh-LLM status does not match the supported observation projection")
from_projection (err (type_error m)) =
    err (
      fabric_observation_error
        "Mesh-LLM status does not match the supported observation projection")
from_projection (err (value_error m)) =
    err (
      fabric_observation_error
        "Mesh-LLM status does not match the supported observation projection")
from_projection (err (validation_error m)) =
    err (
      fabric_observation_error
        "Mesh-LLM status does not match the supported observation projection")
from_projection (err e) = err e

-- the body of the `with`
unfoldable pub read_response : Response → Result (List ℕ)
unfolding unavailable
read_response response = do
  raise_if (status_of response.status != 200) unavailable
  response.read 1048577

module _ (loads : Loads) where
  unfoldable pub fetch : String → (String → Result Response) → Result Fields
  unfolding read_response from_network from_parser as_payload
  fetch status_url opener = do
    raw ← from_network (opener status_url >>= read_response)
    raise_if (ltb 1048576 (length raw))
        (fabric_observation_error "Mesh-LLM status response exceeded 1 MiB")
    payload ← from_parser (loads (reject_duplicate_keys "duplicate JSON key: " []) raw)
    as_payload payload

  module _ (rt : Runtime) (observer : MeshLlmStatusObserver) (now : DateTime) where
    unfoldable pub observe : (String → Result Response) → Result FabricObservation
    unfolding fetch from_projection
    observe opener = do
      raise_if (not (is_aware now)) (value_error "timezone-aware observation time required")
      payload ← fetch observer.status_url opener
      from_projection (project rt observer now payload)

-- ports.py's FabricObserver, and the observer as one
pub record FabricObserver : Type 0 where
  pub observe : DateTime → Result FabricObservation

unfoldable pub mesh_llm_observer :
    Loads → Runtime → MeshLlmStatusObserver → (String → Result Response) → FabricObserver
unfolding observe
mesh_llm_observer loads rt observer opener = record {
  observe = λ now. observe loads rt observer now opener;
}
