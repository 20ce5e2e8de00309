-- ===== src/Examples/Endpoints.antt =====
-- A loopback URL, a status with fields that nobody reads, and the export of the schemas.
use locus_mesh.Base.{
  String, ◌≡◌, ◌≢◌, refl, subst, ◌↔◌, true, false, Option, none, some, [], ◌∷◌, map, In,
  not-contains_iff, ◌==◌, string_eq, if◌then◌else◌,
}
use locus_mesh.Fail.{ok}
use locus_mesh.Scope.{private_mesh}
use locus_mesh.Json.{bool, str, obj, Fields, end, field}
use locus_mesh.Observer.Timeout.{pos, finite, nan, tenth, thirty, timely}
use locus_mesh.Observer.Url.{ParseResult, UrlLibrary, new_observer}
use locus_mesh.Observer.Endpoint.{IsConstructed, new_observer_iff}
use locus_mesh.Schemas.{Contract, schemas, WriteFault, read_file, export_schemas}
use locus_mesh.Schemas.Paths.{file_of, path_of, file_of-In}
use locus_mesh.Schemas.Written.{IsEnd, export_schemas_lem}
use locus_mesh.Examples.Runs.{contracts, urls}
use locus_mesh.Examples.Observed.{status, observer}

abbrev parsed_url : ParseResult
parsed_url = record {
  scheme = "http";
  netloc = "127.0.0.1:3131";
  path = "/";
  query = "";
  fragment = "";
  username = none;
  password = none;
  hostname = some "127.0.0.1";
  port = ok (some 3131);
}

abbrev lib : UrlLibrary
lib = record {
  strip = λ s. s;
  lower = λ s. s;
  urlparse = λ s. ok parsed_url;
  ip_address = λ s. ok true;
}

constructed :
    new_observer lib "http://127.0.0.1:3131/" private_mesh (finite (pos 2) 0) (pos 5) ≡ ok observer
unfolding urls
constructed = refl

new_observer_iff_example :
    (new_observer lib "http://127.0.0.1:3131/" private_mesh (finite (pos 2) 0) (pos 5)
      ≡ ok observer)
    ↔ IsConstructed lib "http://127.0.0.1:3131/" private_mesh (finite (pos 2) 0) (pos 5) observer
new_observer_iff_example =
    new_observer_iff lib "http://127.0.0.1:3131/" private_mesh (finite (pos 2) 0) (pos 5) observer

-- The status with one more field, and with more of the owner than is read.
abbrev claimed : Fields
claimed = field "admitted" (bool true) (
    field "owner" (obj (field "email" (str "owner@example.org") (field "verified" (bool true) end)))
      status)

abbrev schema_text : Contract → String
schema_text contract = "{}"

-- The file of the policy cannot be written, once it is open.
abbrev full_disk : String → Option WriteFault
full_disk file =
    if file == "admission-policy.schema.json"
    then some (record { message = "no space left on device"; left = some "" })
    else none

-- A name that is no schema's.
readme_other : (c : Contract) → file_of c ≢ "README.md"
unfolding contracts
readme_other c same =
    (not-contains_iff (map path_of schemas) "README.md").0 refl
      (subst (λ file. In file (map path_of schemas)) same (file_of-In c))

export_schemas_lem_example :
    IsEnd schema_text full_disk none
      (("README.md", "") ∷ [])
      (export_schemas schema_text full_disk none (("README.md", "") ∷ [])).0
      (export_schemas schema_text full_disk none (("README.md", "") ∷ [])).1
    × (read_file "README.md" (export_schemas schema_text full_disk none (("README.md", "") ∷ [])).1
        ≡ read_file "README.md" (("README.md", "") ∷ []))
export_schemas_lem_example =
    export_schemas_lem schema_text full_disk none (("README.md", "") ∷ []) "README.md" readme_other

-- The bounds of the timeout, a float just below the first, and a half more than the second.
timeouts :
    (map timely (tenth ∷ thirty ∷ finite (pos 3602879701896396) 55 ∷ finite (pos 61) 1 ∷ nan ∷ []))
    ≡ (true ∷ true ∷ false ∷ false ∷ false ∷ [])
unfolding urls
timeouts = refl
