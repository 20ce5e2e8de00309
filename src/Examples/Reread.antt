-- ===== src/Examples/Reread.antt =====
-- The two-hop attestation, from its own JSON form.
use locus_mesh.Base.{◌≡◌, refl, [], ◌∷◌, nat_eq, string_eq}
use locus_mesh.Fail.{ok, err, validation_error}
use locus_mesh.Json.{str, obj, field, end}
use locus_mesh.Models.Validate.Route.{validate_attestation, validate_plan}
use locus_mesh.Models.Reread.{validate_attestation-attestation_json}
use locus_mesh.Policy.Digest.{attestation_json}
use locus_mesh.Examples.Stamps.{stamped, coercions}
use locus_mesh.Examples.Runs.{contracts}
use locus_mesh.Examples.Data.{attestation}

-- A plan with a field of another name, and without the others.
extra_refused :
    validate_plan coercions (obj (field "note" (str "x") end))
    ≡ err (
        validation_error (
          "request_id" ∷ "nonce" ∷ "request_commitment" ∷ "intent" ∷ "model_digest"
          ∷ "runtime_digest" ∷ "hop_peer_ids" ∷ "created_at" ∷ "expires_at" ∷ "note" ∷ []))
unfolding contracts validate_plan
extra_refused = refl

validate_attestation-attestation_json_example :
    validate_attestation coercions (attestation_json stamped attestation) ≡ ok attestation
unfolding contracts
validate_attestation-attestation_json_example =
    validate_attestation-attestation_json stamped coercions attestation refl refl refl
      (refl, (refl, tt))
