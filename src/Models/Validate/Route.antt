-- ===== src/Models/Validate/Route.antt =====
-- models.py: `model_validate` of RoutePlan, HopReceipt and RouteAttestation.
use locus_mesh.Base.{ℕ, String, Option, List, [], ◌∷◌}
use locus_mesh.Fail.{Result}
use locus_mesh.Scope.{ExecutionIntent, EvidenceLevel}
use locus_mesh.Runtime.{DateTime}
use locus_mesh.Json.{Json, Fields}
use locus_mesh.Models.Route.{
  RoutePlan, HopReceipt, RouteAttestation, plan_errors, receipt_errors, attestation_errors,
}
use locus_mesh.Models.Validate.{
  good, ◌⊛◌, value_of, required, defaulted, extras, text, intent_value_of, evidence_value_of,
  nullable, sequence, modelled, of_result, of_object, Coercions, integer,
}

abbrev make_plan :
    String
    → String
    → String
    → String
    → ExecutionIntent
    → String
    → String
    → List String
    → DateTime
    → DateTime
    → RoutePlan
make_plan version request nonce commitment intent model runtime hops created expires = record {
  schema_version = version;
  request_id = request;
  nonce = nonce;
  request_commitment = commitment;
  intent = intent;
  model_digest = model;
  runtime_digest = runtime;
  hop_peer_ids = hops;
  created_at = created;
  expires_at = expires;
}

abbrev pub plan_names : List String
plan_names =
    "schema_version" ∷ "request_id" ∷ "nonce" ∷ "request_commitment" ∷ "intent" ∷ "model_digest"
    ∷ "runtime_digest" ∷ "hop_peer_ids" ∷ "created_at" ∷ "expires_at" ∷ []

module _ (c : Coercions) where
  unfoldable pub plan_fields : Fields → Result RoutePlan
  unfolding modelled value_of extras
  plan_fields fs =
      let need = λ (key : String). required text key (value_of key fs) in
      modelled plan_errors (extras plan_names fs) (
        good make_plan
        ⊛ defaulted "locusmesh.route-plan.v1" text "schema_version" (value_of "schema_version" fs)
        ⊛ need "request_id"
        ⊛ need "nonce"
        ⊛ need "request_commitment"
        ⊛ required intent_value_of "intent" (value_of "intent" fs)
        ⊛ need "model_digest"
        ⊛ need "runtime_digest"
        ⊛ required (sequence text) "hop_peer_ids" (value_of "hop_peer_ids" fs)
        ⊛ required c.moment "created_at" (value_of "created_at" fs)
        ⊛ required c.moment "expires_at" (value_of "expires_at" fs))

  -- RoutePlan.model_validate
  unfoldable pub validate_plan : Json → Result RoutePlan
  unfolding plan_fields
  validate_plan = of_object plan_fields

abbrev make_receipt :
    String
    → String
    → String
    → String
    → String
    → String
    → String
    → ExecutionIntent
    → ℕ
    → ℕ
    → String
    → Option String
    → Option String
    → Option String
    → String
    → String
    → EvidenceLevel
    → DateTime
    → String
    → String
    → String
    → HopReceipt
make_receipt version request nonce commitment plan policy topology intent index count peer previous
      next digest model runtime level time key algorithm signature =
    record {
      schema_version = version;
      request_id = request;
      nonce = nonce;
      request_commitment = commitment;
      route_plan_digest = plan;
      policy_digest = policy;
      topology_digest = topology;
      intent = intent;
      hop_index = index;
      hop_count = count;
      peer_id = peer;
      previous_peer_id = previous;
      next_peer_id = next;
      previous_receipt_digest = digest;
      model_digest = model;
      runtime_digest = runtime;
      evidence_level = level;
      observed_at = time;
      key_id = key;
      signature_algorithm = algorithm;
      signature = signature;
    }

abbrev pub receipt_names : List String
receipt_names =
    "schema_version" ∷ "request_id" ∷ "nonce" ∷ "request_commitment" ∷ "route_plan_digest"
    ∷ "policy_digest" ∷ "topology_digest" ∷ "intent" ∷ "hop_index" ∷ "hop_count" ∷ "peer_id"
    ∷ "previous_peer_id" ∷ "next_peer_id" ∷ "previous_receipt_digest" ∷ "model_digest"
    ∷ "runtime_digest" ∷ "evidence_level" ∷ "observed_at" ∷ "key_id" ∷ "signature_algorithm"
    ∷ "signature" ∷ []

abbrev make_attestation : String → RoutePlan → List HopReceipt → RouteAttestation
make_attestation version plan receipts = record {
  schema_version = version;
  plan = plan;
  receipts = receipts;
}

module _ (c : Coercions) where
  unfoldable pub receipt_fields : Fields → Result HopReceipt
  unfolding modelled value_of extras
  receipt_fields fs =
      let need = λ (key : String). required text key (value_of key fs) in
      let maybe = λ (key : String). required (nullable text) key (value_of key fs) in
      let count = λ (key : String). required (integer c) key (value_of key fs) in
      modelled receipt_errors (extras receipt_names fs) (
        good make_receipt
        ⊛ defaulted "locusmesh.hop-receipt.v1" text "schema_version" (value_of "schema_version" fs)
        ⊛ need "request_id"
        ⊛ need "nonce"
        ⊛ need "request_commitment"
        ⊛ need "route_plan_digest"
        ⊛ need "policy_digest"
        ⊛ need "topology_digest"
        ⊛ required intent_value_of "intent" (value_of "intent" fs)
        ⊛ count "hop_index"
        ⊛ count "hop_count"
        ⊛ need "peer_id"
        ⊛ maybe "previous_peer_id"
        ⊛ maybe "next_peer_id"
        ⊛ maybe "previous_receipt_digest"
        ⊛ need "model_digest"
        ⊛ need "runtime_digest"
        ⊛ required evidence_value_of "evidence_level" (value_of "evidence_level" fs)
        ⊛ required c.moment "observed_at" (value_of "observed_at" fs)
        ⊛ need "key_id"
        ⊛ defaulted "ed25519" text "signature_algorithm" (value_of "signature_algorithm" fs)
        ⊛ need "signature")

  -- HopReceipt.model_validate
  unfoldable pub validate_receipt : Json → Result HopReceipt
  unfolding receipt_fields
  validate_receipt = of_object receipt_fields

  unfoldable pub attestation_fields : Fields → Result RouteAttestation
  unfolding modelled value_of extras validate_plan validate_receipt
  attestation_fields fs =
      modelled attestation_errors (extras ("schema_version" ∷ "plan" ∷ "receipts" ∷ []) fs) (
        good make_attestation
        ⊛ defaulted "locusmesh.route-attestation.v1" text "schema_version"
            (value_of "schema_version" fs)
        ⊛ required (λ j. of_result (validate_plan c j)) "plan" (value_of "plan" fs)
        ⊛ required (sequence (λ j. of_result (validate_receipt j))) "receipts"
            (value_of "receipts" fs))

  -- RouteAttestation.model_validate
  unfoldable pub validate_attestation : Json → Result RouteAttestation
  unfolding attestation_fields
  validate_attestation = of_object attestation_fields
