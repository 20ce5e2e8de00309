-- ===== src/Models/Route.antt =====
-- RoutePlan, HopReceipt and RouteAttestation.
use locus_mesh.Base.{
  ℕ, String, Bool, true, not, Option, none, some, List, [], ◌∷◌, ◌++◌, ◌!=◌, nat_eq, string_eq,
  between, length, leb, when,
}
use locus_mesh.Scope.{ExecutionIntent, EvidenceLevel}
use locus_mesh.Runtime.{DateTime, is_aware, ◌≤?◌}
use locus_mesh.Models.Patterns.{
  is_digest, is_commitment, is_peer_id, is_key_id, is_request_id, is_nonce, is_base64url,
  after_fields, first_error, flat_errors,
}

pub record RoutePlan : Type 0 where
  pub schema_version : String
  pub request_id : String
  pub nonce : String
  pub request_commitment : String
  pub intent : ExecutionIntent
  pub model_digest : String
  pub runtime_digest : String
  pub hop_peer_ids : List String
  pub created_at : DateTime
  pub expires_at : DateTime

abbrev pub peer_id_errors : String → List String
peer_id_errors p = when (not (is_peer_id p)) "hop_peer_ids"

unfoldable pub plan_errors : RoutePlan → List String
unfolding flat_errors
plan_errors p =
    after_fields
      (when (p.schema_version != "locusmesh.route-plan.v1") "schema_version"
        ++ (when (not (is_request_id p.request_id)) "request_id"
            ++ (when (not (is_nonce p.nonce)) "nonce"
                ++ (when (not (is_commitment p.request_commitment)) "request_commitment"
                    ++ (when (not (is_digest p.model_digest)) "model_digest"
                        ++ (when (not (is_digest p.runtime_digest)) "runtime_digest"
                            ++ (when (not (between 1 64 (length p.hop_peer_ids))) "hop_peer_ids"
                                ++ (flat_errors peer_id_errors p.hop_peer_ids
                                    ++ (when (not (is_aware p.created_at)) "created_at"
                                        ++ when (not (is_aware p.expires_at)) "expires_at")))))))))
      (first_error
        ((p.expires_at ≤? p.created_at, "created_at must be earlier than expires_at") ∷ []))

pub record HopReceipt : Type 0 where
  pub schema_version : String
  pub request_id : String
  pub nonce : String
  pub request_commitment : String
  pub route_plan_digest : String
  pub policy_digest : String
  pub topology_digest : String
  pub intent : ExecutionIntent
  pub hop_index : ℕ
  pub hop_count : ℕ
  pub peer_id : String
  pub previous_peer_id : Option String
  pub next_peer_id : Option String
  pub previous_receipt_digest : Option String
  pub model_digest : String
  pub runtime_digest : String
  pub evidence_level : EvidenceLevel
  pub observed_at : DateTime
  pub key_id : String
  pub signature_algorithm : String
  pub signature : String

abbrev pub optional : (String → Bool) → Option String → Bool
optional test none = true
optional test (some s) = test s

unfoldable pub receipt_errors : HopReceipt → List String
receipt_errors r =
    when (r.schema_version != "locusmesh.hop-receipt.v1") "schema_version"
    ++ (when (not (is_request_id r.request_id)) "request_id"
        ++ (when (not (is_nonce r.nonce)) "nonce"
            ++ (when (not (is_commitment r.request_commitment)) "request_commitment"
                ++ (when (not (is_digest r.route_plan_digest)) "route_plan_digest"
                    ++ (when (not (is_digest r.policy_digest)) "policy_digest"
                        ++ (when (not (is_digest r.topology_digest)) "topology_digest"
                            ++ (when (not (leb r.hop_index 63)) "hop_index"
                                ++ (when (not (between 1 64 r.hop_count)) "hop_count"
                                    ++ (when (not (is_peer_id r.peer_id)) "peer_id"
                                        ++ (when (not (optional is_peer_id r.previous_peer_id))
                                              "previous_peer_id"
                                            ++ (when (not (optional is_peer_id r.next_peer_id))
                                                  "next_peer_id"
                                                ++ (when
                                                      (not (
                                                        optional is_digest
                                                          r.previous_receipt_digest))
                                                      "previous_receipt_digest"
                                                    ++ (when (not (is_digest r.model_digest))
                                                          "model_digest"
                                                        ++ (when (not (is_digest r.runtime_digest))
                                                            "runtime_digest"
                                                            ++ (when (not (is_aware r.observed_at))
                                                            "observed_at"
                                                            ++ (when (not (is_key_id r.key_id))
                                                            "key_id"
                                                            ++ (when
                                                            (r.signature_algorithm != "ed25519")
                                                            "signature_algorithm"
                                                            ++ when
                                                            (not (is_base64url 86 r.signature))
                                                            "signature")))))))))))))))))

pub record RouteAttestation : Type 0 where
  pub schema_version : String
  pub plan : RoutePlan
  pub receipts : List HopReceipt

unfoldable pub attestation_errors : RouteAttestation → List String
unfolding flat_errors
attestation_errors a =
    when (a.schema_version != "locusmesh.route-attestation.v1") "schema_version"
    ++ (plan_errors a.plan
        ++ (when (not (between 1 64 (length a.receipts))) "receipts"
            ++ flat_errors receipt_errors a.receipts))

-- `RouteAttestation(plan=..., receipts=...)` on contracts that exist: they are not validated again.
unfoldable pub built_errors : RouteAttestation → List String
built_errors a = when (not (between 1 64 (length a.receipts))) "receipts"
