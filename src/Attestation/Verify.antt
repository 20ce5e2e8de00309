-- ===== src/Attestation/Verify.antt =====
-- `verify_attestation` of attestation.py.
use Prim.Native.Nat.{min}
use locus_mesh.Base.{
  ℕ, zero, suc, String, ◌⧺◌, Bool, true, false, not, ◌&&◌, Option, none, some, List, [], ◌∷◌, ◌++◌,
  ◌==◌, ◌!=◌, nat_eq, string_eq, option_eq, ltb, length, get_elem?, when, is_empty, from_keys,
  if◌then◌else◌,
}
use locus_mesh.Fail.{Result, ok, err, value_error, key_error, ◌>>=◌}
use locus_mesh.Scope.{
  EvidenceLevel, evidence_rank, intent_eq, intent_value, effective_evidence, minimum_evidence,
}
use locus_mesh.Runtime.{Runtime, DateTime, ◌<?◌, ◌≤?◌}
use locus_mesh.Json.{canonical_json_bytes}
use locus_mesh.Crypto.{sha256_digest, derive_key_id, verify_ed25519}
use locus_mesh.Models.Topology.{PeerManifest, AdmissionPolicy, floor_of}
use locus_mesh.Models.Route.{RoutePlan, HopReceipt, RouteAttestation}
use locus_mesh.Models.Decision.{AdmissionDecision, attestation_verification}
use locus_mesh.Policy.Digest.{
  topology_digest, policy_digest, plan_json, signing_payload, receipt_json, attestation_json,
}
use locus_mesh.Policy.Admit.{peer_of, admit_plan}
use locus_mesh.Replay.{ReplayStore}

-- f"RECEIPT_{field}_MISMATCH" for each field that does not match
unfoldable pub mismatches : List (String × Bool) → List String
mismatches [] = []
mismatches ((field, matches) ∷ fields) =
    when (not matches) ("RECEIPT_" ⧺ (field ⧺ "_MISMATCH")) ++ mismatches fields

abbrev pub previous_of : List String → ℕ → Option String
previous_of hops zero = none
previous_of hops (suc i) = get_elem? hops i

-- not (start <= moment < end)
abbrev pub outside : DateTime → DateTime → DateTime → Bool
outside start moment end = not (start ≤? moment && moment <? end)

abbrev pub reversed : Option HopReceipt → DateTime → Bool
reversed none moment = false
reversed (some previous) moment = moment <? previous.observed_at

-- The variables of the loop over the receipts.
pub record Trail : Type 0 where
  pub reasons : List String
  pub previous : Option HopReceipt
  pub evidence : List EvidenceLevel

module _ (rt : Runtime) where
  abbrev pub digest_of : Option HopReceipt → Option String
  digest_of none = none
  digest_of (some previous) = some (sha256_digest rt (receipt_json rt previous))

module _ (rt : Runtime) (plan : RoutePlan) (policy : AdmissionPolicy) (now : DateTime) where
  unfoldable pub exact_fields : ℕ → String → Option HopReceipt → HopReceipt → List (String × Bool)
  exact_fields index expected_peer previous receipt =
      ("REQUEST_ID", receipt.request_id == plan.request_id)
      ∷ ("NONCE", receipt.nonce == plan.nonce)
      ∷ ("REQUEST_COMMITMENT", receipt.request_commitment == plan.request_commitment)
      ∷ ("ROUTE_PLAN_DIGEST", receipt.route_plan_digest == sha256_digest rt (plan_json rt plan))
      ∷ ("POLICY_DIGEST", receipt.policy_digest == policy_digest rt policy)
      ∷ ("TOPOLOGY_DIGEST", receipt.topology_digest == topology_digest rt policy.topology)
      ∷ ("INTENT", receipt.intent == plan.intent)
      ∷ ("HOP_INDEX", receipt.hop_index == index)
      ∷ ("HOP_COUNT", receipt.hop_count == length plan.hop_peer_ids)
      ∷ ("PEER_ID", receipt.peer_id == expected_peer)
      ∷ ("PREVIOUS_PEER", receipt.previous_peer_id == previous_of plan.hop_peer_ids index)
      ∷ ("NEXT_PEER", receipt.next_peer_id == get_elem? plan.hop_peer_ids (suc index))
      ∷ ("PREVIOUS_RECEIPT_DIGEST", receipt.previous_receipt_digest == digest_of rt previous)
      ∷ ("MODEL_DIGEST", receipt.model_digest == plan.model_digest)
      ∷ ("RUNTIME_DIGEST", receipt.runtime_digest == plan.runtime_digest)
      ∷ []

  -- try: derive_key_id(...) except ValueError: ... else: ...
  unfoldable pub key_reasons : PeerManifest → HopReceipt → Result String → List String
  key_reasons manifest receipt (err e) = "PEER_PUBLIC_KEY_INVALID" ∷ []
  key_reasons manifest receipt (ok key_id) =
      when (key_id != manifest.key_id) "PEER_KEY_BINDING_INVALID"
      ++ when
          (not (
            verify_ed25519 rt manifest.public_key
              (canonical_json_bytes (signing_payload rt receipt)) receipt.signature))
          "SIGNATURE_INVALID"

  unfoldable pub moment_reasons : PeerManifest → Option HopReceipt → HopReceipt → List String
  moment_reasons manifest previous receipt =
      when (outside plan.created_at receipt.observed_at plan.expires_at)
        "RECEIPT_OUTSIDE_PLAN_WINDOW"
      ++ (when (now <? receipt.observed_at) "RECEIPT_FROM_FUTURE"
          ++ (when
                (outside policy.topology.captured_at receipt.observed_at policy.topology.expires_at)
                "RECEIPT_OUTSIDE_TOPOLOGY_WINDOW"
              ++ (when (reversed previous receipt.observed_at) "RECEIPT_TIME_REVERSED"
                  ++ (when (outside manifest.valid_from receipt.observed_at manifest.expires_at)
                        "RECEIPT_OUTSIDE_PEER_WINDOW"
                      ++ when (receipt.key_id != manifest.key_id) "RECEIPT_KEY_ID_MISMATCH"))))

  unfoldable pub evidence_reasons : PeerManifest → HopReceipt → EvidenceLevel → List String
  evidence_reasons manifest receipt required =
      when (ltb (evidence_rank manifest.evidence_level) (evidence_rank receipt.evidence_level))
        "RECEIPT_EVIDENCE_EXCEEDS_MANIFEST"
      ++ when
          (ltb (evidence_rank (effective_evidence receipt.evidence_level)) (evidence_rank required))
          "RECEIPT_EVIDENCE_BELOW_FLOOR"

  -- policy.minimum_evidence[plan.intent]
  unfoldable pub required_floor : Option EvidenceLevel → Result EvidenceLevel
  required_floor none = err (key_error (intent_value plan.intent))
  required_floor (some required) = ok required

  -- one round of the loop, with the manifest of the expected peer
  unfoldable pub check_receipt :
      ℕ → String → Option PeerManifest → HopReceipt → Trail → Result Trail
  unfolding required_floor
  check_receipt index expected_peer none receipt t = ok (record {
    reasons =
        t.reasons
        ++ (mismatches (exact_fields index expected_peer t.previous receipt)
            ++ (("PEER_UNKNOWN:" ⧺ expected_peer) ∷ []));
    previous = some receipt;
    evidence = t.evidence;
  })
  check_receipt index expected_peer (some manifest) receipt t = do
    required ← required_floor (floor_of plan.intent policy.minimum_evidence)
    ok (record {
      reasons =
          t.reasons
          ++ (mismatches (exact_fields index expected_peer t.previous receipt)
              ++ (moment_reasons manifest t.previous receipt
                  ++ (key_reasons manifest receipt (derive_key_id rt manifest.public_key)
                      ++ evidence_reasons manifest receipt required)));
      previous = some receipt;
      evidence = t.evidence ++ (effective_evidence receipt.evidence_level ∷ []);
    })

  -- for index, receipt in enumerate(receipts), which breaks at the first extra receipt
  unfoldable pub check_receipts : ℕ → List HopReceipt → Trail → Result Trail
  check_receipts index [] t = ok t
  check_receipts index (receipt ∷ receipts) t = elim (get_elem? plan.hop_peer_ids index) [
    | none ↦ ok (record t { reasons = t.reasons ++ ("EXTRA_RECEIPT" ∷ []) })
    | some expected_peer ↦
        check_receipt index expected_peer (peer_of expected_peer policy.topology.peers) receipt t
        >>= check_receipts (suc index) receipts
  ]

-- base.model_copy(update={...})
unfoldable pub deny : AdmissionDecision → List String → ℕ → String → AdmissionDecision
deny base reasons checked_hops attestation_digest = record base {
  admitted = false;
  decision_kind = attestation_verification;
  reason_codes = from_keys [] reasons;
  checked_hops = checked_hops;
  attestation_digest = some attestation_digest;
}

abbrev pub as_verification : AdmissionDecision → String → AdmissionDecision
as_verification base attestation_digest = record base {
  decision_kind = attestation_verification;
  attestation_digest = some attestation_digest;
}

-- min(effective_receipt_evidence, key=rank)
unfoldable pub least_evidence : Option EvidenceLevel → Result EvidenceLevel
least_evidence none = err (value_error "min() iterable argument is empty")
least_evidence (some level) = ok level

module _ {S : Type 0} where
  -- replay_store is None or it answers for this nonce, commitment and digest
  unfoldable pub consult : Option (ReplayStore S) → String → String → String → S → Result (Bool × S)
  consult none nonce commitment digest s = ok (true, s)
  consult (some store) nonce commitment digest s = store.record_if_new nonce commitment digest s

  module _ (rt : Runtime) (attestation : RouteAttestation) (policy : AdmissionPolicy)
      (now : DateTime) (replay_store : Option (ReplayStore S)) where
    abbrev pub attestation_hash : String
    attestation_hash = sha256_digest rt (attestation_json rt attestation)

    abbrev pub start : Trail
    start = record {
      reasons =
          when (length attestation.receipts != length attestation.plan.hop_peer_ids)
            "RECEIPT_COUNT_MISMATCH";
      previous = none;
      evidence = [];
    }

    -- once the replay store has answered
    unfoldable pub finish : Bool → AdmissionDecision → Trail → S → Result (AdmissionDecision × S)
    finish fresh base t s =
        if fresh
        then (do
          effective ← least_evidence (minimum_evidence t.evidence)
          ok (
            record (as_verification base attestation_hash) { effective_evidence = some effective },
            s,
          ))
        else ok
            (deny base ("REPLAY_DETECTED" ∷ []) (length attestation.receipts) attestation_hash, s)

    -- after the loop: the reasons, the replay store, the least evidence
    unfoldable pub conclude : AdmissionDecision → Trail → S → Result (AdmissionDecision × S)
    unfolding consult least_evidence
    conclude base t s =
        if is_empty t.reasons
        then (do
          (fresh, s') ←
              consult replay_store attestation.plan.nonce attestation.plan.request_commitment
                attestation_hash s
          finish fresh base t s')
        else ok (
          deny base t.reasons
              (min (length attestation.receipts) (length attestation.plan.hop_peer_ids))
              attestation_hash,
          s,
        )

    unfoldable pub verify_attestation : S → Result (AdmissionDecision × S)
    unfolding conclude check_receipts
    verify_attestation s = do
      base ← admit_plan rt attestation.plan policy now
      if base.admitted
          then (do
            t ← check_receipts rt attestation.plan policy now 0 attestation.receipts start
            conclude base t s)
          else ok (as_verification base attestation_hash, s)
