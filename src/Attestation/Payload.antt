-- ===== src/Attestation/Payload.antt =====
-- The signed bytes of a receipt determine every field that is signed.
use locus_mesh.Base.{
  String, ◌≡◌, refl, sym, ap, ◌∙◌, Option, none, some, ◌==◌, string_eq, if◌then◌else◌,
}
use locus_mesh.Scope.{
  ExecutionIntent, intent_value, device_only, private_mesh, public_mesh, EvidenceLevel,
  evidence_value, observed, peer_asserted, hardware_attested,
}
use locus_mesh.Runtime.{Runtime, DateTime}
use locus_mesh.Json.{Json, null, str, obj, Fields, end, field, normalize, canonical_json_bytes}
use locus_mesh.Json.Kind.{as_str, as_num}
use locus_mesh.Json.Written.{canonical_json_bytes-eq_iff}
use locus_mesh.Models.Route.{HopReceipt}
use locus_mesh.Policy.Digest.{signing_payload, optional_str}

unfoldable pub pick_field : String → Fields → Json
pick_field key end = null
pick_field key (field k v fs) = if k == key then v else pick_field key fs

-- The value of a field of an object.
unfoldable pub pick : String → Json → Json
unfolding pick_field
pick key (obj fs) = pick_field key fs
pick key _ = null

unfoldable pub as_optional : Json → Option String
as_optional (str s) = some s
as_optional _ = none

unfoldable pub intent_of : String → ExecutionIntent
intent_of s =
    if s == "device_only"
    then device_only
    else if s == "private_mesh"
    then private_mesh
    else public_mesh

unfoldable pub evidence_of : String → EvidenceLevel
evidence_of s =
    if s == "observed"
    then observed
    else if s == "peer_asserted"
    then peer_asserted
    else hardware_attested

abbrev pub the_text : String → Json → String
the_text key j = as_str (pick key j)

-- The receipt of a signed body, with the time and the signature given.
unfoldable pub receipt_of : DateTime → String → Json → HopReceipt
unfolding pick as_str as_num as_optional intent_of evidence_of
receipt_of time signature j = record {
  schema_version = the_text "schema_version" j;
  request_id = the_text "request_id" j;
  nonce = the_text "nonce" j;
  request_commitment = the_text "request_commitment" j;
  route_plan_digest = the_text "route_plan_digest" j;
  policy_digest = the_text "policy_digest" j;
  topology_digest = the_text "topology_digest" j;
  intent = intent_of (the_text "intent" j);
  hop_index = as_num (pick "hop_index" j);
  hop_count = as_num (pick "hop_count" j);
  peer_id = the_text "peer_id" j;
  previous_peer_id = as_optional (pick "previous_peer_id" j);
  next_peer_id = as_optional (pick "next_peer_id" j);
  previous_receipt_digest = as_optional (pick "previous_receipt_digest" j);
  model_digest = the_text "model_digest" j;
  runtime_digest = the_text "runtime_digest" j;
  evidence_level = evidence_of (the_text "evidence_level" j);
  observed_at = time;
  key_id = the_text "key_id" j;
  signature_algorithm = the_text "signature_algorithm" j;
  signature = signature;
}

pub as_optional_lem : (o : Option String) → as_optional (normalize (optional_str o)) ≡ o
unfolding as_optional canonical_json_bytes
as_optional_lem none = refl
as_optional_lem (some s) = refl

pub intent_of_lem : (i : ExecutionIntent) → intent_of (intent_value i) ≡ i
unfolding intent_of
intent_of_lem device_only = refl
intent_of_lem private_mesh = refl
intent_of_lem public_mesh = refl

pub evidence_of_lem : (e : EvidenceLevel) → evidence_of (evidence_value e) ≡ e
unfolding evidence_of
evidence_of_lem observed = refl
evidence_of_lem peer_asserted = refl
evidence_of_lem hardware_attested = refl

module _ (rt : Runtime) where
  abbrev body : HopReceipt → Json
  body r = normalize (signing_payload rt r)

  receipt_of-body :
      (time : DateTime) (signature : String) (r : HopReceipt)
      → receipt_of time signature (body r) ≡ record r { observed_at = time; signature = signature }
  unfolding canonical_json_bytes signing_payload receipt_of
  receipt_of-body time signature r =
      rw
        (
          intent_of_lem r.intent,
          as_optional_lem r.previous_peer_id,
          as_optional_lem r.next_peer_id,
          as_optional_lem r.previous_receipt_digest,
          evidence_of_lem r.evidence_level,
        )
        refl

  time_of-body : (r : HopReceipt) → the_text "observed_at" (body r) ≡ rt.json_datetime r.observed_at
  unfolding canonical_json_bytes signing_payload pick as_str
  time_of-body r = refl

  -- Two receipts with the same signed bytes agree in every field but the signature, and in the text
  -- of the time of observation.
  pub signing_payload_determines :
      (r s : HopReceipt)
      → canonical_json_bytes (signing_payload rt r) ≡ canonical_json_bytes (signing_payload rt s)
      → (record r { observed_at = s.observed_at; signature = s.signature } ≡ s)
        × (rt.json_datetime r.observed_at ≡ rt.json_datetime s.observed_at)
  signing_payload_determines r s same =
      let alike =
        (canonical_json_bytes-eq_iff (signing_payload rt r) (signing_payload rt s)).0 same in
      (
        sym (receipt_of-body s.observed_at s.signature r)
            ∙ ap (receipt_of s.observed_at s.signature) alike
            ∙ receipt_of-body s.observed_at s.signature s,
        sym (time_of-body r) ∙ ap (the_text "observed_at") alike ∙ time_of-body s,
      )
