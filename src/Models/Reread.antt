-- ===== src/Models/Reread.antt =====
-- models.py: a contract is read back from its own JSON form.
use locus_mesh.Base.{
  ◌≡◌, refl, Option, none, some, List, [], ◌∷◌, map, String, All, append-eq-nil_iff,
  when-append_iff,
}
use locus_mesh.Fail.{ok}
use locus_mesh.Scope.{
  ExecutionIntent, device_only, private_mesh, public_mesh, intent_value, EvidenceLevel, observed,
  peer_asserted, hardware_attested, evidence_value,
}
use locus_mesh.Runtime.{Runtime, DateTime}
use locus_mesh.Json.{str}
use locus_mesh.Models.Patterns.{validated, flat_errors}
use locus_mesh.Models.Route.{
  RoutePlan, HopReceipt, RouteAttestation, plan_errors, receipt_errors, attestation_errors,
}
use locus_mesh.Models.Validate.{
  Coercions, text, intent_value_of, evidence_value_of, nullable, items_as, of_result,
}
use locus_mesh.Models.Validate.Route.{validate_plan, validate_receipt, validate_attestation}
use locus_mesh.Policy.Digest.{items_of, plan_json, receipt_json, attestation_json, optional_str}

intent_value_of_lem : (i : ExecutionIntent) → intent_value_of (str (intent_value i)) ≡ some i
unfolding intent_value_of
intent_value_of_lem device_only = refl
intent_value_of_lem private_mesh = refl
intent_value_of_lem public_mesh = refl

evidence_value_of_lem : (e : EvidenceLevel) → evidence_value_of (str (evidence_value e)) ≡ some e
unfolding evidence_value_of
evidence_value_of_lem observed = refl
evidence_value_of_lem peer_asserted = refl
evidence_value_of_lem hardware_attested = refl

texts_as : (xs : List String) → items_as text (items_of (map str xs)) ≡ some xs
unfolding items_as
texts_as [] = refl
texts_as (x ∷ xs) = rw (texts_as xs) refl

module _ (rt : Runtime) (c : Coercions) where
  -- The text of this time is read as this time.
  abbrev pub Reads : DateTime → Type 0
  Reads t = c.moment (str (rt.json_datetime t)) ≡ some t

  validate_plan-plan_json :
      (p : RoutePlan)
      → plan_errors p ≡ []
      → Reads p.created_at
      → Reads p.expires_at
      → validate_plan c (plan_json rt p) ≡ ok p
  unfolding validate_plan validated
  validate_plan-plan_json p valid created expires =
      rw (intent_value_of_lem p.intent, texts_as p.hop_peer_ids, created, expires, valid) refl

  nullable_lem : (o : Option String) → nullable text (optional_str o) ≡ some o
  nullable_lem none = refl
  nullable_lem (some s) = refl

  validate_receipt-receipt_json :
      (r : HopReceipt)
      → receipt_errors r ≡ []
      → Reads r.observed_at
      → validate_receipt c (receipt_json rt r) ≡ ok r
  unfolding validate_receipt validated
  validate_receipt-receipt_json r valid time =
      rw
        (
          intent_value_of_lem r.intent,
          nullable_lem r.previous_peer_id,
          nullable_lem r.next_peer_id,
          nullable_lem r.previous_receipt_digest,
          evidence_value_of_lem r.evidence_level,
          time,
          valid,
        )
        refl

  receipts_as :
      (rs : List HopReceipt)
      → flat_errors receipt_errors rs ≡ []
      → All (λ r. Reads r.observed_at) rs
      → items_as (λ j. of_result (validate_receipt c j)) (items_of (map (receipt_json rt) rs))
        ≡ some rs
  unfolding items_as flat_errors
  receipts_as [] valid times = refl
  receipts_as (r ∷ rs) valid times =
      let (here, later) =
        (append-eq-nil_iff (receipt_errors r) (flat_errors receipt_errors rs)).0 valid in
      rw (validate_receipt-receipt_json r here times.0, receipts_as rs later times.1) refl

  parts_valid :
      (a : RouteAttestation)
      → attestation_errors a ≡ []
      → (plan_errors a.plan ≡ []) × (flat_errors receipt_errors a.receipts ≡ [])
  unfolding attestation_errors
  parts_valid a valid =
      let (_, rest) = (when-append_iff _ _ _).0 valid in
      let (plan, rest') = (append-eq-nil_iff (plan_errors a.plan) _).0 rest in
      let (_, receipts) = (when-append_iff _ _ _).0 rest' in (plan, receipts)

  -- A contract of a route in its own constraints is read back from its own JSON form, if its times
  -- are read from their texts.
  pub validate_attestation-attestation_json :
      (a : RouteAttestation)
      → attestation_errors a ≡ []
      → Reads a.plan.created_at
      → Reads a.plan.expires_at
      → All (λ r. Reads r.observed_at) a.receipts
      → validate_attestation c (attestation_json rt a) ≡ ok a
  unfolding validate_attestation validated
  validate_attestation-attestation_json a valid created expires times =
      let (plan, receipts) = parts_valid a valid in
      rw
        (
          validate_plan-plan_json a.plan plan created expires,
          receipts_as a.receipts receipts times,
          valid,
        )
        refl
