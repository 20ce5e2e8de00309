-- ===== src/Attestation/ReasonCodes.antt =====
-- Every reason of `verify_attestation` begins as a reason code does.
use locus_mesh.Base.{
  ℕ, suc, String, ◌⧺◌, ◌≡◌, refl, subst, inl, inr, Bool, Option, none, some, List, [], ◌∷◌, arith,
  get_elem?, string_eq, Option-cases,
}
use locus_mesh.Fail.{Result, ok, err, ok-injective, bind-eq-ok}
use locus_mesh.Scope.{EvidenceLevel}
use locus_mesh.Runtime.{Runtime, DateTime}
use locus_mesh.Models.Topology.{PeerManifest, AdmissionPolicy, floor_of}
use locus_mesh.Models.Route.{RoutePlan, HopReceipt}
use locus_mesh.Policy.Admit.{peer_of}
use locus_mesh.Policy.Reasons.{AreReasons, begins, fixed, when_then, when_last, both, one}
use locus_mesh.Attestation.Verify.{
  mismatches, moment_reasons, key_reasons, evidence_reasons, Trail, required_floor, check_receipt,
  check_receipts,
}

mismatches-IsReason : (fields : List (String × Bool)) → AreReasons (mismatches fields)
unfolding mismatches
mismatches-IsReason [] = record { each = tt }
mismatches-IsReason ((field, matches) ∷ fields) =
    when_then _ _ _ (begins "R" "ECEIPT_" (field ⧺ "_MISMATCH") (omega arith))
      (mismatches-IsReason fields)

module _ (rt : Runtime) (plan : RoutePlan) (policy : AdmissionPolicy) (now : DateTime) where
  moment_reasons-IsReason :
      (manifest : PeerManifest) (previous : Option HopReceipt) (receipt : HopReceipt)
      → AreReasons (moment_reasons rt plan policy now manifest previous receipt)
  unfolding moment_reasons
  moment_reasons-IsReason manifest previous receipt =
      when_then _ _ _ (fixed "RECEIPT_OUTSIDE_PLAN_WINDOW" refl) (
        when_then _ _ _ (fixed "RECEIPT_FROM_FUTURE" refl) (
          when_then _ _ _ (fixed "RECEIPT_OUTSIDE_TOPOLOGY_WINDOW" refl) (
            when_then _ _ _ (fixed "RECEIPT_TIME_REVERSED" refl) (
              when_then _ _ _ (fixed "RECEIPT_OUTSIDE_PEER_WINDOW" refl)
                (when_last _ _ (fixed "RECEIPT_KEY_ID_MISMATCH" refl))))))

  key_reasons-IsReason :
      (manifest : PeerManifest) (receipt : HopReceipt) (bound : Result String)
      → AreReasons (key_reasons rt plan policy now manifest receipt bound)
  unfolding key_reasons
  key_reasons-IsReason manifest receipt (err e) = one _ (fixed "PEER_PUBLIC_KEY_INVALID" refl)
  key_reasons-IsReason manifest receipt (ok key_id) =
      when_then _ _ _ (fixed "PEER_KEY_BINDING_INVALID" refl)
        (when_last _ _ (fixed "SIGNATURE_INVALID" refl))

  evidence_reasons-IsReason :
      (manifest : PeerManifest) (receipt : HopReceipt) (required : EvidenceLevel)
      → AreReasons (evidence_reasons rt plan policy now manifest receipt required)
  unfolding evidence_reasons
  evidence_reasons-IsReason manifest receipt required =
      when_then _ _ _ (fixed "RECEIPT_EVIDENCE_EXCEEDS_MANIFEST" refl)
        (when_last _ _ (fixed "RECEIPT_EVIDENCE_BELOW_FLOOR" refl))

  check_receipt-IsReason :
      (index : ℕ) (peer_id : String) (manifest : Option PeerManifest) (receipt : HopReceipt)
      (t t' : Trail)
      → check_receipt rt plan policy now index peer_id manifest receipt t ≡ ok t'
      → AreReasons t.reasons
      → AreReasons t'.reasons
  unfolding check_receipt
  check_receipt-IsReason index peer_id none receipt t t' h before =
      subst (λ (x : Trail). AreReasons x.reasons) (ok-injective h)
        (both t.reasons _ before (
          both _ _ (mismatches-IsReason _)
            (one _ (begins "P" "EER_UNKNOWN:" peer_id (omega arith)))))
  check_receipt-IsReason index peer_id (some manifest) receipt t t' h before =
      let (required, floor, made) =
        bind-eq-ok
          (required_floor rt plan policy now (floor_of plan.intent policy.minimum_evidence)) _ h in
      subst (λ (x : Trail). AreReasons x.reasons) (ok-injective made)
        (both t.reasons _ before (
          both _ _ (mismatches-IsReason _) (
            both _ _ (moment_reasons-IsReason manifest t.previous receipt) (
              both _ _ (key_reasons-IsReason manifest receipt _)
                (evidence_reasons-IsReason manifest receipt required)))))

  pub check_receipts-IsReason :
      (index : ℕ) (receipts : List HopReceipt) (t t' : Trail)
      → check_receipts rt plan policy now index receipts t ≡ ok t'
      → AreReasons t.reasons
      → AreReasons t'.reasons
  unfolding check_receipts
  check_receipts-IsReason index [] t t' h before =
      subst (λ (x : Trail). AreReasons x.reasons) (ok-injective h) before
  check_receipts-IsReason index (receipt ∷ receipts) t t' h before =
      elim (Option-cases (get_elem? plan.hop_peer_ids index)) [
        | inl beyond ↦
            subst (λ (x : Trail). AreReasons x.reasons)
              (ok-injective (rw (beyond, check_receipts) at h))
              (both t.reasons _ before (one _ (fixed "EXTRA_RECEIPT" refl)))
        | inr (peer_id, found) ↦
            let (t1, first, rest) =
              bind-eq-ok
                (check_receipt rt plan policy now index peer_id
                  (peer_of peer_id policy.topology.peers) receipt t)
                (check_receipts rt plan policy now (suc index) receipts)
                (rw (found, check_receipts) at h) in
            check_receipts-IsReason (suc index) receipts t1 t' rest
              (check_receipt-IsReason index peer_id _ receipt t t1 first before)
      ]
