-- ===== src/Attestation/Chain.antt =====
-- The loop over the receipts finds nothing exactly if they form the chain that the plan asks for.
use locus_mesh.Base.{
  ℕ, suc, String, ◌≡◌, refl, ap, sym, ◌∙◌, subst, Option, none, some, List, [], ◌∷◌, ◌++◌, map,
  get_elem?, append-eq-nil_iff, inl, inr, Option-cases,
}
use mathlib.Core.List.{append_assoc, append-nil}
use locus_mesh.Fail.{ok, bind-eq-ok, ok-injective}
use locus_mesh.Scope.{EvidenceLevel, effective_evidence}
use locus_mesh.Runtime.{Runtime, DateTime}
use locus_mesh.Crypto.{derive_key_id}
use locus_mesh.Models.Topology.{PeerManifest, AdmissionPolicy, floor_of}
use locus_mesh.Models.Route.{RoutePlan, HopReceipt}
use locus_mesh.Policy.Admit.{peer_of}
use locus_mesh.Attestation.Verify.{
  Trail, mismatches, exact_fields, moment_reasons, key_reasons, required_floor, check_receipt,
  check_receipts,
}
use locus_mesh.Attestation.Spec.{IsReceiptFor, IsReceiptOf, IsReceiptAt, IsChain}
use locus_mesh.Attestation.Receipt.{
  IsExact-iff, moment_sound, moment_complete, key_sound, key_complete, evidence_iff,
}

abbrev pub clean : Option HopReceipt → List EvidenceLevel → Trail
clean previous levels = record { reasons = []; previous = previous; evidence = levels }

abbrev pub effective_levels : List HopReceipt → List EvidenceLevel
effective_levels = map (λ r. effective_evidence r.evidence_level)

abbrev pub last_of : Option HopReceipt → List HopReceipt → Option HopReceipt
last_of previous [] = previous
last_of previous (r ∷ receipts) = last_of (some r) receipts

module _ (rt : Runtime) (plan : RoutePlan) (policy : AdmissionPolicy) (now : DateTime) where
  pub floor-eq-ok :
      (floor : Option EvidenceLevel) {required : EvidenceLevel}
      → required_floor rt plan policy now floor ≡ ok required
      → floor ≡ some required
  unfolding required_floor
  floor-eq-ok none h = cc
  floor-eq-ok (some level) h = ap some (ok-injective h)

  check_receipt_sound :
      (index : ℕ) (peer_id : String) (manifest : Option PeerManifest) (receipt : HopReceipt)
      (t t' : Trail)
      → check_receipt rt plan policy now index peer_id manifest receipt t ≡ ok t'
      → t'.reasons ≡ []
      → (t.reasons ≡ [])
        × IsReceiptOf rt plan policy now index peer_id manifest t.previous receipt
        × (t'.previous ≡ some receipt)
  unfolding check_receipt
  check_receipt_sound index peer_id none receipt t t' h empty =
      let found = mismatches (exact_fields rt plan policy now index peer_id t.previous receipt) in
      let e = ap (λ (x : Trail). x.reasons) (ok-injective h) ∙ empty in
      let (_, rest) = (append-eq-nil_iff t.reasons _).0 e in
      let (_, unknown) = (append-eq-nil_iff found _).0 rest in cc unknown
  check_receipt_sound index peer_id (some manifest) receipt t t' h empty =
      let (required, floor, made) =
        bind-eq-ok
          (required_floor rt plan policy now (floor_of plan.intent policy.minimum_evidence)) _ h in
      let e = ap (λ (x : Trail). x.reasons) (ok-injective made) ∙ empty in
      let bound = derive_key_id rt manifest.public_key in
      let (before, rest) = (append-eq-nil_iff t.reasons _).0 e in
      let (exact, rest') =
        (append-eq-nil_iff
            (mismatches (exact_fields rt plan policy now index peer_id t.previous receipt)) _).0
          rest in
      let (moment, rest'') =
        (append-eq-nil_iff (moment_reasons rt plan policy now manifest t.previous receipt) _).0
          rest' in
      let (key, level) =
        (append-eq-nil_iff (key_reasons rt plan policy now manifest receipt bound) _).0 rest'' in
      let (timely, same_key) = moment_sound rt plan policy now manifest t.previous receipt moment in
      let (claim, reached) = (evidence_iff rt plan policy now manifest receipt required).0 level in
      (
        before,
        record {
          exact = (IsExact-iff rt plan policy now index peer_id t.previous receipt).0 exact;
          timely = timely;
          signed = key_sound rt plan policy now manifest receipt bound refl key same_key;
          supported = record {
            claim = claim;
            required = required;
            floor = floor-eq-ok _ floor;
            reached = reached;
          };
        },
        sym (ap (λ (x : Trail). x.previous) (ok-injective made)),
      )

  check_receipt_complete :
      (index : ℕ) (peer_id : String) (manifest : PeerManifest) (previous : Option HopReceipt)
      (receipt : HopReceipt) (levels : List EvidenceLevel)
      → IsReceiptFor rt plan policy now index peer_id manifest previous receipt
      → check_receipt rt plan policy now index peer_id
          (some manifest)
          receipt
          (clean previous levels)
        ≡ ok (clean (some receipt) (levels ++ (effective_evidence receipt.evidence_level ∷ [])))
  unfolding check_receipt
  check_receipt_complete index peer_id manifest previous receipt levels h = rw (
    h.supported.floor,
    (IsExact-iff rt plan policy now index peer_id previous receipt).1 h.exact,
    moment_complete rt plan policy now manifest previous receipt h.timely h.signed.key,
    key_complete rt plan policy now manifest receipt h.signed,
    (evidence_iff rt plan policy now manifest receipt h.supported.required).1
        (h.supported.claim, h.supported.reached),
  )

  -- A receipt at a place has its peer and the manifest of this peer.
  pub receipt_at :
      (index : ℕ) (place : Option String) (previous : Option HopReceipt) (receipt : HopReceipt)
      → get_elem? plan.hop_peer_ids index ≡ place
      → IsReceiptAt rt plan policy now index place previous receipt
      → (peer_id : String) × (get_elem? plan.hop_peer_ids index ≡ some peer_id)
        × (manifest : PeerManifest) × (peer_of peer_id policy.topology.peers ≡ some manifest)
        × IsReceiptFor rt plan policy now index peer_id manifest previous receipt
  receipt_at index none previous receipt e h = absurd h
  receipt_at index (some peer_id) previous receipt e h =
      elim (Option-cases (peer_of peer_id policy.topology.peers)) [
        | inl missing ↦
            absurd (
              subst (λ m. IsReceiptOf rt plan policy now index peer_id m previous receipt) missing
                h)
        | inr (manifest, known) ↦ (
          peer_id,
          e,
          manifest,
          known,
          subst (λ m. IsReceiptOf rt plan policy now index peer_id m previous receipt) known h,
        )
      ]

  pub check_receipts_sound :
      (index : ℕ) (receipts : List HopReceipt) (t t' : Trail)
      → check_receipts rt plan policy now index receipts t ≡ ok t'
      → t'.reasons ≡ []
      → (t.reasons ≡ []) × IsChain rt plan policy now index t.previous receipts
  unfolding check_receipts
  check_receipts_sound index [] t t' h empty =
      (ap (λ (x : Trail). x.reasons) (ok-injective h) ∙ empty, tt)
  check_receipts_sound index (receipt ∷ receipts) t t' h empty =
      elim (Option-cases (get_elem? plan.hop_peer_ids index)) [
        | inl missing ↦
            let e =
              ap (λ (x : Trail). x.reasons) (ok-injective (rw (missing, check_receipts) at h))
              ∙ empty in
            let (_, extra) = (append-eq-nil_iff t.reasons _).0 e in cc extra
        | inr (peer_id, found) ↦
            let (t1, first, later) = bind-eq-ok _ _ (rw (found, check_receipts) at h) in
            let (here, chain) = check_receipts_sound (suc index) receipts t1 t' later empty in
            let (before, good, last) =
              check_receipt_sound index peer_id (peer_of peer_id policy.topology.peers) receipt t t1
                first here in
            (
              before,
              (
                subst (λ o. IsReceiptAt rt plan policy now index o t.previous receipt) (sym found)
                    good,
                subst (λ o. IsChain rt plan policy now (suc index) o receipts) last chain,
              ),
            )
      ]

  pub check_receipts_complete :
      (index : ℕ) (receipts : List HopReceipt) (previous : Option HopReceipt)
      (levels : List EvidenceLevel)
      → IsChain rt plan policy now index previous receipts
      → check_receipts rt plan policy now index receipts (clean previous levels)
        ≡ ok (clean (last_of previous receipts) (levels ++ effective_levels receipts))
  unfolding check_receipts
  check_receipts_complete index [] previous levels h =
      ap (λ l. ok (clean previous l)) (sym (append-nil levels))
  check_receipts_complete index (receipt ∷ receipts) previous levels h =
      let level = effective_evidence receipt.evidence_level in
      let rest =
        check_receipts_complete (suc index) receipts (some receipt) (levels ++ (level ∷ [])) h.1 in
      let (peer_id, found, manifest, known, good) =
        receipt_at index (get_elem? plan.hop_peer_ids index) previous receipt refl h.0 in
      rw (found, check_receipts)
        (rw known (
          rw (check_receipt_complete index peer_id manifest previous receipt levels good) (
            rest
            ∙ ap (λ l. ok (clean (last_of (some receipt) receipts) l)) (append_assoc levels _ _))))
