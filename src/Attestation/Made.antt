-- ===== src/Attestation/Made.antt =====
-- build_attestation of attestation.py: the receipts that honest signers make, one by one.
use locus_mesh.Base.{
  ℕ, suc, ◌+◌, ◌≤◌, String, ◌≡◌, ◌↔◌, refl, sym, subst, true, Option, none, some, List, [], ◌∷◌,
  arith, All, length, get_elem?, string_eq,
}
use locus_mesh.Fail.{ok}
use locus_mesh.Scope.{EvidenceLevel, evidence_rank, effective_evidence}
use locus_mesh.Runtime.{Runtime, IsLawful, DateTime, is_aware}
use locus_mesh.Json.{canonical_json_bytes}
use locus_mesh.Crypto.{verify_ed25519}
use locus_mesh.Models.Topology.{PeerManifest, AdmissionPolicy, floor_of}
use locus_mesh.Models.Route.{RoutePlan, HopReceipt, receipt_errors}
use locus_mesh.Policy.Admit.{peer_of}
use locus_mesh.Policy.Digest.{signing_payload}
use locus_mesh.Policy.Spec.{AtLeast, IsEligible, IsEligiblePeer, IsEligibleHop, IsAdmissible}
use locus_mesh.Policy.Total.{IsValidPlan}
use locus_mesh.Attestation.Build.{
  SignerProvider, entry, required_entry, unsigned_receipt, signed_receipt, build_receipt,
  build_receipts, claimed_evidence,
}
use locus_mesh.Attestation.Spec.{NotBefore, IsReceiptFor, IsReceiptAt, IsChain}
use locus_mesh.Attestation.Unsigned.{validated-eq-ok, unsigned_IsValid}
use locus_mesh.Attestation.Signing.{IsKeyPair}

module _ (rt : Runtime) (policy : AdmissionPolicy) (signers : List (String × SignerProvider)) where
  -- The signer of a hop that is in the topology holds the key of its manifest.
  pub record IsReady (peer_id : String) : Type 0 where
    pub signer : SignerProvider
    pub manifest : PeerManifest
    pub found : entry peer_id signers ≡ some signer
    pub listed : peer_of peer_id policy.topology.peers ≡ some manifest
    pub pair : IsKeyPair rt signer
    pub same_id : signer.key_id ≡ manifest.key_id
    pub same_key : signer.public_key ≡ manifest.public_key

module _ (plan : RoutePlan) (policy : AdmissionPolicy)
    (levels : Option (List (String × EvidenceLevel))) where
  abbrev pub claim_of : String → PeerManifest → EvidenceLevel
  claim_of peer_id manifest = claimed_evidence levels peer_id manifest.evidence_level

  -- What a hop claims is no more than its manifest does, and reaches the floor of the policy.
  abbrev pub IsClaim : String → Option PeerManifest → Type 0
  IsClaim peer_id none = Unit
  IsClaim peer_id (some manifest) =
      (evidence_rank (claim_of peer_id manifest) ≤ evidence_rank manifest.evidence_level)
      × AtLeast (floor_of plan.intent policy.minimum_evidence)
          (effective_evidence (claim_of peer_id manifest))

  abbrev pub IsClaimed : String → Type 0
  IsClaimed peer_id = IsClaim peer_id (peer_of peer_id policy.topology.peers)

module _ (rt : Runtime) (lawful : IsLawful rt) (plan : RoutePlan) (policy : AdmissionPolicy)
    (signers : List (String × SignerProvider)) (observed_at : DateTime)
    (levels : Option (List (String × EvidenceLevel))) (valid : IsValidPlan plan)
    (aware : is_aware observed_at ≡ true) where
  abbrev Ready : String → Type 0
  Ready = IsReady rt policy signers

  made : ℕ → (peer_id : String) → Option HopReceipt → Ready peer_id → HopReceipt
  unfolding signed_receipt unsigned_receipt
  made index peer_id previous ready =
      signed_receipt rt plan policy signers observed_at levels ready.signer (
        unsigned_receipt rt plan policy signers observed_at levels index peer_id previous
          ready.signer ready.manifest)

  build_receipt-eq-ok :
      (index : ℕ) (peer_id : String) (previous : Option HopReceipt) (ready : Ready peer_id)
      → get_elem? plan.hop_peer_ids index ≡ some peer_id
      → index ≤ 63
      → build_receipt rt plan policy signers observed_at levels index peer_id previous
        ≡ ok (made index peer_id previous ready)
  unfolding build_receipt required_entry made
  build_receipt-eq-ok index peer_id previous ready place small =
      rw
        (
          ready.found,
          ready.listed,
          validated-eq-ok receipt_errors _ (
              unsigned_IsValid rt lawful plan policy signers observed_at levels valid aware index
                peer_id previous ready.signer ready.manifest place small ready.pair.shape),
        )
        refl

  module _ (now : DateTime) (later : observed_at.instant ≤ now.instant)
      (then_admissible : IsAdmissible rt plan policy observed_at) {level : EvidenceLevel}
      (floor : floor_of plan.intent policy.minimum_evidence ≡ some level) where
    abbrev IsMade : Option HopReceipt → Type 0
    IsMade none = Unit
    IsMade (some previous) = previous.observed_at ≡ observed_at

    not_before : (previous : Option HopReceipt) → IsMade previous → NotBefore previous observed_at
    not_before none h = tt
    not_before (some previous) h = rw h (omega arith)

    made-IsReceiptFor :
        (index : ℕ) (peer_id : String) (previous : Option HopReceipt) (ready : Ready peer_id)
        → IsEligible rt plan policy observed_at ready.manifest
        → IsClaim plan policy levels peer_id (some ready.manifest)
        → IsMade previous
        → IsReceiptFor rt plan policy now index peer_id ready.manifest previous
            (made index peer_id previous ready)
    unfolding made signing_payload
    made-IsReceiptFor index peer_id previous ready eligible claim before = record {
      exact = record {
        request_id = refl;
        nonce = refl;
        request_commitment = refl;
        route_plan = refl;
        policy_pin = refl;
        topology_pin = refl;
        intent = refl;
        hop_index = refl;
        hop_count = refl;
        peer = refl;
        previous_peer = refl;
        next_peer = refl;
        previous_receipt = refl;
        model = refl;
        runtime = refl;
      };
      timely = record {
        plan_window = then_admissible.route.plan_window;
        not_future = later;
        topology_window = then_admissible.route.topology_window;
        forward = not_before previous before;
        peer_window = eligible.window;
      };
      signed = record {
        key = ready.same_id;
        bound = eligible.bound;
        signature =
            let receipt = made index peer_id previous ready in
            let payload = canonical_json_bytes (signing_payload rt receipt) in
            subst (λ k. verify_ed25519 rt k payload receipt.signature ≡ true) ready.same_key
              (ready.pair.signs payload);
      };
      supported = record {
        claim = claim.0;
        required = level;
        floor = floor;
        reached =
            subst
              (λ f.
                AtLeast f (effective_evidence (claim_of plan policy levels peer_id ready.manifest)))
              floor claim.1;
      };
    }

    made-IsReceiptAt :
        (index : ℕ) (peer_id : String) (previous : Option HopReceipt) (ready : Ready peer_id)
        → get_elem? plan.hop_peer_ids index ≡ some peer_id
        → IsEligibleHop rt plan policy observed_at peer_id
        → IsClaimed plan policy levels peer_id
        → IsMade previous
        → IsReceiptAt rt plan policy now index
            (get_elem? plan.hop_peer_ids index)
            previous
            (made index peer_id previous ready)
    made-IsReceiptAt index peer_id previous ready place eligible claim before =
        rw (place, ready.listed)
          (made-IsReceiptFor index peer_id previous ready
            (subst (IsEligiblePeer rt plan policy observed_at) ready.listed eligible)
            (subst (IsClaim plan policy levels peer_id) ready.listed claim) before)

    claim_of_IsReceiptAt :
        (index : ℕ) (peer_id : String) (previous : Option HopReceipt) (ready : Ready peer_id)
        → get_elem? plan.hop_peer_ids index ≡ some peer_id
        → IsReceiptAt rt plan policy now index
            (get_elem? plan.hop_peer_ids index)
            previous
            (made index peer_id previous ready)
        → IsClaimed plan policy levels peer_id
    unfolding made
    claim_of_IsReceiptAt index peer_id previous ready place h =
        let good : IsReceiptFor rt plan policy now index peer_id ready.manifest previous
            (made index peer_id previous ready) =
          rw (place, ready.listed) at h in
        rw ready.listed (
          good.supported.claim,
          subst
              (λ f.
                AtLeast f (effective_evidence (claim_of plan policy levels peer_id ready.manifest)))
              (sym good.supported.floor) good.supported.reached,
        )

    shift :
        (index : ℕ) (peer_id : String) (hops : List String)
        → ((i : ℕ) → get_elem? plan.hop_peer_ids (index + i) ≡ get_elem? (peer_id ∷ hops) i)
        → (i : ℕ) → get_elem? plan.hop_peer_ids (suc index + i) ≡ get_elem? hops i
    shift index peer_id hops suffix i =
        let same : index + suc i ≡ suc index + i = omega arith in
        subst (λ k. get_elem? plan.hop_peer_ids k ≡ get_elem? hops i) same (suffix (suc i))

    -- The hops from `index` on, built and checked.
    pub build_receipts_lem :
        (index : ℕ) (hops : List String) (previous : Option HopReceipt)
        → ((i : ℕ) → get_elem? plan.hop_peer_ids (index + i) ≡ get_elem? hops i)
        → index + length hops ≤ 64
        → All Ready hops
        → All (IsEligibleHop rt plan policy observed_at) hops
        → IsMade previous
        → (receipts : List HopReceipt) × (build_receipts rt plan policy signers observed_at levels
              index hops previous
            ≡ ok receipts)
          × (length receipts ≡ length hops)
          × (IsChain rt plan policy now index previous receipts
              ↔ All (IsClaimed plan policy levels) hops)
    unfolding build_receipts
    build_receipts_lem index [] previous suffix small ready eligible before =
        ([], refl, refl, (λ h. tt, λ h. tt))
    build_receipts_lem index (peer_id ∷ hops) previous suffix small ready eligible before =
        let start : index + 0 ≡ index = omega arith in
        let place = subst (λ k. get_elem? plan.hop_peer_ids k ≡ some peer_id) start (suffix 0) in
        let receipt = made index peer_id previous ready.0 in
        let (rest, built, size, chain) =
          build_receipts_lem (suc index) hops (some receipt) (shift index peer_id hops suffix)
            (omega arith) ready.1 eligible.1 (unfold made in refl) in
        (
          receipt ∷ rest,
          rw (build_receipt-eq-ok index peer_id previous ready.0 place (omega arith), built) refl,
          omega (arith, size),
          (
            λ c. (claim_of_IsReceiptAt index peer_id previous ready.0 place c.0, chain.0 c.1),
            λ c. (
              made-IsReceiptAt index peer_id previous ready.0 place eligible.0 c.0 before,
              chain.1 c.1,
            ),
          ),
        )
