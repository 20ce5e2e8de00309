-- ===== src/Demo/Outcome.antt =====
-- What the demo answers, whatever the hash functions and keys are.
use locus_mesh.Base.{
  codes, string_eq, String, ◌≡◌, refl, ap, ◌∙◌, sym, subst, ◌≤◌, inl, inr, true, false, none, some,
  List, [], ◌∷◌, arith, length, Bool-cases,
}
use locus_mesh.Fail.{ok}
use locus_mesh.Runtime.{Runtime, IsLawful}
use locus_mesh.Json.{encode_utf8}
use locus_mesh.Models.Topology.{AdmissionPolicy}
use locus_mesh.Models.Route.{HopReceipt, RoutePlan, RouteAttestation}
use locus_mesh.Models.Decision.{AdmissionDecision}
use locus_mesh.Policy.Total.{IsValidPlan, admit_plan_decides}
use locus_mesh.Replay.{open_store, sqlite_port}
use locus_mesh.Replay.Laws.{record_if_new_lem, empty_memory}
use locus_mesh.Attestation.Build.{SignerProvider}
use locus_mesh.Attestation.Verify.{attestation_hash, consult, verify_attestation}
use locus_mesh.Attestation.Spec.{IsVerified}
use locus_mesh.Attestation.Returns.{IsValidPolicy}
use locus_mesh.Attestation.Outcome.{verify_attestation_decides}
use locus_mesh.Attestation.Session.{Session, admitted_once}
use locus_mesh.Attestation.Signing.{IsKeyPair, from_private_bytes_lem}
use locus_mesh.Attestation.Built.{built-IsVerified}
use locus_mesh.Demo.{
  demo_time, demo_signer, replayed, verified_alone, first_receipt, tampered_signature,
  tampered_attestation, DemoResults, run_demo,
}
use locus_mesh.Demo.Routes.{
  policy, signers, device_plan, private_plan, escape_plan, device-IsAdmissible,
  private-IsAdmissible, device-IsReady, private-IsReady, escape-not-IsAdmissible, device-IsPlanned,
  private-IsPlanned, escape-IsPlanned,
}
use locus_mesh.Demo.Valid.{policy-IsValid, demo_topology-eq-ok, demo_policy-eq-ok}

first_returns :
    (receipts : List HopReceipt)
    → 1 ≤ length receipts
    → (r : HopReceipt) × (first_receipt receipts ≡ ok r)
unfolding first_receipt
first_returns [] some_receipt = absurd (omega (arith, some_receipt))
first_returns (r ∷ receipts) some_receipt = (r, refl)

-- A receipt can be altered if there is one; the plan stays.
tampered_returns :
    (rt : Runtime) (a : RouteAttestation)
    → 1 ≤ length a.receipts
    → (b : RouteAttestation) × (tampered_attestation rt a ≡ ok b) × (b.plan ≡ a.plan)
unfolding tampered_attestation
tampered_returns rt a some_receipt =
    let (r, first) = first_returns a.receipts some_receipt in
    (
      record a { receipts = record r { signature = tampered_signature r.signature } ∷ [] },
      rw first refl,
      refl,
    )

module _ (rt : Runtime) (lawful : IsLawful rt) (attestation : RouteAttestation)
    (policy : AdmissionPolicy) (valid_plan : IsValidPlan attestation.plan)
    (valid_policy : IsValidPolicy policy) where
  verified_alone_returns : (d : AdmissionDecision) × (verified_alone rt attestation policy ≡ ok d)
  unfolding verified_alone consult
  verified_alone_returns =
      let (d, s, ran, outcome) =
        verify_attestation_decides {S = Unit {0}} rt attestation policy demo_time none lawful
          valid_plan valid_policy refl true tt tt refl in
      (d, rw ran refl)

  -- A verified attestation is admitted on an empty store, and refused the second time.
  replayed_lem :
      IsVerified rt attestation policy demo_time
      → (first : AdmissionDecision) × (second : AdmissionDecision) × (replayed rt attestation policy
          ≡ ok (first, second))
        × (first.admitted ≡ true)
        × (second.admitted ≡ false)
  unfolding replayed consult sqlite_port
  replayed_lem proof =
      let store = some (sqlite_port none) in
      let plan = attestation.plan in
      let hash = attestation_hash rt attestation policy demo_time store in
      let s0 = open_store true [] in
      let (fresh, after, answered, recorded) =
        record_if_new_lem plan.nonce plan.request_commitment hash s0 in
      let (d1, s1, ran1, outcome1) =
        verify_attestation_decides rt attestation policy demo_time store lawful valid_plan
          valid_policy refl fresh s0 after answered in
      let (fresh2, after2, answered2, recorded2) =
        record_if_new_lem plan.nonce plan.request_commitment hash s1 in
      let (d2, s2, ran2, outcome2) =
        verify_attestation_decides rt attestation policy demo_time store lawful valid_plan
          valid_policy refl fresh2 s1 after2 answered2 in
      let new : fresh ≡ true = ground (arith, recorded.answer, empty_memory plan.nonce) in
      let admitted = outcome1.admits.1 (proof, new) in
      let denied =
        admitted_once rt attestation attestation policy policy demo_time demo_time s0 s1 s1 s2 d1 d2
          ran1 admitted Session.begin refl ran2 in
      (d1, d2, rw ran1 (rw ran2 refl), admitted, denied)

verified_alone-eq-ok :
    (rt : Runtime) (a : RouteAttestation) (policy : AdmissionPolicy) {d : AdmissionDecision}
    → verify_attestation {S = Unit {0}} rt a policy demo_time none tt ≡ ok (d, tt)
    → verified_alone rt a policy ≡ ok d
unfolding verified_alone
verified_alone-eq-ok rt a policy ran = rw ran refl

some_receipt :
    (a : RouteAttestation) (plan : RoutePlan)
    → length a.receipts ≡ length a.plan.hop_peer_ids
    → a.plan ≡ plan
    → length a.receipts ≡ length plan.hop_peer_ids
some_receipt a plan count same = count ∙ ap (λ (p : RoutePlan). length p.hop_peer_ids) same

-- What the demo shows. Whether the altered signature is refused is up to Ed25519.
pub record IsShown (r : DemoResults) : Type 0 where
  pub device_local : r.device_local.admitted ≡ true
  pub private_route : r.private_route.admitted ≡ true
  pub loopback_escape : r.loopback_escape.admitted ≡ false
  pub replay_first : r.replay_first.admitted ≡ true
  pub replay_second : r.replay_second.admitted ≡ false

module _ (rt : Runtime) (lawful : IsLawful rt) where
  signed : (name : String) → (s : SignerProvider) × (demo_signer rt name ≡ ok s) × IsKeyPair rt s
  unfolding demo_signer
  signed name =
      from_private_bytes_lem rt lawful (rt.sha256 (encode_utf8 (codes name)))
        (lawful.sha256_size _).0

  -- With lawful primitives the demo runs to its end: the local and the private route are admitted,
  -- the route that leaves the device is not, and the attestation that is verified twice on one
  -- store is admitted the first time only.
  pub run_demo_lem : (r : DemoResults) × (run_demo rt ≡ ok r) × IsShown r
  unfolding run_demo
  run_demo_lem =
      let (here, drawn1, pair1) = signed "device-local" in
      let (private, drawn2, pair2) = signed "private-peer" in
      let (loopback, drawn3, pair3) = signed "loopback-public-peer" in
      let topology_made = demo_topology-eq-ok rt lawful here private loopback pair1 pair2 pair3 in
      let policy_made = demo_policy-eq-ok rt lawful here private loopback pair1 pair2 pair3 in
      let valid = policy-IsValid rt lawful here private loopback pair1 pair2 pair3 in
      let rules = policy rt lawful here private loopback pair1 pair2 pair3 in
      let keys = signers rt lawful here private loopback pair1 pair2 pair3 in
      let (c1, made1, valid1) =
        device-IsPlanned rt lawful here private loopback pair1 pair2 pair3 in
      let (c2, made2, valid2) =
        private-IsPlanned rt lawful here private loopback pair1 pair2 pair3 in
      let (c3, made3, valid3) =
        escape-IsPlanned rt lawful here private loopback pair1 pair2 pair3 in
      let admissible1 = device-IsAdmissible rt lawful here private loopback pair1 pair2 pair3 c1 in
      let admissible2 = private-IsAdmissible rt lawful here private loopback pair1 pair2 pair3 c2 in
      let ready1 = device-IsReady rt lawful here private loopback pair1 pair2 pair3 in
      let ready2 = private-IsReady rt lawful here private loopback pair1 pair2 pair3 in
      let (a1, built1, same1, proof1, (d1, ran1, admitted1)) =
        built-IsVerified rt (device_plan rt lawful here private loopback pair1 pair2 pair3 c1) rules
          keys demo_time demo_time lawful valid1 valid refl refl (omega arith) admissible1
          admissible1 (ready1, tt) in
      let (a2, built2, same2, proof2, (d2, ran2, admitted2)) =
        built-IsVerified rt (private_plan rt lawful here private loopback pair1 pair2 pair3 c2)
          rules keys demo_time demo_time lawful valid2 valid refl refl (omega arith) admissible2
          admissible2 (ready1, (ready2, tt)) in
      let valid_a1 = subst IsValidPlan (sym same1) valid1 in
      let (escape, decided, contract, decides) =
        admit_plan_decides rt (escape_plan rt lawful here private loopback pair1 pair2 pair3 c3)
          rules demo_time lawful valid3 refl in
      let refused : escape.admitted ≡ false = elim (Bool-cases escape.admitted) [
        | inl granted ↦ absurd (
            escape-not-IsAdmissible rt lawful here private loopback pair1 pair2 pair3 c3
              (decides.0 granted))
        | inr denied ↦ denied
      ] in
      let (altered, changed, same_plan) =
        tampered_returns rt a1 (omega (arith, some_receipt a1 _ proof1.count same1)) in
      let (d4, ran4) =
        verified_alone_returns rt lawful altered rules (subst IsValidPlan (sym same_plan) valid_a1)
          valid in
      let (first, second, twice, accepted, replay) =
        replayed_lem rt lawful a1 rules valid_a1 valid proof1 in
      (
        record {
          device_local = d1;
          private_route = d2;
          loopback_escape = escape;
          tampered = d4;
          replay_first = first;
          replay_second = second;
        },
        rw
            (
              drawn1,
              drawn2,
              drawn3,
              topology_made,
              policy_made,
              made1,
              made2,
              made3,
              built1,
              built2,
              verified_alone-eq-ok rt a1 rules ran1,
              verified_alone-eq-ok rt a2 rules ran2,
              decided,
              changed,
              ran4,
              twice,
            )
            refl,
        record {
          device_local = admitted1;
          private_route = admitted2;
          loopback_escape = refused;
          replay_first = accepted;
          replay_second = replay;
        },
      )
