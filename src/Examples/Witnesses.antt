-- ===== src/Examples/Witnesses.antt =====
-- The theorems on the two-hop route: one run, a second run with the same nonce, and the digests.
use mathlib.Core.List.{Permᴰ}
use locus_mesh.Base.{
  Bool, ◌<◌, ◌⊎◌, length, ◌≤◌, String, ◌≡◌, refl, ◌↔◌, true, false, none, some, [], ◌∷◌, arith,
  Distinct, all_distinct_iff,
}
use locus_mesh.Fail.{ok, err, value_error}
use locus_mesh.Scope.{intent_eq, device_only, private_mesh, peer_asserted, observed}
use locus_mesh.Json.{Json}
use locus_mesh.Crypto.{commit_request}
use locus_mesh.Crypto.Shape.{commit_request_lem}
use locus_mesh.Models.Patterns.{is_commitment}
use locus_mesh.Models.Route.{RouteAttestation}
use locus_mesh.Policy.Sound.{decision-admitted_iff}
use locus_mesh.Attestation.Spec.{IsVerified}
use locus_mesh.Attestation.Build.{SignerProvider, build_attestation, from_private_bytes}
use locus_mesh.Attestation.Signing.{IsKeyPair, from_private_bytes_lem}
use locus_mesh.Attestation.Made.{IsReady}
use locus_mesh.Attestation.Built.{built-IsVerified}
use locus_mesh.Base64.{encode_base64url, decode_base64url}
use locus_mesh.Base64.RoundTrip.{decode-eq-ok_iff}
use locus_mesh.Runtime.{IsBytes}
use locus_mesh.Models.Topology.{topology_errors}
use locus_mesh.Models.Decision.{AdmissionDecision, decision_errors}
use locus_mesh.Policy.Admit.{decision, admit_plan}
use locus_mesh.Policy.Spec.{IsAdmissible}
use locus_mesh.Policy.Digest.{policy_digest}
use locus_mesh.Policy.Total.{admit_plan_decides}
use locus_mesh.Policy.Invariance.{policy_digest-perm}
use locus_mesh.Replay.{SqliteReplayStore, open_store, sqlite_port, close, record_if_new, Row}
use locus_mesh.Replay.Laws.{Recorded, record_if_new_lem}
use locus_mesh.Attestation.Verify.{verify_attestation, as_verification, deny, consult}
use locus_mesh.Attestation.Outcome.{IsOutcome, verify_attestation_decides}
use locus_mesh.Attestation.Session.{Session, admitted_once}
use locus_mesh.Examples.Runs.{contracts, plan_admission, building, verification, storage}
use locus_mesh.Examples.Routes.{plan-IsValid, policy-IsValid, admitted}
use locus_mesh.Examples.Data.{
  constant, constant-IsLawful, signer, signers, zeros, at, manifest, topology, policy, plan,
  attestation, zero_digest, edge, snapshot,
}

abbrev empty_store : SqliteReplayStore
empty_store = open_store false []

abbrev row : Row
row = record {
  nonce = "nonce-0123456789";
  request_commitment =
      "hmac-sha256:0000000000000000000000000000000000000000000000000000000000000000";
  attestation_digest = zero_digest;
}

abbrev pub used_store : SqliteReplayStore
used_store = record { memory = false; connected = true; rows = row ∷ [] }

abbrev first_decision : AdmissionDecision
first_decision = record (as_verification (decision constant plan policy (at 500)) zero_digest) {
  effective_evidence = some peer_asserted;
}

abbrev pub second_decision : AdmissionDecision
second_decision =
    deny (decision constant plan policy (at 500)) ("REPLAY_DETECTED" ∷ []) 2 zero_digest

first_run :
    verify_attestation constant attestation policy (at 500) (some (sqlite_port none)) empty_store
    ≡ ok (first_decision, used_store)
unfolding verification storage
first_run = refl

pub second_run :
    verify_attestation constant attestation policy
      (at 500)
      (some (sqlite_port none))
      (close used_store)
    ≡ ok (second_decision, used_store)
unfolding verification storage
second_run = refl

first_admitted : first_decision.admitted ≡ true
unfolding verification
first_admitted = refl

fresh_answer :
    consult (some (sqlite_port none)) plan.nonce plan.request_commitment zero_digest empty_store
    ≡ ok (true, used_store)
unfolding verification storage
fresh_answer = refl

verify_attestation_decides_example :
    (d : AdmissionDecision) × (last : SqliteReplayStore) × (verify_attestation constant attestation
        policy
        (at 500)
        (some (sqlite_port none))
        empty_store
      ≡ ok (d, last))
    × IsOutcome constant attestation policy
        (at 500)
        (some (sqlite_port none))
        true
        empty_store
        used_store
        d
        last
unfolding verification
verify_attestation_decides_example =
    verify_attestation_decides constant attestation policy (at 500) (some (sqlite_port none))
      constant-IsLawful plan-IsValid policy-IsValid refl true empty_store used_store fresh_answer

admit_plan_decides_example :
    (d : AdmissionDecision) × (admit_plan constant plan policy (at 500) ≡ ok d)
    × (decision_errors d ≡ [])
    × ((d.admitted ≡ true) ↔ IsAdmissible constant plan policy (at 500))
admit_plan_decides_example =
    admit_plan_decides constant plan policy (at 500) constant-IsLawful plan-IsValid refl

admitted_once_example : second_decision.admitted ≡ false
admitted_once_example =
    admitted_once constant attestation attestation policy policy (at 500) (at 500) empty_store
      used_store (close used_store) used_store first_decision second_decision first_run
      first_admitted (Session.reopen Session.begin refl) refl second_run

record_if_new_lem_example :
    (fresh : Bool) × (after : SqliteReplayStore) × (record_if_new none plan.nonce "c" "d" used_store
      ≡ ok (fresh, after))
    × Recorded plan.nonce used_store fresh after
record_if_new_lem_example = record_if_new_lem plan.nonce "c" "d" used_store

decode-eq-ok_iff_example :
    (decode_base64url "AQID" 3 ≡ ok (1 ∷ 2 ∷ 3 ∷ []))
    ↔ ((encode_base64url (1 ∷ 2 ∷ 3 ∷ []) ≡ "AQID") × IsBytes 3 (1 ∷ 2 ∷ 3 ∷ []))
decode-eq-ok_iff_example = decode-eq-ok_iff "AQID" 3 (1 ∷ 2 ∷ 3 ∷ [])

topology-IsValid : topology_errors topology ≡ []
unfolding contracts
topology-IsValid = refl

intents-Distinct : Distinct policy.allowed_intents
unfolding contracts
intents-Distinct = (all_distinct_iff policy.allowed_intents).0 refl

floors-Distinct : Distinct (device_only ∷ private_mesh ∷ [])
floors-Distinct = intents-Distinct

policy_digest-perm_example :
    policy_digest constant policy
    ≡ policy_digest constant (record policy {
      allowed_intents = private_mesh ∷ device_only ∷ [];
      minimum_evidence = (private_mesh, peer_asserted) ∷ (device_only, observed) ∷ [];
      topology =
          snapshot
            (manifest "peer" private_mesh ∷ manifest "device" device_only ∷ [])
            (edge "device" "peer" ∷ []);
    })
policy_digest-perm_example =
    policy_digest-perm constant policy (private_mesh ∷ device_only ∷ [])
      ((private_mesh, peer_asserted) ∷ (device_only, observed) ∷ [])
      (manifest "peer" private_mesh ∷ manifest "device" device_only ∷ [])
      (edge "device" "peer" ∷ []) topology-IsValid intents-Distinct floors-Distinct
      (Permᴰ.swap refl refl) (Permᴰ.swap refl refl) (Permᴰ.swap refl refl)
      (Permᴰ.cons refl Permᴰ.nil)

signer-IsKeyPair : IsKeyPair constant signer
unfolding verification
signer-IsKeyPair = record { bound = refl; shape = refl; signs = λ payload. refl }

pub device-IsReady : IsReady constant policy signers "device"
unfolding building
device-IsReady = record {
  signer = signer;
  manifest = manifest "device" device_only;
  found = refl;
  listed = refl;
  pair = signer-IsKeyPair;
  same_id = refl;
  same_key = refl;
}

pub peer-IsReady : IsReady constant policy signers "peer"
unfolding building
peer-IsReady = record {
  signer = signer;
  manifest = manifest "peer" private_mesh;
  found = refl;
  listed = refl;
  pair = signer-IsKeyPair;
  same_id = refl;
  same_key = refl;
}

pub admitted_at_400 : (decision constant plan policy (at 400)).admitted ≡ true
unfolding plan_admission
admitted_at_400 = refl

built-IsVerified_example :
    (a : RouteAttestation) × (build_attestation constant plan policy signers (at 400) none ≡ ok a)
    × (a.plan ≡ plan)
    × IsVerified constant a policy (at 500)
    × ((d : AdmissionDecision) × (verify_attestation {S = Unit {0}} constant a policy
            (at 500)
            none
            tt
          ≡ ok (d, tt))
        × (d.admitted ≡ true))
built-IsVerified_example =
    built-IsVerified constant plan policy signers (at 400) (at 500) constant-IsLawful plan-IsValid
      policy-IsValid refl refl (omega arith)
      ((decision-admitted_iff constant plan policy (at 400)).0 admitted_at_400)
      ((decision-admitted_iff constant plan policy (at 500)).0 admitted)
      (device-IsReady, (peer-IsReady, tt))

from_private_bytes_lem_example :
    (s : SignerProvider) × (from_private_bytes constant (zeros 32) ≡ ok s) × IsKeyPair constant s
from_private_bytes_lem_example = from_private_bytes_lem constant constant-IsLawful (zeros 32) refl

commit_request_lem_example :
    ((32 ≤ length (zeros 32))
      × ((c : String) × (commit_request constant Json.null (zeros 32) ≡ ok c)
          × (is_commitment c ≡ true)))
    ⊎ ((length (zeros 32) < 32)
        × (commit_request constant Json.null (zeros 32)
            ≡ err (value_error "commitment key must contain at least 32 bytes")))
commit_request_lem_example = commit_request_lem constant constant-IsLawful Json.null (zeros 32)
