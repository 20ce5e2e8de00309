-- ===== src/Demo/Routes.antt =====
-- The plans of the demo under its policy: two may be admitted, the third leaves the device.
use mathlib.Core.Bool.{false≢true}
use locus_mesh.Base.{
  Distinct, all_distinct, contains, all_distinct_iff, string_eq, eq_iff, String, ◌≡◌, refl, sym,
  ◌≤◌, inl, inr, none, List, [], ◌∷◌, arith,
}
use locus_mesh.Fail.{Result, ok}
use locus_mesh.Scope.{ExecutionIntent, device_only, private_mesh, peer_asserted, scope_rank}
use locus_mesh.Runtime.{Runtime, IsLawful}
use locus_mesh.Crypto.{sha256_digest}
use locus_mesh.Models.Patterns.{is_nonce, is_peer_id, flat_errors}
use locus_mesh.Models.Topology.{AdmissionPolicy, floor_of}
use locus_mesh.Models.Route.{RoutePlan}
use locus_mesh.Policy.Admit.{peer_of}
use locus_mesh.Policy.Spec.{AtLeast, IsEligible, IsAdmissible}
use locus_mesh.Policy.Total.{IsValidPlan}
use locus_mesh.Attestation.Build.{SignerProvider, entry}
use locus_mesh.Attestation.Signing.{IsKeyPair}
use locus_mesh.Attestation.Made.{IsReady}
use locus_mesh.Demo.{demo_time, model_value, runtime_value, demo_manifest, demo_plan}
use locus_mesh.Demo.Valid.{the_plan, planned, device_peer, private_peer, the_policy}

two_hops : Distinct {A = String} ("device-local" ∷ "private-peer" ∷ [])
unfolding all_distinct contains
two_hops = (all_distinct_iff {A = String} ("device-local" ∷ "private-peer" ∷ [])).0 refl

other_hop : ¬ (◌≡◌ {A = List String} ("loopback-public" ∷ []) ("device-local" ∷ []))
other_hop e = false≢true ((eq_iff "loopback-public" "device-local").1 (cc e))

module _ (rt : Runtime) (lawful : IsLawful rt) (here private loopback : SignerProvider)
    (pair1 : IsKeyPair rt here) (pair2 : IsKeyPair rt private) (pair3 : IsKeyPair rt loopback) where
  abbrev pub policy : AdmissionPolicy
  policy = the_policy rt lawful here private loopback pair1 pair2 pair3

  abbrev pub signers : List (String × SignerProvider)
  signers = ("device-local", here) ∷ ("private-peer", private) ∷ ("loopback-public", loopback) ∷ []

  abbrev pub device_plan : String → RoutePlan
  device_plan c =
      the_plan rt lawful "demo-device" "nonce-device-0001" device_only ("device-local" ∷ []) c

  abbrev pub private_plan : String → RoutePlan
  private_plan c =
      the_plan rt lawful "demo-private" "nonce-private-001" private_mesh
        ("device-local" ∷ "private-peer" ∷ []) c

  abbrev pub escape_plan : String → RoutePlan
  escape_plan c =
      the_plan rt lawful "demo-loopback-escape" "nonce-loopback-01" device_only
        ("loopback-public" ∷ []) c

  eligible :
      (peer_id : String) (scope : ExecutionIntent) (signer : SignerProvider) (plan : RoutePlan)
      → IsKeyPair rt signer
      → scope_rank scope ≤ scope_rank plan.intent
      → plan.model_digest ≡ sha256_digest rt model_value
      → plan.runtime_digest ≡ sha256_digest rt runtime_value
      → AtLeast (floor_of plan.intent policy.minimum_evidence) peer_asserted
      → IsEligible rt plan policy demo_time (demo_manifest rt peer_id scope signer none)
  unfolding demo_manifest
  eligible peer_id scope signer plan pair within model runtime floor = record {
    window = record { started = omega arith; running = omega arith };
    scope = within;
    model = sym model;
    runtime = sym runtime;
    bound = pair.bound;
    floor = floor;
  }

  pub device-IsAdmissible : (c : String) → IsAdmissible rt (device_plan c) policy demo_time
  unfolding peer_of demo_manifest floor_of
  device-IsAdmissible c = record {
    route = record {
      intent = inl refl;
      plan_window = record { started = omega arith; running = omega arith };
      topology_window = record { started = omega arith; running = omega arith };
      hop_count = omega arith;
      no_repeat = (λ i. i, tt);
      local_only = λ e. refl;
      edges = tt;
      supported = λ e. cc e;
    };
    hops = (
      eligible "device-local" device_only here (device_plan c) pair1 (omega arith) refl refl
          (omega arith),
      tt,
    );
  }

  pub private-IsAdmissible : (c : String) → IsAdmissible rt (private_plan c) policy demo_time
  unfolding peer_of floor_of demo_manifest
  private-IsAdmissible c = record {
    route = record {
      intent = inr (inl refl);
      plan_window = record { started = omega arith; running = omega arith };
      topology_window = record { started = omega arith; running = omega arith };
      hop_count = omega arith;
      no_repeat = two_hops;
      local_only = λ e. cc e;
      edges = (inl refl, tt);
      supported = λ e. cc e;
    };
    hops = (
      eligible "device-local" device_only here (private_plan c) pair1 (omega arith) refl refl
          (omega arith),
      (
        eligible "private-peer" private_mesh private (private_plan c) pair2 (omega arith) refl refl
            (omega arith),
        tt,
      ),
    );
  }

  pub device-IsReady : IsReady rt policy signers "device-local"
  unfolding peer_of entry demo_manifest
  device-IsReady = record {
    signer = here;
    manifest = device_peer rt lawful here private loopback pair1 pair2 pair3;
    found = refl;
    listed = refl;
    pair = pair1;
    same_id = refl;
    same_key = refl;
  }

  pub private-IsReady : IsReady rt policy signers "private-peer"
  unfolding peer_of entry demo_manifest
  private-IsReady = record {
    signer = private;
    manifest = private_peer rt lawful here private loopback pair1 pair2 pair3;
    found = refl;
    listed = refl;
    pair = pair2;
    same_id = refl;
    same_key = refl;
  }

  -- A plan for this device that leaves it.
  pub escape-not-IsAdmissible : (c : String) → ¬ IsAdmissible rt (escape_plan c) policy demo_time
  escape-not-IsAdmissible c a = other_hop (a.route.local_only refl)

  abbrev pub IsPlanned : Result RoutePlan → (String → RoutePlan) → Type 0
  IsPlanned made plan = (c : String) × (made ≡ ok (plan c)) × IsValidPlan (plan c)

  pub device-IsPlanned :
      IsPlanned
        (demo_plan rt "demo-device" "nonce-device-0001" device_only ("device-local" ∷ []))
        device_plan
  unfolding is_nonce is_peer_id flat_errors
  device-IsPlanned =
      planned rt lawful "demo-device" "nonce-device-0001" device_only ("device-local" ∷ []) refl
        refl refl refl

  pub private-IsPlanned :
      IsPlanned
        (demo_plan rt "demo-private" "nonce-private-001" private_mesh
          ("device-local" ∷ "private-peer" ∷ []))
        private_plan
  unfolding is_nonce is_peer_id flat_errors
  private-IsPlanned =
      planned rt lawful "demo-private" "nonce-private-001" private_mesh
        ("device-local" ∷ "private-peer" ∷ []) refl refl refl refl

  pub escape-IsPlanned :
      IsPlanned
        (demo_plan rt "demo-loopback-escape" "nonce-loopback-01" device_only
          ("loopback-public" ∷ []))
        escape_plan
  unfolding is_nonce is_peer_id flat_errors
  escape-IsPlanned =
      planned rt lawful "demo-loopback-escape" "nonce-loopback-01" device_only
        ("loopback-public" ∷ []) refl refl refl refl
