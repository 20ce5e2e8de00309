-- ===== src/Demo/Valid.antt =====
-- The topology, the policy and the plans of the demo keep their contracts, whatever keys are drawn.
use locus_mesh.Base.{
  String, ◌≡◌, refl, subst, inl, inr, true, Option, none, some, List, [], ◌∷◌, arith, length,
  between, contains, all_distinct,
}
use locus_mesh.Fail.{ok, bind-eq-ok}
use locus_mesh.Scope.{
  ExecutionIntent, device_only, private_mesh, public_mesh, observed, peer_asserted,
}
use locus_mesh.Runtime.{Runtime, IsLawful}
use locus_mesh.Json.{obj, field, end, str}
use locus_mesh.Base64.{decode_base64url}
use locus_mesh.Base64.RoundTrip.{decode-eq-ok_iff}
use locus_mesh.Base64.Shape.{is_base64url-encode_base64url}
use locus_mesh.Crypto.{sha256_digest, commit_request, derive_key_id}
use locus_mesh.Crypto.Shape.{is_digest-sha256_digest, commit_request_lem}
use locus_mesh.Models.Patterns.{
  is_peer_id, is_nonce, is_base64url, is_commitment, is_request_id, first_error, flat_errors,
  validated,
}
use locus_mesh.Models.Topology.{
  PeerManifest, TopologySnapshot, AdmissionPolicy, fits_hint, peer_errors, edge_errors,
  topology_errors, policy_errors, dangling, missing_floor, floor_of,
}
use locus_mesh.Models.Route.{RoutePlan, plan_errors, peer_id_errors}
use locus_mesh.Policy.Total.{IsValidPlan}
use locus_mesh.Attestation.Returns.{IsValidPolicy}
use locus_mesh.Attestation.Build.{SignerProvider}
use locus_mesh.Attestation.Signing.{IsKeyPair}
use locus_mesh.Demo.{
  before, after, commitment_key, model_value, runtime_value, edge_between, demo_manifest, demo_plan,
  demo_topology, demo_policy,
}

module _ (rt : Runtime) (lawful : IsLawful rt) where
  key_shape :
      (signer : SignerProvider) → IsKeyPair rt signer → is_base64url 43 signer.public_key ≡ true
  unfolding derive_key_id
  key_shape signer pair =
      let (raw, decoded, made) = bind-eq-ok (decode_base64url signer.public_key 32) _ pair.bound in
      let (encoded, size) = (decode-eq-ok_iff signer.public_key 32 raw).0 decoded in
      subst (λ t. is_base64url 43 t ≡ true) encoded (is_base64url-encode_base64url 32 raw size)

  demo_manifest-IsValid :
      (peer_id : String) (scope : ExecutionIntent) (signer : SignerProvider) (hint : Option String)
      → is_peer_id peer_id ≡ true
      → fits_hint hint ≡ true
      → IsKeyPair rt signer
      → peer_errors (demo_manifest rt peer_id scope signer hint) ≡ []
  unfolding peer_errors demo_manifest first_error
  demo_manifest-IsValid peer_id scope signer hint named hinted pair =
      rw
        (
          named,
          hinted,
          is_digest-sha256_digest rt lawful model_value,
          is_digest-sha256_digest rt lawful runtime_value,
          pair.shape,
          key_shape signer pair,
        )
        refl

  abbrev pub the_plan : String → String → ExecutionIntent → List String → String → RoutePlan
  the_plan request_id nonce intent hops commitment = record {
    schema_version = "locusmesh.route-plan.v1";
    request_id = request_id;
    nonce = nonce;
    request_commitment = commitment;
    intent = intent;
    model_digest = sha256_digest rt model_value;
    runtime_digest = sha256_digest rt runtime_value;
    hop_peer_ids = hops;
    created_at = before 300;
    expires_at = after 300;
  }

  committed :
      (request_id : String)
      → (c : String) × (commit_request rt
            (obj (field "operation" (str "classify") (field "request_id" (str request_id) end)))
            commitment_key
          ≡ ok c)
        × (is_commitment c ≡ true)
  committed request_id =
      elim (commit_request_lem rt lawful
        (obj (field "operation" (str "classify") (field "request_id" (str request_id) end)))
        commitment_key) [
          | inl (long, made) ↦ made
          | inr (short, refused) ↦ absurd (omega (arith, short))
        ]

  -- A plan of the demo, whose parameters are well formed, can be made.
  pub planned :
      (request_id nonce : String) (intent : ExecutionIntent) (hops : List String)
      → is_request_id request_id ≡ true
      → is_nonce nonce ≡ true
      → between 1 64 (length hops) ≡ true
      → flat_errors peer_id_errors hops ≡ []
      → (c : String) × (demo_plan rt request_id nonce intent hops
          ≡ ok (the_plan request_id nonce intent hops c))
        × IsValidPlan (the_plan request_id nonce intent hops c)
  unfolding demo_plan validated plan_errors first_error
  planned request_id nonce intent hops named once size ids =
      let (c, made, shape) = committed request_id in
      let model = is_digest-sha256_digest rt lawful model_value in
      let runtime = is_digest-sha256_digest rt lawful runtime_value in
      (
        c,
        rw made (rw (shape, model, runtime, named, once, size, ids) refl),
        rw (shape, model, runtime, named, once, size, ids) refl,
      )

  module _ (here private loopback : SignerProvider) (pair1 : IsKeyPair rt here)
      (pair2 : IsKeyPair rt private) (pair3 : IsKeyPair rt loopback) where
    abbrev pub device_peer : PeerManifest
    device_peer = demo_manifest rt "device-local" device_only here none

    abbrev pub private_peer : PeerManifest
    private_peer = demo_manifest rt "private-peer" private_mesh private none

    abbrev pub public_peer : PeerManifest
    public_peer =
        demo_manifest rt "loopback-public" public_mesh loopback (some "http://127.0.0.1:8080")

    abbrev pub the_topology : TopologySnapshot
    the_topology = record {
      schema_version = "locusmesh.topology-snapshot.v1";
      snapshot_id = "demo-topology-v1";
      local_peer_id = "device-local";
      captured_at = before 3600;
      expires_at = after 3600;
      peers = device_peer ∷ private_peer ∷ public_peer ∷ [];
      edges =
          edge_between "device-local" "private-peer"
          ∷ edge_between "device-local" "loopback-public"
          ∷ [];
    }

    abbrev pub the_policy : AdmissionPolicy
    the_policy = record {
      schema_version = "locusmesh.admission-policy.v1";
      allowed_intents = device_only ∷ private_mesh ∷ [];
      max_hops = 3;
      minimum_evidence = (device_only, observed) ∷ (private_mesh, peer_asserted) ∷ [];
      topology = the_topology;
    }

    device-IsValid : peer_errors device_peer ≡ []
    unfolding is_peer_id fits_hint
    device-IsValid = demo_manifest-IsValid "device-local" device_only here none refl refl pair1

    private-IsValid : peer_errors private_peer ≡ []
    unfolding is_peer_id fits_hint
    private-IsValid = demo_manifest-IsValid "private-peer" private_mesh private none refl refl pair2

    public-IsValid : peer_errors public_peer ≡ []
    unfolding is_peer_id fits_hint
    public-IsValid =
        demo_manifest-IsValid "loopback-public" public_mesh loopback (some "http://127.0.0.1:8080")
          refl refl pair3

    topology-IsValid : topology_errors the_topology ≡ []
    unfolding topology_errors edge_errors is_peer_id first_error demo_manifest contains all_distinct
        dangling
    topology-IsValid = rw (device-IsValid, private-IsValid, public-IsValid) refl

    pub policy-IsValid : IsValidPolicy the_policy
    unfolding policy_errors first_error missing_floor floor_of
    policy-IsValid = rw topology-IsValid refl

    pub demo_topology-eq-ok : demo_topology rt here private loopback ≡ ok the_topology
    unfolding demo_topology validated edge_errors is_peer_id first_error
    demo_topology-eq-ok =
        rw (device-IsValid, private-IsValid, public-IsValid, topology-IsValid) refl

    pub demo_policy-eq-ok : demo_policy rt the_topology ≡ ok the_policy
    unfolding demo_policy validated
    demo_policy-eq-ok = rw policy-IsValid refl
