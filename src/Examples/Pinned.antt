-- ===== src/Examples/Pinned.antt =====
-- Two verified attestations that differ in the times of their receipts.
use locus_mesh.Base.{◌≡◌, ◌⊎◌, refl, true, some, none, [], ◌∷◌}
use locus_mesh.Models.Route.{HopReceipt, RouteAttestation}
use locus_mesh.Policy.Digest.{policy_digest}
use locus_mesh.Attestation.Spec.{IsVerified}
use locus_mesh.Attestation.Pinned.{SamePlan}
use locus_mesh.Attestation.ChainPinned.{Alike, CollideAmong, documents}
use locus_mesh.Attestation.LastReceipt.{attestation_pinned}
use locus_mesh.Cli.Safety.{admitted-IsVerified}
use locus_mesh.Examples.Runs.{verification}
use locus_mesh.Examples.Routes.{plan-IsValid, policy-IsValid}
use locus_mesh.Examples.Data.{
  constant, constant-IsLawful, at, policy, receipt, attestation, zero_digest,
}

abbrev at_450 : HopReceipt → HopReceipt
at_450 r = record r { observed_at = at 450 }

abbrev last : HopReceipt
last = receipt 1 "peer" (some "device") none (some zero_digest)

abbrev later : RouteAttestation
later = record attestation {
  receipts = at_450 (receipt 0 "device" none (some "peer") none) ∷ at_450 last ∷ [];
}

attestation-IsVerified : IsVerified constant attestation policy (at 500)
unfolding verification
attestation-IsVerified =
    (admitted-IsVerified constant (at 500) attestation policy constant-IsLawful refl policy-IsValid
      plan-IsValid {S = Unit {0}} none true tt tt tt _ refl refl refl).0

later-IsVerified : IsVerified constant later policy (at 600)
unfolding verification
later-IsVerified =
    (admitted-IsVerified constant (at 600) later policy constant-IsLawful refl policy-IsValid
      plan-IsValid {S = Unit {0}} none true tt tt tt _ refl refl refl).0

attestation_pinned_example :
    (SamePlan constant attestation.plan later.plan
      × Alike constant attestation.receipts later.receipts
      × (policy_digest constant policy ≡ policy_digest constant policy))
    ⊎ CollideAmong constant (documents constant attestation) (documents constant later)
attestation_pinned_example =
    attestation_pinned constant constant-IsLawful attestation later policy policy (at 500) (at 600)
      last (at_450 last) attestation-IsVerified later-IsVerified refl refl refl
