-- ===== src/Examples/Claimed.antt =====
-- A hop that claims less than its manifest does, and a number's digits.
use locus_mesh.Base.{String, ◌≡◌, ◌↔◌, refl, Option, some, List, [], ◌∷◌, arith, All}
use locus_mesh.Fail.{ok}
use locus_mesh.Scope.{EvidenceLevel, observed}
use locus_mesh.Models.Route.{RouteAttestation}
use locus_mesh.Policy.Sound.{decision-admitted_iff}
use locus_mesh.Attestation.Spec.{IsVerified}
use locus_mesh.Attestation.Build.{build_attestation}
use locus_mesh.Attestation.Made.{IsClaimed}
use locus_mesh.Attestation.Built.{built-IsVerified_iff}
use locus_mesh.Examples.Routes.{plan-IsValid, policy-IsValid, admitted}
use locus_mesh.Examples.Witnesses.{device-IsReady, peer-IsReady, admitted_at_400}
use locus_mesh.Examples.Data.{constant, constant-IsLawful, signers, at, policy, plan}

abbrev levels : Option (List (String × EvidenceLevel))
levels = some (("device", observed) ∷ [])

built-IsVerified_iff_example :
    (a : RouteAttestation) × (build_attestation constant plan policy signers (at 400) levels ≡ ok a)
    × (a.plan ≡ plan)
    × (IsVerified constant a policy (at 500) ↔ All (IsClaimed plan policy levels) plan.hop_peer_ids)
built-IsVerified_iff_example =
    built-IsVerified_iff constant plan policy signers (at 400) (at 500) levels constant-IsLawful
      plan-IsValid policy-IsValid refl (omega arith)
      ((decision-admitted_iff constant plan policy (at 400)).0 admitted_at_400)
      ((decision-admitted_iff constant plan policy (at 500)).0 admitted)
      (device-IsReady, (peer-IsReady, tt))
