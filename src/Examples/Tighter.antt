-- ===== src/Examples/Tighter.antt =====
-- The two-hop plan under a policy that allows more hops and every intent.
use locus_mesh.Base.{◌≡◌, refl, true, inl, inr, [], ◌∷◌, arith}
use locus_mesh.Fail.{ok}
use locus_mesh.Scope.{device_only, private_mesh, public_mesh}
use locus_mesh.Models.Topology.{AdmissionPolicy}
use locus_mesh.Models.Decision.{AdmissionDecision}
use locus_mesh.Policy.Admit.{decision, admit_plan}
use locus_mesh.Policy.Tighter.{IsTighter, admit_plan-IsTighter}
use locus_mesh.Examples.Runs.{plan_admission}
use locus_mesh.Examples.Routes.{plan-IsValid, admitted}
use locus_mesh.Examples.Witnesses.{admitted_at_400}
use locus_mesh.Examples.Data.{constant, constant-IsLawful, at, policy, plan}

abbrev looser : AdmissionPolicy
looser = record policy {
  allowed_intents = device_only ∷ private_mesh ∷ public_mesh ∷ [];
  max_hops = 9;
}

policy-IsTighter : IsTighter policy looser
policy-IsTighter = record {
  intents = λ i h. elim h [
    | inl here ↦ inl here
    | inr later ↦ elim later [ inl there ↦ inr (inl there) | inr never ↦ absurd never ]
  ];
  hops = omega arith;
  floors = λ i. omega arith;
  peers = refl;
  local_peer = refl;
  edges = λ e h. h;
  from = omega arith;
  until = omega arith;
}

first_run : admit_plan constant plan policy (at 400) ≡ ok (decision constant plan policy (at 400))
unfolding plan_admission
first_run = refl

last_run : admit_plan constant plan policy (at 500) ≡ ok (decision constant plan policy (at 500))
unfolding plan_admission
last_run = refl

admit_plan-IsTighter_example :
    (d : AdmissionDecision) × (admit_plan constant plan looser (at 450) ≡ ok d)
    × (d.admitted ≡ true)
admit_plan-IsTighter_example =
    admit_plan-IsTighter constant plan policy looser (at 400) (at 450) (at 500) policy-IsTighter
      (omega arith) (omega arith) constant-IsLawful plan-IsValid refl
      (decision constant plan policy (at 400)) (decision constant plan policy (at 500)) first_run
      admitted_at_400 last_run admitted
