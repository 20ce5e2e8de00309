-- ===== src/Examples/Commands.antt =====
-- The commands on the two-hop route, and the bounds of its decision.
use locus_mesh.Files.Yaml.{Loader, construct_unique_mapping}
use locus_mesh.Files.Yaml.Unique.{IsMapping, construct_unique_mapping_iff}
use locus_mesh.Base.{
  ◌↔◌, ◌==◌, string_eq, ◌∷◌, String, ◌≡◌, refl, ◌⊎◌, true, false, none, some, List, [],
}
use locus_mesh.Fail.{ok, err, value_error}
use locus_mesh.Policy.Admit.{decision}
use locus_mesh.Policy.Spec.{IsAdmissible}
use locus_mesh.Policy.Total.{admit_plan-eq-ok}
use locus_mesh.Policy.Effective.{IsBounded, admit_plan-IsBounded}
use locus_mesh.Json.{Json}
use locus_mesh.Attestation.Spec.{IsVerified}
use locus_mesh.Cli.{main, run_admit, run_verify, result_of}
use locus_mesh.Cli.Exit.{IsDecided, admit_exit, NotStored, verify_exits, main_error_lem}
use locus_mesh.Examples.Runs.{plan_admission}
use locus_mesh.Examples.Routes.{plan-IsValid, policy-IsValid}
use locus_mesh.Examples.Data.{constant, constant-IsLawful, at, policy, plan, attestation}

admitted_at_500 : (decision constant plan policy (at 500)).admitted ≡ true
unfolding plan_admission
admitted_at_500 = refl

admit_plan-IsBounded_example : IsBounded plan policy (decision constant plan policy (at 500))
admit_plan-IsBounded_example =
    admit_plan-IsBounded constant plan policy (at 500) (decision constant plan policy (at 500))
      plan-IsValid
      (admit_plan-eq-ok constant plan policy (at 500) constant-IsLawful plan-IsValid refl)
      admitted_at_500

abbrev pub text_of_errors : List String → String
text_of_errors errors = "invalid"

admit_exit_example :
    IsDecided
      (IsAdmissible constant plan policy (at 500))
      3
      (main text_of_errors "admit" (run_admit constant (at 500) (ok policy) (ok plan)))
admit_exit_example =
    admit_exit constant (at 500) plan policy text_of_errors constant-IsLawful plan-IsValid refl

verify_exits_example :
    IsDecided
      (IsVerified constant attestation policy (at 500) × NotStored attestation.plan.nonce (some []))
      4
      (main text_of_errors "verify"
        (result_of (run_verify constant (at 500) (some []) none (ok policy) (ok attestation))))
verify_exits_example =
    verify_exits constant (at 500) attestation policy text_of_errors (some []) constant-IsLawful
      plan-IsValid policy-IsValid refl

main_error_lem_example :
    (((main text_of_errors "verify" (err (value_error "no"))).0 ≡ 1)
      ⊎ ((main text_of_errors "verify" (err (value_error "no"))).0 ≡ 2))
    × ((main text_of_errors "verify" (err (value_error "no"))).1.ok ≡ false)
    × ((main text_of_errors "verify" (err (value_error "no"))).1.data_of ≡ none)
main_error_lem_example = main_error_lem text_of_errors "verify" (value_error "no")

abbrev two_pairs : List (String × Json)
two_pairs = ("a", Json.null) ∷ ("b", Json.null) ∷ []

-- A loader whose nodes are texts.
abbrev plain_loader : Loader String String
plain_loader = record {
  flatten_mapping = λ node. ok node;
  construct_object = λ node. ok node;
  hash = λ key. ok tt;
  same = λ k l. k == l;
  text = λ key. key;
}

abbrev two_nodes : List (String × String)
two_nodes = ("a", "1") ∷ ("b", "2") ∷ []

construct_unique_mapping_iff_example :
    (construct_unique_mapping plain_loader two_nodes ≡ ok two_nodes)
    ↔ IsMapping plain_loader two_nodes two_nodes
construct_unique_mapping_iff_example = construct_unique_mapping_iff plain_loader two_nodes two_nodes
