-- ===== src/Cli/Streams.antt =====
-- cli.py: the exit code and the two streams of a run.
use locus_mesh.Base.{
  ℕ, String, ◌≡◌, refl, ◌↔◌, inl, inr, Bool, true, false, List, [], ◌∷◌, ◌++◌, arith,
}
use locus_mesh.Fail.{
  Exn, value_error, type_error, key_error, overflow_error, index_error, os_error, http_error,
  validation_error, yaml_error, sqlite_error, fabric_observation_error, assertion_error,
  http_exception, recursion_error, Result, ok, err,
}
use locus_mesh.Runtime.{Runtime}
use locus_mesh.Cli.{CliResult, main}
use locus_mesh.Cli.Exit.{main_error_lem}
use locus_mesh.Cli.Codes.{IsCode, main_command_codes}
use locus_mesh.Cli.Dumps.{dumps}
use locus_mesh.Cli.Print.{envelope_json, printed, process}
use locus_mesh.Cli.Printable.{IsLine, dumps-IsLine}
use locus_mesh.Cli.Run.{Command, World, command_name, run, without_effect, main_command}

module _ (rt : Runtime) (details : List String → String) (command : String) where
  abbrev IsQuiet : Result CliResult → Type 0
  IsQuiet r = (printed rt false (main details command r).1).stderr ≡ []

  -- Every handler prints a line.
  complains : (e : Exn) → ¬ IsQuiet (err e)
  unfolding main printed
  complains (validation_error m) h = cc h
  complains (yaml_error m) h = cc h
  complains (sqlite_error m) h = cc h
  complains (fabric_observation_error m) h = cc h
  complains (os_error m) h = cc h
  complains (http_error m) h = cc h
  complains (value_error m) h = cc h
  complains (type_error m) h = cc h
  complains (key_error m) h = cc h
  complains (overflow_error m) h = cc h
  complains (index_error m) h = cc h
  complains (assertion_error m) h = cc h
  complains (http_exception m) h = cc h
  complains (recursion_error m) h = cc h

  shown : (x : CliResult) (b : Bool) → x.ok ≡ b → IsQuiet (ok x) ↔ (b ≡ true)
  unfolding main printed
  shown x true h = (λ _. refl, λ _. rw h refl)
  shown x false h = (λ q. cc (rw h at q), λ f. cc)

  IsQuiet-iff :
      (r : Result CliResult)
      → IsCode (main details command r).1.ok (main details command r).0
      → IsQuiet r ↔ ((main details command r).0 ≡ 0)
  IsQuiet-iff (ok x) codes =
      let (to, from) = shown x x.ok refl in
      unfold main in (λ q. codes.agrees.0 (to q), λ z. from (codes.agrees.1 z))
  IsQuiet-iff (err e) codes =
      let (code, _, _) = main_error_lem details command e in
      (
        λ q. absurd (complains e q),
        λ z. elim code [
          | inl one ↦ absurd (omega (arith, z, one))
          | inr two ↦ absurd (omega (arith, z, two))
        ],
      )

-- With --json a run prints, whatever happens, one line of printable ASCII, which is the JSON of its
-- envelope; without it the run prints nothing on stderr exactly if it exits with 0.
pub process_streams :
    (rt : Runtime) (w : World) (details : List String → String) (command : Command)
    → ((line : List ℕ) × ((process rt w details true command).1.stdout ≡ line ++ (10 ∷ []))
        × IsLine line
        × (line ≡ dumps (envelope_json rt (main_command rt w details command).1)))
      × (((process rt w details false command).1.stderr ≡ [])
          ↔ ((process rt w details false command).0 ≡ 0))
unfolding process printed main_command
process_streams rt w details command = (
  (dumps (envelope_json rt (main_command rt w details command).1), refl, dumps-IsLine _, refl),
  IsQuiet-iff rt details (command_name command) (without_effect (run rt w command))
      (main_command_codes rt w details command),
)
