-- ===== src/Examples/Streams.antt =====
-- What the commands print.
use locus_mesh.Base.{ℕ, ◌≡◌, ◌↔◌, refl, true, false, List, [], ◌∷◌, ◌++◌, codes}
use locus_mesh.Json.{Json, obj, str, arr, num, null, canonical_json_bytes}
use locus_mesh.Policy.Digest.{fields_of, items_of}
use locus_mesh.Cli.Dumps.{escape_ascii, quoted_ascii, dumps, dumps_indented}
use locus_mesh.Cli.Print.{envelope_json, process}
use locus_mesh.Cli.Printable.{IsLine}
use locus_mesh.Cli.Streams.{process_streams}
use locus_mesh.Cli.Run.{main_command}
use locus_mesh.Examples.Commands.{text_of_errors}
use locus_mesh.Examples.Worlds.{world, verify_command}
use locus_mesh.Examples.Data.{constant}

abbrev value : Json
value = obj (fields_of (("b", arr (items_of (num 1 ∷ null ∷ []))) ∷ ("a", str "e\"\n") ∷ []))

on_one_line : dumps value ≡ codes "{\"a\": \"e\\\"\\n\", \"b\": [1, null]}"
unfolding canonical_json_bytes dumps quoted_ascii
on_one_line = refl

over_lines :
    dumps_indented value ≡ codes "{\n  \"a\": \"e\\\"\\n\",\n  \"b\": [\n    1,\n    null\n  ]\n}"
unfolding canonical_json_bytes dumps_indented quoted_ascii
over_lines = refl

surrogates : escape_ascii 128512 ≡ codes "\\ud83d\\ude00"
unfolding escape_ascii
surrogates = refl

process_streams_example :
    ((line : List ℕ) × ((process constant world text_of_errors true verify_command).1.stdout
        ≡ line ++ (10 ∷ []))
      × IsLine line
      × (line
          ≡ dumps (
              envelope_json constant
                (main_command constant world text_of_errors verify_command).1)))
    × (((process constant world text_of_errors false verify_command).1.stderr ≡ [])
        ↔ ((process constant world text_of_errors false verify_command).0 ≡ 0))
process_streams_example = process_streams constant world text_of_errors verify_command
