-- ===== src/Examples/Stamps.antt =====
-- Times that are written as short texts and read back.
use locus_mesh.Base.{ℕ, String, Option, none, some, ◌==◌, nat_eq, string_eq, if◌then◌else◌}
use locus_mesh.Runtime.{Runtime, DateTime}
use locus_mesh.Json.{Json, str}
use locus_mesh.Models.Validate.{Coercions}
use locus_mesh.Examples.Data.{constant, at}

-- A text for each time of the example, and the time of each text.
abbrev stamp : ℕ → String
stamp n =
    if n == 100
    then "at 100"
    else if n == 200
    then "at 200"
    else if n == 400
    then "at 400"
    else if n == 700
    then "at 700"
    else if n == 800
    then "at 800"
    else "at 900"

abbrev time_of : Json → Option DateTime
time_of (str s) =
    if s == "at 100"
    then some (at 100)
    else if s == "at 200"
    then some (at 200)
    else if s == "at 400"
    then some (at 400)
    else if s == "at 700"
    then some (at 700)
    else if s == "at 800"
    then some (at 800)
    else if s == "at 900"
    then some (at 900)
    else none
time_of _ = none

abbrev pub stamped : Runtime
stamped = record constant { json_datetime = λ t. stamp t.instant }

abbrev pub coercions : Coercions
coercions = record { moment = time_of; integer_of = λ j. none }
