-- ===== src/Examples/Canonical.antt =====
-- Canonical bytes of small values, and of a receipt with another signature.
use locus_mesh.Base.{◌≡◌, refl, ◌↔◌, ◌≢◌, String, none, some, eq_iff, string_eq}
use mathlib.Core.Bool.{false≢true}
use locus_mesh.Json.{
  Json, num, str, arr, obj, nil, item, field, end, normalize, canonical_json_bytes,
}
use locus_mesh.Json.Written.{canonical_json_bytes-eq_iff}
use locus_mesh.Json.Reordered.{
  same_obj, same_arr, same_item, no_item, swapped, canonical_json_bytes-reordered,
}
use locus_mesh.Models.Route.{HopReceipt}
use locus_mesh.Policy.Digest.{signing_payload}
use locus_mesh.Attestation.Payload.{signing_payload_determines}
use locus_mesh.Examples.Data.{constant, receipt}

abbrev one_two : Json
one_two = obj (field "a" (num 1) (field "b" (str "x") end))

abbrev two_one : Json
two_one = obj (field "b" (str "x") (field "a" (num 1) end))

canonical_json_bytes-eq_iff_example :
    (canonical_json_bytes one_two ≡ canonical_json_bytes two_one)
    ↔ (normalize one_two ≡ normalize two_one)
canonical_json_bytes-eq_iff_example = canonical_json_bytes-eq_iff one_two two_one

a_not_b : ◌≢◌ {A = String} "a" "b"
a_not_b e = false≢true ((eq_iff "a" "b").1 e)

canonical_json_bytes-reordered_example :
    canonical_json_bytes (arr (item one_two nil)) ≡ canonical_json_bytes (arr (item two_one nil))
canonical_json_bytes-reordered_example =
    canonical_json_bytes-reordered (arr (item one_two nil)) (arr (item two_one nil))
      (same_arr (same_item (same_obj (swapped a_not_b)) no_item))

abbrev first : HopReceipt
first = receipt 0 "device" none (some "peer") none

abbrev resigned : HopReceipt
resigned = record first { signature = "another" }

signing_payload_determines_example :
    (record first { observed_at = resigned.observed_at; signature = resigned.signature } ≡ resigned)
    × (constant.json_datetime first.observed_at ≡ constant.json_datetime resigned.observed_at)
unfolding signing_payload
signing_payload_determines_example = signing_payload_determines constant first resigned refl
