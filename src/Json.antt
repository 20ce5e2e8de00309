-- ===== src/Json.antt =====
-- canonical.py: `json.dumps(ensure_ascii=False, separators=(",", ":"), sort_keys=True)` in UTF-8.
-- Numbers are the natural ones, which are all that the contracts write.
pub mod Keys
pub mod Kind
pub mod Quoted
pub mod Utf8
pub mod Written
pub mod Reordered
use Prim.Native.Char.{code}
use locus_mesh.Base.{
  ℕ, zero, suc, ◌+◌, ◌/◌, ◌%◌, String, Bool, true, false, List, [], ◌∷◌, ◌++◌, codes, nth, ltb,
  ◌==◌, if◌then◌else◌, nat_eq,
}

mutual
  pub data Json : Type 0 where
    null : Json
    bool : Bool → Json
    num : ℕ → Json
    str : String → Json
    arr : Items → Json
    obj : Fields → Json

  pub data Items : Type 0 where
    nil : Items
    item : Json → Items → Items

  pub data Fields : Type 0 where
    end : Fields
    field : String → Json → Fields → Fields

-- The decimal digits, most significant first; `n` rounds are enough.
unfoldable pub decimal_from : ℕ → ℕ → List ℕ → List ℕ
decimal_from zero n out = (48 + n % 10) ∷ out
decimal_from (suc fuel) n out =
    let more = decimal_from fuel (n / 10) ((48 + n % 10) ∷ out) in
    if ltb n 10 then (48 + n % 10) ∷ out else more

unfoldable pub decimal : ℕ → List ℕ
unfolding decimal_from
decimal n = decimal_from n n []

-- json's escapes, with ensure_ascii off
escape : ℕ → List ℕ
escape c =
    if c == 34
    then codes "\\\""
    else if c == 92
    then codes "\\\\"
    else if c == 10
    then codes "\\n"
    else if c == 13
    then codes "\\r"
    else if c == 9
    then codes "\\t"
    else if c == 12
    then codes "\\f"
    else if c == 8
    then codes "\\b"
    else if ltb c 32
    then codes "\\u00"
      ++ (code (nth "0123456789abcdef" (c / 16)) ∷ code (nth "0123456789abcdef" (c % 16)) ∷ [])
    else c ∷ []

escape_all : List ℕ → List ℕ
unfolding escape
escape_all [] = []
escape_all (c ∷ cs) = escape c ++ escape_all cs

pub quoted : String → List ℕ
unfolding escape_all
quoted s = 34 ∷ (escape_all (codes s) ++ (34 ∷ []))

-- Python compares texts by code points.
unfoldable pub text_lt : List ℕ → List ℕ → Bool
text_lt [] [] = false
text_lt [] (d ∷ ds) = true
text_lt (c ∷ cs) [] = false
text_lt (c ∷ cs) (d ∷ ds) = if ltb c d then true else if ltb d c then false else text_lt cs ds

-- sort_keys: the items of a dict in the order of their keys, equal keys in the order given
insert_field : String → Json → Fields → Fields
insert_field k v end = field k v end
insert_field k v (field j w fs) =
    if text_lt (codes j) (codes k)
    then field j w (insert_field k v fs)
    else field k v (field j w fs)

pub sort_fields : Fields → Fields
unfolding insert_field text_lt
sort_fields end = end
sort_fields (field k v fs) = insert_field k v (sort_fields fs)

-- The value as it is written: every object sorted, its members sorted in turn.
mutual
  unfolding sort_fields

  pub normalize : Json → Json
  normalize null = null
  normalize (bool b) = bool b
  normalize (num n) = num n
  normalize (str s) = str s
  normalize (arr xs) = arr (normalize_items xs)
  normalize (obj fs) = obj (sort_fields (normalize_fields fs))

  pub normalize_items : Items → Items
  normalize_items nil = nil
  normalize_items (item x xs) = item (normalize x) (normalize_items xs)

  pub normalize_fields : Fields → Fields
  normalize_fields end = end
  normalize_fields (field k v fs) = field k (normalize v) (normalize_fields fs)

mutual
  unfolding decimal quoted

  pub write : Json → List ℕ
  write null = codes "null"
  write (bool true) = codes "true"
  write (bool false) = codes "false"
  write (num n) = decimal n
  write (str s) = quoted s
  write (arr nil) = codes "[]"
  write (arr (item x xs)) = 91 ∷ (write x ++ write_items xs)
  write (obj end) = codes "{}"
  write (obj (field k v fs)) = 123 ∷ (quoted k ++ (58 ∷ (write v ++ write_fields fs)))

  pub write_items : Items → List ℕ
  write_items nil = 93 ∷ []
  write_items (item x xs) = 44 ∷ (write x ++ write_items xs)

  pub write_fields : Fields → List ℕ
  write_fields end = 125 ∷ []
  write_fields (field k v fs) = 44 ∷ (quoted k ++ (58 ∷ (write v ++ write_fields fs)))

-- str.encode("utf-8") of one code point
utf8 : ℕ → List ℕ
utf8 c =
    if ltb c 128
    then c ∷ []
    else if ltb c 2048
    then (192 + c / 64) ∷ (128 + c % 64) ∷ []
    else if ltb c 65536
    then (224 + c / 4096) ∷ (128 + c / 64 % 64) ∷ (128 + c % 64) ∷ []
    else (240 + c / 262144) ∷ (128 + c / 4096 % 64) ∷ (128 + c / 64 % 64) ∷ (128 + c % 64) ∷ []

pub encode_utf8 : List ℕ → List ℕ
unfolding utf8
encode_utf8 [] = []
encode_utf8 (c ∷ cs) = utf8 c ++ encode_utf8 cs

unfoldable pub canonical_json_bytes : Json → List ℕ
unfolding encode_utf8 write normalize
canonical_json_bytes value = encode_utf8 (write (normalize value))
