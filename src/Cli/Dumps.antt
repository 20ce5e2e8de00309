-- ===== src/Cli/Dumps.antt =====
-- json.dumps as cli.py calls it: with sorted keys, in ASCII, on one line or indented by two.
use Prim.Native.Char.{code}
use locus_mesh.Base.{
  ℕ, zero, suc, ◌+◌, ◌-◌, ◌/◌, ◌%◌, String, true, false, List, [], ◌∷◌, ◌++◌, codes, nth, ltb,
  between, ◌==◌, if◌then◌else◌, nat_eq,
}
use locus_mesh.Json.{
  Json, null, bool, num, str, arr, obj, Items, nil, item, Fields, end, field, decimal, normalize,
}

unfoldable pub hex_digit : ℕ → ℕ
hex_digit n = code (nth "0123456789abcdef" (n % 16))

-- "\\u{0:04x}".format(n)
unfoldable pub unicode_escape : ℕ → List ℕ
unfolding hex_digit
unicode_escape n =
    codes "\\u"
    ++ (hex_digit (n / 4096) ∷ hex_digit (n / 256) ∷ hex_digit (n / 16) ∷ hex_digit n ∷ [])

-- py_encode_basestring_ascii on one code point: a pair of surrogates for one above U+FFFF
unfoldable pub escape_ascii : ℕ → List ℕ
unfolding unicode_escape
escape_ascii c =
    if c == 34
    then codes "\\\""
    else if c == 92
    then codes "\\\\"
    else if c == 10
    then codes "\\n"
    else if c == 13
    then codes "\\r"
    else if c == 9
    then codes "\\t"
    else if c == 12
    then codes "\\f"
    else if c == 8
    then codes "\\b"
    else if between 32 126 c
    then c ∷ []
    else if ltb c 65536
    then unicode_escape c
    else unicode_escape (55296 + (c - 65536) / 1024 % 1024)
      ++ unicode_escape (56320 + (c - 65536) % 1024)

unfoldable pub escape_all_ascii : List ℕ → List ℕ
unfolding escape_ascii
escape_all_ascii [] = []
escape_all_ascii (c ∷ cs) = escape_ascii c ++ escape_all_ascii cs

unfoldable pub quoted_ascii : String → List ℕ
unfolding escape_all_ascii
quoted_ascii s = 34 ∷ (escape_all_ascii (codes s) ++ (34 ∷ []))

-- item_separator is ", " and key_separator is ": "
unfoldable mutual
  unfolding decimal quoted_ascii

  pub dump : Json → List ℕ
  dump null = codes "null"
  dump (bool true) = codes "true"
  dump (bool false) = codes "false"
  dump (num n) = decimal n
  dump (str s) = quoted_ascii s
  dump (arr nil) = codes "[]"
  dump (arr (item x xs)) = 91 ∷ (dump x ++ dump_items xs)
  dump (obj end) = codes "{}"
  dump (obj (field k v fs)) = 123 ∷ (quoted_ascii k ++ (58 ∷ 32 ∷ (dump v ++ dump_fields fs)))

  pub dump_items : Items → List ℕ
  dump_items nil = 93 ∷ []
  dump_items (item x xs) = 44 ∷ 32 ∷ (dump x ++ dump_items xs)

  pub dump_fields : Fields → List ℕ
  dump_fields end = 125 ∷ []
  dump_fields (field k v fs) = 44 ∷ 32 ∷ (quoted_ascii k ++ (58 ∷ 32 ∷ (dump v ++ dump_fields fs)))

-- json.dumps(value, sort_keys=True)
unfoldable pub dumps : Json → List ℕ
unfolding dump
dumps value = dump (normalize value)

spaces : ℕ → List ℕ
spaces zero = []
spaces (suc n) = 32 ∷ 32 ∷ spaces n

new_line : ℕ → List ℕ
unfolding spaces
new_line level = 10 ∷ spaces level

mutual
  unfolding decimal quoted_ascii new_line

  indented : ℕ → Json → List ℕ
  indented level null = codes "null"
  indented level (bool true) = codes "true"
  indented level (bool false) = codes "false"
  indented level (num n) = decimal n
  indented level (str s) = quoted_ascii s
  indented level (arr nil) = codes "[]"
  indented level (arr (item x xs)) =
      91 ∷ (new_line (suc level) ++ (indented (suc level) x ++ indented_items level xs))
  indented level (obj end) = codes "{}"
  indented level (obj (field k v fs)) =
      123
      ∷ (new_line (suc level)
          ++ (quoted_ascii k ++ (58 ∷ 32 ∷ (indented (suc level) v ++ indented_fields level fs))))

  -- the items after the first, and the bracket at the level of the list
  indented_items : ℕ → Items → List ℕ
  indented_items level nil = new_line level ++ (93 ∷ [])
  indented_items level (item x xs) =
      44 ∷ (new_line (suc level) ++ (indented (suc level) x ++ indented_items level xs))

  indented_fields : ℕ → Fields → List ℕ
  indented_fields level end = new_line level ++ (125 ∷ [])
  indented_fields level (field k v fs) =
      44
      ∷ (new_line (suc level)
          ++ (quoted_ascii k ++ (58 ∷ 32 ∷ (indented (suc level) v ++ indented_fields level fs))))

-- json.dumps(value, indent=2, sort_keys=True)
unfoldable pub dumps_indented : Json → List ℕ
unfolding indented
dumps_indented value = indented 0 (normalize value)
