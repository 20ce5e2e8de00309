-- ===== src/Json/Kind.antt =====
-- The first sign of a written value tells its kind.
use locus_mesh.Base.{
  ℕ, ◌≤◌, Bool, true, false, sym, String, ◌≡◌, refl, ap, ◌∙◌, List, [], ◌∷◌, ◌++◌, arith, between,
  if◌then◌else◌, ◌==◌, nat_eq,
}
use locus_mesh.Json.{
  Json, null, bool, num, str, arr, obj, Items, nil, item, Fields, end, field, quoted, write,
}
use locus_mesh.Json.Utf8.{decimal-head}

-- The kind of a value: no first sign of one kind is a first sign of another.
pub kind : Json → ℕ
kind null = 0
kind (bool true) = 1
kind (bool false) = 2
kind (num n) = 3
kind (str s) = 4
kind (arr xs) = 5
kind (obj fs) = 6

read_kind : List ℕ → ℕ
read_kind [] = 7
read_kind (c ∷ cs) =
    if c == 110
    then 0
    else if c == 116
    then 1
    else if c == 102
    then 2
    else if between 48 57 c
    then 3
    else if c == 34
    then 4
    else if c == 91
    then 5
    else if c == 123
    then 6
    else 7

read_kind-write : (a : Json) (rest : List ℕ) → read_kind (write a ++ rest) ≡ kind a
unfolding read_kind kind write quoted
read_kind-write null rest = refl
read_kind-write (bool true) rest = refl
read_kind-write (bool false) rest = refl
read_kind-write (num n) rest =
    let (c, cs, starts, least, most) = decimal-head n in rw starts (ground (arith, least, most))
read_kind-write (str s) rest = refl
read_kind-write (arr nil) rest = refl
read_kind-write (arr (item x xs)) rest = refl
read_kind-write (obj end) rest = refl
read_kind-write (obj (field k v fs)) rest = refl

-- Values that are written alike are of one kind.
pub same_kind : (a b : Json) (r s : List ℕ) → write a ++ r ≡ write b ++ s → kind a ≡ kind b
same_kind a b r s same = sym (read_kind-write a r) ∙ ap read_kind same ∙ read_kind-write b s

pub as_bool : Json → Bool
as_bool (bool b) = b
as_bool _ = true

unfoldable pub as_num : Json → ℕ
as_num (num n) = n
as_num _ = 0

unfoldable pub as_str : Json → String
as_str (str s) = s
as_str _ = ""

pub as_arr : Json → Items
as_arr (arr xs) = xs
as_arr _ = nil

pub as_obj : Json → Fields
as_obj (obj fs) = fs
as_obj _ = end

pub kind_null : (b : Json) → kind b ≡ kind null → b ≡ null
unfolding kind
kind_null b h = ground arith

pub kind_bool : (c : Bool) (b : Json) → kind b ≡ kind (bool c) → b ≡ bool c
unfolding kind
kind_bool c b h = ground arith

pub kind_num : (n : ℕ) (b : Json) → kind b ≡ kind (num n) → b ≡ num (as_num b)
unfolding kind as_num
kind_num n b h = ground arith

pub kind_str : (s : String) (b : Json) → kind b ≡ kind (str s) → b ≡ str (as_str b)
unfolding kind as_str
kind_str s b h = ground arith

pub kind_arr : (xs : Items) (b : Json) → kind b ≡ kind (arr xs) → b ≡ arr (as_arr b)
unfolding kind as_arr
kind_arr xs b h = ground arith

pub kind_obj : (fs : Fields) (b : Json) → kind b ≡ kind (obj fs) → b ≡ obj (as_obj b)
unfolding kind as_obj
kind_obj fs b h = ground arith

pub kind_most : (b : Json) → kind b ≤ 6
unfolding kind
kind_most b = ground arith

-- No value starts with a closing bracket.
pub no_bracket : (a : Json) (r s : List ℕ) → ¬ (93 ∷ r ≡ write a ++ s)
unfolding read_kind
no_bracket a r s same =
    let seven = ap read_kind same ∙ read_kind-write a s in omega (arith, seven, kind_most a)
