-- ===== src/Schemas/Written.antt =====
-- Which files an export leaves, and which errors end it.
use locus_mesh.Base.{
  subst, sym, String, ◌⧺◌, ◌≡◌, ◌≢◌, refl, ◌∙◌, ◌⊎◌, inl, inr, Option, none, some, List, [], ◌∷◌,
  map, All, All-mono, All-map, In, all_of, Distinct, Bool-cases, Option-cases, ◌==◌, string_eq,
  eq_iff,
}
use locus_mesh.Fail.{Result, ok, err, os_error}
use locus_mesh.Schemas.{
  Contract, schemas, Directory, read_file, WriteFault, left_by, write_text, appended, write_schemas,
  export_schemas,
}
use locus_mesh.Schemas.Paths.{file_of, path_of, listed, file_of-In, named, schemas-Distinct}

read_first :
    (path text : String) (dir : Directory) → read_file path ((path, text) ∷ dir) ≡ some text
unfolding read_file
read_first path text dir = rw ((eq_iff path path).1 refl) refl

read_next :
    (file path text : String) (dir : Directory)
    → path ≢ file
    → read_file file ((path, text) ∷ dir) ≡ read_file file dir
unfolding read_file
read_next file path text dir other = elim (Bool-cases (path == file)) [
  | inl same ↦ absurd (other ((eq_iff path file).0 same))
  | inr differ ↦ rw differ refl
]

read_left :
    (file path : String) (left : Option String) (dir : Directory)
    → path ≢ file
    → read_file file (left_by left path dir) ≡ read_file file dir
unfolding left_by
read_left file path none dir other = refl
read_left file path (some part) dir other = read_next file path part dir other

-- What `export_schemas` returns names the file of every contract once and no other, and each file
-- holds the schema of its own contract.
pub record IsExport (schema_text : Contract → String) (paths : List String) (after : Directory)
    : Type 0 where
  pub every : (c : Contract) → In (file_of c) paths
  pub only : All (λ path. (c : Contract) × (file_of c ≡ path)) paths
  pub once : Distinct paths
  pub written : (c : Contract) → read_file (file_of c) after ≡ some (schema_text c ⧺ "\n")

-- How an export ends: all is written, the directory could not be made and is as it was, or a write
-- has failed.
pub data IsEnd (schema_text : Contract → String) (faults : String → Option WriteFault)
    (mkdir : Option String) (dir : Directory) : Result (List String) → Directory → Type 0 where
  finished :
      {paths : List String} {after : Directory}
      → mkdir ≡ none
      → ((c : Contract) → faults (file_of c) ≡ none)
      → IsExport schema_text paths after
      → IsEnd schema_text faults mkdir dir (ok paths) after
  no_directory :
      {m : String} → mkdir ≡ some m → IsEnd schema_text faults mkdir dir (err (os_error m)) dir
  cut_off :
      {after : Directory} (c : Contract) (fault : WriteFault)
      → mkdir ≡ none
      → faults (file_of c) ≡ some fault
      → IsEnd schema_text faults mkdir dir (err (os_error fault.message)) after

module _ (schema_text : Contract → String) (faults : String → Option WriteFault) where
  abbrev Writable : String × Contract → Type 0
  Writable p = faults (path_of p) ≡ none

  -- A file of another name stays as it was, however the loop ends.
  read_other :
      (file : String) (pairs : List (String × Contract)) (dir : Directory)
      → ¬ In file (map path_of pairs)
      → read_file file (write_schemas schema_text faults pairs dir).1 ≡ read_file file dir
  unfolding write_schemas write_text appended
  read_other file [] dir absent = refl
  read_other file (p ∷ pairs) dir absent = elim (Option-cases (faults (path_of p))) [
    | inl writable ↦ rw writable (
        read_other file pairs _ (λ i. absent (inr i))
        ∙ read_next file (path_of p) _ dir (λ same. absent (inl same)))
    | inr (fault, fails) ↦
        rw fails (read_left file (path_of p) fault.left dir (λ same. absent (inl same)))
  ]

  loop_paths :
      (pairs : List (String × Contract)) (dir : Directory)
      → All Writable pairs
      → (write_schemas schema_text faults pairs dir).0 ≡ ok (map path_of pairs)
  unfolding write_schemas write_text appended
  loop_paths [] dir h = refl
  loop_paths (p ∷ pairs) dir h = rw (h.0, loop_paths pairs _ h.1) refl

  read_written :
      (p : String × Contract) (pairs : List (String × Contract)) (dir : Directory)
      → All Writable pairs
      → Distinct (map path_of pairs)
      → In p pairs
      → read_file (path_of p) (write_schemas schema_text faults pairs dir).1
        ≡ some (schema_text p.1 ⧺ "\n")
  unfolding write_schemas write_text appended
  read_written p [] dir h distinct i = absurd i
  read_written p (q ∷ pairs) dir h distinct (inl same) = rw h.0 (
      subst
        (λ r.
          read_file (path_of r)
            (write_schemas schema_text faults pairs ((path_of q, schema_text q.1 ⧺ "\n") ∷ dir)).1
          ≡ some (schema_text r.1 ⧺ "\n"))
        same
        (read_other (path_of q) pairs _ distinct.0
          ∙ read_first (path_of q) (schema_text q.1 ⧺ "\n") dir))
  read_written p (q ∷ pairs) dir h distinct (inr later) =
      rw h.0 (read_written p pairs _ h.1 distinct.1 later)

  -- Either no write fails, or the loop raises the error of one that does.
  loop_ends :
      (pairs : List (String × Contract)) (dir : Directory)
      → All Writable pairs
        ⊎ ((p : String × Contract) × (fault : WriteFault) × In p pairs
            × (faults (path_of p) ≡ some fault)
            × ((write_schemas schema_text faults pairs dir).0 ≡ err (os_error fault.message)))
  unfolding write_schemas write_text appended
  loop_ends [] dir = inl tt
  loop_ends (p ∷ pairs) dir = elim (Option-cases (faults (path_of p))) [
    | inr (fault, fails) ↦ inr (p, fault, inl refl, fails, rw fails refl)
    | inl writable ↦ elim (loop_ends pairs ((path_of p, schema_text p.1 ⧺ "\n") ∷ dir)) [
      | inl rest ↦ inl (writable, rest)
      | inr (q, fault, i, fails, raised) ↦ inr (q, fault, inr i, fails, rw (writable, raised) refl)
    ]
  ]

  loop-IsExport :
      (dir : Directory)
      → All Writable schemas
      → IsExport schema_text (map path_of schemas) (write_schemas schema_text faults schemas dir).1
  loop-IsExport dir h = record {
    every = file_of-In;
    only =
        All-map path_of (λ path. (c : Contract) × (file_of c ≡ path)) schemas
          (All-mono {Q = λ p. (c : Contract) × (file_of c ≡ path_of p)} schemas
            (λ p same. (p.1, same)) named);
    once = schemas-Distinct;
    written = λ c.
        let (n, i, same) = listed c in
        subst
          (λ path.
            read_file path (write_schemas schema_text faults schemas dir).1
            ≡ some (schema_text c ⧺ "\n"))
          same (read_written (n, c) schemas dir h schemas-Distinct i);
  }

  export-IsEnd :
      (mkdir : Option String) (dir : Directory)
      → IsEnd schema_text faults mkdir dir
          (export_schemas schema_text faults mkdir dir).0
          (export_schemas schema_text faults mkdir dir).1
  unfolding export_schemas
  export-IsEnd (some m) dir = no_directory refl
  export-IsEnd none dir = elim (loop_ends schemas dir) [
    | inl h ↦
        subst
          (λ r.
            IsEnd schema_text faults none dir r (write_schemas schema_text faults schemas dir).1)
          (sym (loop_paths schemas dir h))
          (finished refl
            (λ c.
              let (n, i, same) = listed c in
              subst (λ path. faults path ≡ none) same (all_of Writable schemas (n, c) h i))
            (loop-IsExport dir h))
    | inr (p, fault, i, fails, raised) ↦
        subst
          (λ r.
            IsEnd schema_text faults none dir r (write_schemas schema_text faults schemas dir).1)
          (sym raised)
          (cut_off p.1 fault refl (
            subst (λ path. faults path ≡ some fault)
              (sym (all_of (λ q. file_of q.1 ≡ path_of q) schemas p named i)) fails))
  ]

  -- `export_schemas` writes the file of every contract, which holds the schema of that contract, and
  -- returns their paths, each once and no other, if the directory can be made and no write fails; if
  -- not, it raises the OSError of the directory, which is as it was, or of a write. However it ends,
  -- a file that is no contract's is as it was.
  pub export_schemas_lem :
      (mkdir : Option String) (dir : Directory) (file : String)
      → ((c : Contract) → file_of c ≢ file)
      → IsEnd schema_text faults mkdir dir
          (export_schemas schema_text faults mkdir dir).0
          (export_schemas schema_text faults mkdir dir).1
        × (read_file file (export_schemas schema_text faults mkdir dir).1 ≡ read_file file dir)
  unfolding export_schemas
  export_schemas_lem (some m) dir file other = (export-IsEnd (some m) dir, refl)
  export_schemas_lem none dir file other = (
    export-IsEnd none dir,
    read_other file schemas dir λ i.
        let foreign =
          all_of (λ path. path ≢ file) (map path_of schemas) file
            (All-map path_of (λ path. path ≢ file) schemas
              (All-mono {Q = λ p. path_of p ≢ file} schemas (λ p same e. other p.1 (same ∙ e))
                named))
            i in
        foreign refl,
  )
