-- ===== src/Observer/Escapes.antt =====
-- How `_fetch` ends: with a payload, the observer's own error, or an error that no handler takes.
use locus_mesh.Base.{
  Bool-cases, ◌!=◌, !=_iff, nat_eq, ℕ, ◌≤◌, ◌≡◌, refl, ◌≢◌, inl, inr, String, Bool, true, false,
  List, [], arith, subst, length, ltb,
}
use locus_mesh.Fail.{
  Exn, value_error, os_error, http_error, fabric_observation_error, http_exception, recursion_error,
  Result, ok, err, ◌>>=◌, raise_if,
}
use locus_mesh.Json.{Json, null, bool, num, str, arr, obj}
use locus_mesh.Observer.Payload.{reject_duplicate_keys}
use locus_mesh.Observer.Readers.{
  IsProjectionError, by_key, by_type, by_value, by_validation, Yields, returns, raises, Any,
}
use locus_mesh.Observer.Observe.{
  Response, status_of, Loads, from_network, from_parser, as_payload, from_projection, read_response,
  fetch,
}

-- What a part of `observe` ends in: a result that satisfies P, an error of the observer's own, which
-- tells nothing of the cause, or an error that E names and that no handler takes.
pub data Ends {A : Type 0} (E : Exn → Type 0) (P : A → Type 0) : Result A → Type 0 where
  given : {a : A} → P a → Ends E P (ok a)
  refused : {m : String} → Ends E P (err (fabric_observation_error m))
  escaped : {e : Exn} → E e → Ends E P (err e)

pub bind-Ends :
    {A B : Type 0} {E F : Exn → Type 0} {P : A → Type 0} {Q : B → Type 0} {m : Result A}
    (f : A → Result B)
    → Ends E P m
    → ((e : Exn) → E e → F e)
    → ((a : A) → m ≡ ok a → P a → Ends F Q (f a))
    → Ends F Q (m >>= f)
bind-Ends f (given h) up k = k _ refl h
bind-Ends f refused up k = refused
bind-Ends f (escaped h) up k = escaped (up _ h)

guard-Ends :
    {E : Exn → Type 0} (b : Bool) (m : String)
    → Ends E Any (raise_if b (fabric_observation_error m))
guard-Ends true m = refused
guard-Ends false m = given tt

err-injective : {A : Type 0} {e f : Exn} → ◌≡◌ {A = Result A} (err e) (err f) → e ≡ f
err-injective same = cc

pub Ends_foreign :
    {A : Type 0} {E : Exn → Type 0} {P : A → Type 0} {r : Result A} {e : Exn}
    → Ends E P r
    → r ≡ err e
    → ((m : String) → e ≢ fabric_observation_error m)
    → E e
Ends_foreign (given h) same foreign = cc
Ends_foreign (refused {m}) same foreign = absurd (foreign m cc)
Ends_foreign {E = E} {e = e} (escaped {e = e'} h) same foreign = subst E (err-injective same) h

-- What a call of the network may raise: an OSError, as urllib's errors are, or an HTTPException of
-- http.client, which is none.
pub data IsNetworkResult {A : Type 0} : Result A → Type 0 where
  returned : {a : A} → IsNetworkResult (ok a)
  by_os : {m : String} → IsNetworkResult (err (os_error m))
  by_http : {m : String} → IsNetworkResult (err (http_error m))
  by_client : {m : String} → IsNetworkResult (err (http_exception m))

-- The parser returns a value or raises a ValueError, as UnicodeDecodeError and JSONDecodeError are,
-- or a RecursionError, which is none.
pub data IsParserResult : Result Json → Type 0 where
  parsed : {v : Json} → IsParserResult (ok v)
  malformed : {m : String} → IsParserResult (err (value_error m))
  too_deep : {m : String} → IsParserResult (err (recursion_error m))

-- The opener, or the reading of the body of a response with status 200, raises an HTTPException.
pub data IsClientError : Result Response → Exn → Type 0 where
  on_open : {m : String} → IsClientError (err (http_exception m)) (http_exception m)
  on_read :
      {r : Response} {m : String}
      → status_of r.status ≡ 200
      → r.read 1048577 ≡ err (http_exception m)
      → IsClientError (ok r) (http_exception m)

-- The body that the opener's response has.
pub data HasBody (raw : List ℕ) : Result Response → Type 0 where
  body : {r : Response} → status_of r.status ≡ 200 → r.read 1048577 ≡ ok raw → HasBody raw (ok r)

caught-Ends :
    {A : Type 0} {E : Exn → Type 0} {P : A → Type 0} {e : Exn}
    → IsProjectionError e
    → Ends E P (from_projection (err e))
unfolding from_projection
caught-Ends by_key = refused
caught-Ends by_type = refused
caught-Ends by_value = refused
caught-Ends by_validation = refused

pub projection-Ends :
    {A : Type 0} {E : Exn → Type 0} {P : A → Type 0} {r : Result A}
    → Yields P r
    → Ends E P (from_projection r)
unfolding from_projection
projection-Ends (returns h) = given h
projection-Ends (raises h) = caught-Ends h

payload-Ends : {E : Exn → Type 0} (v : Json) → Ends E Any (as_payload v)
unfolding as_payload
payload-Ends null = refused
payload-Ends (bool b) = refused
payload-Ends (num n) = refused
payload-Ends (str s) = refused
payload-Ends (arr xs) = refused
payload-Ends (obj fs) = given tt

-- The body is read, or the network's error is caught, unless it is an HTTPException.
read-Ends :
    {r : Response} (body_of : Result (List ℕ))
    → status_of r.status ≡ 200
    → r.read 1048577 ≡ body_of
    → IsNetworkResult body_of
    → Ends (IsClientError (ok r)) (λ raw. HasBody raw (ok r)) (from_network body_of)
unfolding from_network
read-Ends (ok raw) status same returned = given (body status same)
read-Ends (err e) status same by_os = refused
read-Ends (err e) status same by_http = refused
read-Ends (err e) status same by_client = escaped (on_read status same)

network-Ends :
    {opened : Result Response}
    → IsNetworkResult opened
    → ((r : Response) → opened ≡ ok r → IsNetworkResult (r.read 1048577))
    → Ends
        (IsClientError opened)
        (λ raw. HasBody raw opened)
        (from_network (opened >>= read_response))
unfolding from_network read_response
network-Ends (returned {a = r}) reading = elim (Bool-cases (status_of r.status != 200)) [
  | inl bad ↦ rw bad refused
  | inr good ↦ rw good (
      read-Ends {r = r} (r.read 1048577) ((!=_iff (status_of r.status) 200).0 good) refl
        (reading r refl))
]
network-Ends by_os reading = refused
network-Ends by_http reading = refused
network-Ends by_client reading = escaped on_open

module _ (loads : Loads) where
  abbrev pub loaded : List ℕ → Result Json
  loaded raw = loads (reject_duplicate_keys "duplicate JSON key: " []) raw

  -- The errors that leave `observe` as they are: an HTTPException of the network, and a
  -- RecursionError of the parser on a body within the bound.
  pub data Escapes (opened : Result Response) : Exn → Type 0 where
    by_network : {e : Exn} → IsClientError opened e → Escapes opened e
    by_parser :
        {raw : List ℕ} {m : String}
        → HasBody raw opened
        → length raw ≤ 1048576
        → loaded raw ≡ err (recursion_error m)
        → Escapes opened (recursion_error m)

  parser-Ends :
      {opened : Result Response} {raw : List ℕ} (r : Result Json)
      → HasBody raw opened
      → length raw ≤ 1048576
      → loaded raw ≡ r
      → IsParserResult r
      → Ends (Escapes opened) Any (from_parser r)
  unfolding from_parser
  parser-Ends (ok v) read small same parsed = given tt
  parser-Ends (err e) read small same malformed = refused
  parser-Ends (err e) read small same too_deep = escaped (by_parser read small same)

  pub fetch-Ends :
      (status_url : String) (opener : String → Result Response)
      → IsNetworkResult (opener status_url)
      → ((r : Response) → opener status_url ≡ ok r → IsNetworkResult (r.read 1048577))
      → ((raw : List ℕ) → IsParserResult (loaded raw))
      → Ends (Escapes (opener status_url)) Any (fetch loads status_url opener)
  unfolding fetch
  fetch-Ends status_url opener network reading parse =
      bind-Ends _ (network-Ends network reading) (λ e h. by_network h)
        λ raw same read.
          bind-Ends _ (guard-Ends (ltb 1048576 (length raw)) _) (λ e h. h)
            λ u small v.
              bind-Ends _ (parser-Ends (loaded raw) read (ground arith) refl (parse raw)) (λ e h. h)
                λ payload parsed w. payload-Ends payload

  pub fetch-Escapes :
      (status_url : String) (opener : String → Result Response) {opened : Result Response} {e : Exn}
      → opener status_url ≡ opened
      → Escapes opened e
      → fetch loads status_url opener ≡ err e
  unfolding fetch from_network read_response from_parser
  fetch-Escapes status_url opener same (by_network on_open) = rw same refl
  fetch-Escapes status_url opener same (by_network (on_read status fails)) =
      rw (same, status, fails) refl
  fetch-Escapes status_url opener same (by_parser {raw = raw} (body status read) small fails) =
      let within : ltb 1048576 (length raw) ≡ false = ground (arith, small) in
      rw (same, status, read, within, fails) refl

  pub Escapes-foreign :
      {opened : Result Response} {e : Exn}
      → Escapes opened e
      → (m : String) → e ≢ fabric_observation_error m
  Escapes-foreign (by_network on_open) m same = cc
  Escapes-foreign (by_network (on_read status fails)) m same = cc
  Escapes-foreign (by_parser read small fails) m same = cc
