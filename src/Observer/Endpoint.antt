-- ===== src/Observer/Endpoint.antt =====
-- The observer reads nothing but the status of a loopback origin.
use mathlib.Core.Bool.{false≢true}
use locus_mesh.Base.{
  if◌then◌else◌, ℕ, ◌≤◌, String, ◌⧺◌, ◌≡◌, refl, sym, ap, ◌∙◌, ◌↔◌, ◌⊎◌, inl, inr, Bool, true,
  false, not, Option, some, arith, Bool-cases, ◌==◌, string_eq, eq_iff,
}
use locus_mesh.Fail.{Result, ok, err, ◌>>=◌, bind-eq-ok, guard-eq-ok, ok-injective}
use locus_mesh.Scope.{ExecutionIntent}
use locus_mesh.Observer.Project.{MeshLlmStatusObserver}
use locus_mesh.Observer.Timeout.{
  ℤ, pos, Float, timely, lifetime, IsTimely, timely_iff, lifetime_iff,
}
use locus_mesh.Observer.Url.{
  ParseResult, UrlLibrary, rstrip, is_set, with_default, loopback, valid_port, check_url, origin_of,
  status_url, new_observer, observer_with, is_web, is_root, not_web, decorated,
}

module _ (lib : UrlLibrary) where
  abbrev pub host_of : ParseResult → String
  host_of parsed = lib.lower (rstrip "." (with_default parsed.hostname))

  -- An HTTP(S) origin without credentials, path, query or fragment, whose host is this machine.
  pub record IsLoopbackOrigin (parsed : ParseResult) : Type 0 where
    pub web : (parsed.scheme ≡ "http") ⊎ (parsed.scheme ≡ "https")
    pub named : is_set parsed.hostname ≡ true
    pub no_username : is_set parsed.username ≡ false
    pub no_password : is_set parsed.password ≡ false
    pub no_query : is_set (some parsed.query) ≡ false
    pub no_fragment : is_set (some parsed.fragment) ≡ false
    pub root : (parsed.path ≡ "") ⊎ (parsed.path ≡ "/")
    pub number : Option ℕ
    pub port : parsed.port ≡ ok number
    pub here : (host_of parsed ≡ "localhost") ⊎ (lib.ip_address (host_of parsed) ≡ ok true)

  web_iff : (s : String) → (is_web s ≡ true) ↔ ((s ≡ "http") ⊎ (s ≡ "https"))
  web_iff s = ground (arith, eq_iff s "http", eq_iff s "https")

  root_iff : (s : String) → (is_root s ≡ true) ↔ ((s ≡ "") ⊎ (s ≡ "/"))
  root_iff s = ground (arith, eq_iff s "", eq_iff s "/")

  valid_port_iff :
      (port : Result (Option ℕ)) → valid_port port ≡ ok tt → (n : Option ℕ) × (port ≡ ok n)
  unfolding valid_port
  valid_port_iff (ok n) h = (n, refl)
  valid_port_iff (err e) h = cc

  loopback_iff :
      (host : String) (answer : Result Bool) → (loopback host answer ≡ ok tt) ↔ (answer ≡ ok true)
  unfolding loopback
  loopback_iff host (ok true) = (λ h. refl, λ h. refl)
  loopback_iff host (ok false) = (λ h. cc, λ h. cc)
  loopback_iff host (err e) = (λ h. cc, λ h. cc)

  here_iff :
      (host : String)
      → ((if host == "localhost" then ok tt else loopback host (lib.ip_address host)) ≡ ok tt)
        ↔ ((host ≡ "localhost") ⊎ (lib.ip_address host ≡ ok true))
  here_iff host = elim (Bool-cases (host == "localhost")) [
    | inl same ↦ rw same ((λ h. inl ((eq_iff host "localhost").0 same)), (λ h. refl))
    | inr other ↦
        let (to, from) = loopback_iff host (lib.ip_address host) in
        rw other (
          (λ h. inr (to h)),
          λ h. elim h [
            | inl e ↦ absurd (false≢true (sym other ∙ (eq_iff host "localhost").1 e))
            | inr answer ↦ from answer
          ],
        )
  ]

  check_url_sound : (parsed : ParseResult) → check_url lib parsed ≡ ok tt → IsLoopbackOrigin parsed
  unfolding check_url
  check_url_sound parsed h =
      let (a, h1) = guard-eq-ok (not_web parsed) _ _ h in
      let (b, h2) = guard-eq-ok (decorated parsed) _ _ h1 in
      let (c, h3) = guard-eq-ok (not (is_root parsed.path)) _ _ h2 in
      let (u, ported, h4) = bind-eq-ok (valid_port parsed.port) _ h3 in
      let (number, port) = valid_port_iff parsed.port ported in
      record {
        web = (web_iff parsed.scheme).0 (ground (arith, a));
        named = ground (arith, a);
        no_username = ground (arith, b);
        no_password = ground (arith, b);
        no_query = ground (arith, b);
        no_fragment = ground (arith, b);
        root = (root_iff parsed.path).0 (ground (arith, c));
        number = number;
        port = port;
        here = (here_iff (host_of parsed)).0 h4;
      }

  check_url_complete :
      (parsed : ParseResult) → IsLoopbackOrigin parsed → check_url lib parsed ≡ ok tt
  unfolding check_url valid_port
  check_url_complete parsed o =
      let web : not_web parsed ≡ false = ground (arith, (web_iff parsed.scheme).1 o.web, o.named) in
      let bare : decorated parsed ≡ false =
        ground (arith, o.no_username, o.no_password, o.no_query, o.no_fragment) in
      let root = (root_iff parsed.path).1 o.root in
      rw (web, bare, root, o.port) ((here_iff (host_of parsed)).1 o.here)

  abbrev pub observer_at : ParseResult → ExecutionIntent → ℕ → MeshLlmStatusObserver
  observer_at parsed scope ttl =
      observer_with scope ttl (origin_of lib parsed, origin_of lib parsed ⧺ "/api/status")

  -- What the constructor asks of its arguments, and what it makes of them.
  pub record IsConstructed (management_url : String) (scope : ExecutionIntent) (timeout : Float)
      (ttl : ℤ) (o : MeshLlmStatusObserver) : Type 0 where
    pub in_time : IsTimely timeout
    pub seconds : ℕ
    pub lasts : ttl ≡ pos seconds
    pub least_ttl : 1 ≤ seconds
    pub most_ttl : seconds ≤ 60
    pub parsed : ParseResult
    pub parses : lib.urlparse (lib.strip management_url) ≡ ok parsed
    pub origin : IsLoopbackOrigin parsed
    pub made : observer_at parsed scope seconds ≡ o

  new_observer_sound :
      (management_url : String) (scope : ExecutionIntent) (timeout : Float) (ttl : ℤ)
      (o : MeshLlmStatusObserver)
      → new_observer lib management_url scope timeout ttl ≡ ok o
      → IsConstructed management_url scope timeout ttl o
  unfolding new_observer status_url
  new_observer_sound management_url scope timeout ttl o h =
      let (a, h1) = guard-eq-ok (not (timely timeout)) _ _ h in
      let (seconds, lasts, h2) =
        bind-eq-ok (lifetime ttl)
          (λ n. status_url lib management_url >>= λ urls. ok (observer_with scope n urls)) h1 in
      let (same, least, most) = (lifetime_iff ttl seconds).0 lasts in
      let (urls, found, made) =
        bind-eq-ok (status_url lib management_url) (λ urls. ok (observer_with scope seconds urls))
          h2 in
      let (parsed, parses, rest) =
        bind-eq-ok (lib.urlparse (lib.strip management_url))
          (λ p. check_url lib p >>= λ u. ok (origin_of lib p, origin_of lib p ⧺ "/api/status"))
          found in
      let (u, checked, ends) =
        bind-eq-ok (check_url lib parsed)
          (λ u. ok (origin_of lib parsed, origin_of lib parsed ⧺ "/api/status")) rest in
      record {
        in_time = (timely_iff timeout).0 (ground (arith, a));
        seconds = seconds;
        lasts = same;
        least_ttl = least;
        most_ttl = most;
        parsed = parsed;
        parses = parses;
        origin = check_url_sound parsed checked;
        made = ap (observer_with scope seconds) (ok-injective ends) ∙ ok-injective made;
      }

  new_observer_complete :
      (management_url : String) (scope : ExecutionIntent) (timeout : Float) (ttl : ℤ)
      (o : MeshLlmStatusObserver)
      → IsConstructed management_url scope timeout ttl o
      → new_observer lib management_url scope timeout ttl ≡ ok o
  unfolding new_observer status_url
  new_observer_complete management_url scope timeout ttl o c =
      let range = (lifetime_iff ttl c.seconds).1 (c.lasts, c.least_ttl, c.most_ttl) in
      rw ((timely_iff timeout).1 c.in_time, range, c.parses, check_url_complete c.parsed c.origin)
        (ap ok c.made)

  -- The constructor returns an observer exactly for a timeout from 0.1 to 30, a lifetime from 1 to
  -- 60 seconds and a URL that parses as a loopback origin; the observer reads `/api/status` of this origin.
  pub new_observer_iff :
      (management_url : String) (scope : ExecutionIntent) (timeout : Float) (ttl : ℤ)
      (o : MeshLlmStatusObserver)
      → (new_observer lib management_url scope timeout ttl ≡ ok o)
        ↔ IsConstructed management_url scope timeout ttl o
  new_observer_iff management_url scope timeout ttl o = (
    new_observer_sound management_url scope timeout ttl o,
    new_observer_complete management_url scope timeout ttl o,
  )
