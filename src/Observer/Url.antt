-- ===== src/Observer/Url.antt =====
-- `_status_url` and the constructor of the observer. What urllib.parse and ipaddress answer comes
-- from outside.
use Prim.Native.Char.{Char, code}
use locus_mesh.Base.{
  ℕ, String, ◌⧺◌, Bool, true, false, not, ◌||◌, Option, none, some, ◌==◌, nat_eq, string_eq,
  if◌then◌else◌,
}
use locus_mesh.Fail.{Exn, Result, ok, err, value_error, ◌>>=◌, ◌>>◌, raise_if}
use locus_mesh.Scope.{ExecutionIntent}
use locus_mesh.Observer.Project.{MeshLlmStatusObserver}
use locus_mesh.Observer.Timeout.{ℤ, Float, timely, lifetime}

-- urllib.parse.ParseResult; reading `port` raises where it is no port number.
pub record ParseResult : Type 0 where
  pub scheme : String
  pub netloc : String
  pub path : String
  pub query : String
  pub fragment : String
  pub username : Option String
  pub password : Option String
  pub hostname : Option String
  pub port : Result (Option ℕ)

-- str.strip and str.lower, urlparse, and whether ip_address(host) is a loopback address.
pub record UrlLibrary : Type 0 where
  pub strip : String → String
  pub lower : String → String
  pub urlparse : String → Result ParseResult
  pub ip_address : String → Result Bool

-- text.rstrip of one character
kept : Bool → Char → String → String
kept true d String.[] = String.[]
kept _ d rest = String.◌∷◌ d rest

unfoldable pub rstrip : Char → String → String
unfolding kept
rstrip c String.[] = String.[]
rstrip c (String.◌∷◌ d s) = kept (code c == code d) d (rstrip c s)

-- bool(text), also where the text may be None
abbrev pub is_set : Option String → Bool
is_set none = false
is_set (some String.[]) = false
is_set (some _) = true

abbrev pub with_default : Option String → String
with_default none = ""
with_default (some s) = s

unfoldable pub loopback : String → Result Bool → Result (Unit {0})
loopback host (ok true) = ok tt
loopback host _ = err (value_error "management_url must use a loopback host")

-- except ValueError
port_error : Exn → Exn
port_error (value_error m) = value_error "management_url contains an invalid port"
port_error e = e

unfoldable pub valid_port : Result (Option ℕ) → Result (Unit {0})
unfolding port_error
valid_port (ok port) = ok tt
valid_port (err e) = err (port_error e)

abbrev pub is_web : String → Bool
is_web scheme = scheme == "http" || scheme == "https"

abbrev pub is_root : String → Bool
is_root path = path == "" || path == "/"

abbrev pub not_web : ParseResult → Bool
not_web parsed = not (is_web parsed.scheme) || not (is_set parsed.hostname)

abbrev pub decorated : ParseResult → Bool
decorated parsed =
    is_set parsed.username
    || is_set parsed.password
    || is_set (some parsed.query)
    || is_set (some parsed.fragment)

-- self._source_endpoint, self._status_url = urls, and the other attributes
abbrev pub observer_with : ExecutionIntent → ℕ → String × String → MeshLlmStatusObserver
observer_with scope ttl urls = record {
  source_endpoint = urls.0;
  status_url = urls.1;
  requested_max_scope = scope;
  ttl_seconds = ttl;
}

module _ (lib : UrlLibrary) where
  -- the tests of `_status_url` on the parsed URL, in their order
  unfoldable pub check_url : ParseResult → Result (Unit {0})
  unfolding loopback valid_port rstrip
  check_url parsed = do
    raise_if (not_web parsed) (value_error "management_url must be an HTTP(S) loopback origin")
    raise_if (decorated parsed)
        (value_error "management_url must not contain credentials, query, or fragment")
    raise_if (not (is_root parsed.path))
        (value_error "management_url must be an origin without a path")
    valid_port parsed.port
    let host = lib.lower (rstrip "." (with_default parsed.hostname))
    if host == "localhost" then ok tt else loopback host (lib.ip_address host)

  -- urlunparse((scheme, netloc, "", "", "", "")).rstrip("/"), for http and https
  unfoldable pub origin_of : ParseResult → String
  unfolding rstrip
  origin_of parsed = rstrip "/" (parsed.scheme ⧺ ("://" ⧺ parsed.netloc))

  unfoldable pub status_url : String → Result (String × String)
  unfolding check_url origin_of
  status_url value = do
    parsed ← lib.urlparse (lib.strip value)
    checked ← check_url parsed
    ok (origin_of parsed, origin_of parsed ⧺ "/api/status")

  unfoldable pub new_observer : String → ExecutionIntent → Float → ℤ → Result MeshLlmStatusObserver
  unfolding status_url timely lifetime
  new_observer management_url requested_max_scope timeout_seconds ttl_seconds = do
    raise_if (not (timely timeout_seconds))
        (value_error "timeout_seconds must be between 0.1 and 30")
    ttl ← lifetime ttl_seconds
    urls ← status_url management_url
    ok (observer_with requested_max_scope ttl urls)
