-- ===== src/Output/Pyroscope/Request.antt =====
-- What a server sees of a request: its target, its parameters, its headers and its body.
use php_fast_profile.Base.{ℕ, ◌/◌, List, [], ◌∷◌, ◌++◌, map, Option, none, some, ◌≡◌, refl, ap, ◌∙◌}
use php_fast_profile.Base.Text.{Text, codes, to_string}
use php_fast_profile.Output.Config.{PyroscopeConfig}
use php_fast_profile.Output.Pyroscope.{RequestCall, bearer, tenant, ingest_request}

-- What one call adds.
pub url_of : RequestCall → List Text
url_of (RequestCall.post url) = url ∷ []
url_of call = []

pub parameter_of : RequestCall → List (Text × Text)
parameter_of (RequestCall.query name value) = (name, value) ∷ []
parameter_of call = []

pub header_of : RequestCall → List (Text × Text)
header_of (RequestCall.set name value) = (name, value) ∷ []
header_of call = []

pub body_of : RequestCall → List (List ℕ)
body_of (RequestCall.send_bytes body) = body ∷ []
body_of call = []

pub gather {ℓ} : {A : Type ℓ} → (RequestCall → List A) → List RequestCall → List A
gather f [] = []
gather f (call ∷ calls) = f call ++ gather f calls

-- A header that is sent if its value is configured.
pub optional : Text → (Text → Text) → Option Text → List (Text × Text)
optional name f none = []
optional name f (some value) = (name, f value) ∷ []

-- The ingestion of a profile's bytes, for a window from `from` to `until` in nanoseconds.
pub record Ingests (cfg : PyroscopeConfig) (bytes : List ℕ) (from until : ℕ)
    (calls : List RequestCall) : Type 0 where
  pub url : gather url_of calls ≡ (cfg.url ++ codes "/ingest") ∷ []
  pub parameters :
      gather parameter_of calls
      ≡ (codes "name", cfg.name)
        ∷ (codes "from", to_string (from / 1_000_000_000))
        ∷ (codes "until", to_string (until / 1_000_000_000))
        ∷ (codes "format", codes "pprof")
        ∷ (codes "spyName", codes "pfp")
        ∷ []
  pub headers :
      gather header_of calls
      ≡ (codes "Content-Type", codes "application/octet-stream")
        ∷ (optional (codes "Authorization") (λ token. codes "Bearer " ++ token) cfg.auth_token
            ++ (optional (codes "X-Scope-OrgID") (λ id. id) cfg.tenant_id ++ cfg.headers))
  pub body : gather body_of calls ≡ bytes ∷ []

skip : {A : Type 0} {xs ys zs : List A} → xs ≡ [] → ys ≡ zs → xs ++ ys ≡ zs
skip {ys = ys} e h = ap (λ ws. ws ++ ys) e ∙ h

prefix : {A : Type 0} {x : A} {ys zs : List A} → ys ≡ zs → x ∷ ys ≡ x ∷ zs
prefix {x = x} e = ap (λ ws. x ∷ ws) e

set_all : List (Text × Text) → List RequestCall
set_all hs = map (λ h. RequestCall.set h.0 h.1) hs

-- The configured headers add nothing but themselves.
gather-none :
    {A : Type 0} (f : RequestCall → List A)
    → ((name value : Text) → f (RequestCall.set name value) ≡ [])
    → (hs : List (Text × Text)) (body : List ℕ)
    → gather f (set_all hs ++ (RequestCall.send_bytes body ∷ []))
      ≡ f (RequestCall.send_bytes body) ++ []
unfolding gather set_all
gather-none f h [] body = refl
gather-none f h ((name, value) ∷ hs) body = skip (h name value) (gather-none f h hs body)

gather-headers :
    (hs : List (Text × Text)) (body : List ℕ)
    → gather header_of (set_all hs ++ (RequestCall.send_bytes body ∷ [])) ≡ hs
unfolding gather set_all header_of
gather-headers [] body = refl
gather-headers ((name, value) ∷ hs) body = prefix (gather-headers hs body)

module _ (cfg : PyroscopeConfig) (body : List ℕ) (from until : ℕ) where
  -- The calls, by the two optional headers.
  with_headers : (token id : Option Text) → List RequestCall
  unfolding set_all
  with_headers token id =
      bearer token ++ (tenant id ++ (set_all cfg.headers ++ (RequestCall.send_bytes body ∷ [])))

  gather-with_headers :
      {A : Type 0} (f : RequestCall → List A)
      → ((name value : Text) → f (RequestCall.set name value) ≡ [])
      → (token id : Option Text)
      → gather f (with_headers token id) ≡ f (RequestCall.send_bytes body) ++ []
  unfolding with_headers bearer tenant gather
  gather-with_headers f h none none = gather-none f h cfg.headers body
  gather-with_headers f h none (some id) = skip (h _ id) (gather-none f h cfg.headers body)
  gather-with_headers f h (some token) none = skip (h _ _) (gather-none f h cfg.headers body)
  gather-with_headers f h (some token) (some id) =
      skip (h _ _) (skip (h _ id) (gather-none f h cfg.headers body))

  headers-with_headers :
      (token id : Option Text)
      → gather header_of (with_headers token id)
        ≡ optional (codes "Authorization") (λ token. codes "Bearer " ++ token) token
          ++ (optional (codes "X-Scope-OrgID") (λ id. id) id ++ cfg.headers)
  unfolding with_headers bearer tenant gather header_of optional
  headers-with_headers none none = gather-headers cfg.headers body
  headers-with_headers none (some id) = prefix (gather-headers cfg.headers body)
  headers-with_headers (some token) none = prefix (gather-headers cfg.headers body)
  headers-with_headers (some token) (some id) = prefix (prefix (gather-headers cfg.headers body))

  pub ingest_request-Ingests : Ingests cfg body from until (ingest_request cfg body from until)
  unfolding ingest_request with_headers gather url_of parameter_of header_of body_of set_all
  ingest_request-Ingests = record {
    url = prefix (gather-with_headers url_of (λ n v. refl) cfg.auth_token cfg.tenant_id);
    parameters = prefix (
        prefix (
          prefix (
            prefix (
              prefix
                (gather-with_headers parameter_of (λ n v. refl) cfg.auth_token cfg.tenant_id)))));
    headers = prefix (headers-with_headers cfg.auth_token cfg.tenant_id);
    body = gather-with_headers body_of (λ n v. refl) cfg.auth_token cfg.tenant_id;
  }
