-- ===== src/Login/Flow.antt =====
-- services/oidcClient.ts: `beginOidcLogin` and `completeOidcLogin`. The identity provider, the
-- digest and the random bytes are parameters; the parameters of a URL are a list of pairs.
pub mod Once
pub mod Settled
pub mod Login
use kaims_latest.Prelude.{
  ℕ, Bool, true, false, not, ◌&&◌, ◌||◌, List, [], ◌∷◌, ◌++◌, Option, none, some, ◌==◌,
  if◌then◌else◌,
}
use kaims_latest.Js.Text.{Text, js, nonempty, text_eq, without_slash}
use kaims_latest.Login.Encoding.{base64_url}

pub record AuthConfig : Type 0 where
  pub issuer : Option Text
  pub client_id : Option Text

pub record Discovery : Type 0 where
  pub authorization_endpoint : Text
  pub token_endpoint : Text

-- What comes of a `fetch` whose response a schema parses: an error of the platform, a response with
-- a status of failure, or what the schema takes. A schema that refuses throws, as the platform does.
pub data Reply {ℓ} (A : Type ℓ) : Type ℓ where
  throws : Text → Reply A
  refused : Reply A
  parsed : A → Reply A

abbrev pub Params : Type 0
Params = List (Text × Text)

pub record Request : Type 0 where
  pub endpoint : Text
  pub body : Params

-- The identity provider, by the address of its configuration and by its token endpoint.
pub record Provider : Type 0 where
  pub configuration : Text → Reply Discovery
  pub exchange : Request → Reply Text

-- What the page has: the two items of the session's storage, its address, where it was sent by
-- `location.assign`, and the token requests that it made.
pub record Page : Type 0 where
  pub verifier : Option Text
  pub state : Option Text
  pub origin : Text
  pub pathname : Text
  pub search : Params
  pub assigned : Option Request
  pub requests : List Request

pub data Outcome : Type 0 where
  error : Text → Outcome
  returned : Option Text → Outcome

abbrev pub given : Option Text → Bool
given none = false
given (some t) = nonempty t

abbrev pub text_or_empty : Option Text → Text
text_or_empty none = []
text_or_empty (some t) = t

abbrev pub same_text : Option Text → Option Text → Bool
same_text (some s) (some t) = text_eq s t
same_text none none = true
same_text _ _ = false

-- `params.get(key)`
unfoldable pub get : Text → Params → Option Text
unfolding text_eq
get key [] = none
get key ((k, v) ∷ params) = let rest = get key params in if text_eq k key then some v else rest

-- `issuer?.replace(/\/$/, "")` in a template, where a missing issuer reads `undefined`.
unfoldable pub issuer_text : Option Text → Text
unfolding without_slash js
issuer_text none = js "undefined"
issuer_text (some t) = without_slash t

unfoldable pub discovery : Provider → AuthConfig → Reply Discovery
unfolding issuer_text js
discovery provider config =
    provider.configuration (issuer_text config.issuer ++ js "/.well-known/openid-configuration")

abbrev pub discovery_failed : Text
discovery_failed = js "Identity provider discovery failed"

abbrev pub redirect_uri : Page → Text
redirect_uri page = page.origin ++ page.pathname

module _ (sha256 : Text → Text) where
  unfoldable pub authorization_query : AuthConfig → Text → Text → Page → Params
  unfolding js base64_url
  authorization_query config verifier state page =
      (js "client_id", text_or_empty config.client_id)
      ∷ (js "response_type", js "code")
      ∷ (js "redirect_uri", redirect_uri page)
      ∷ (js "scope", js "openid profile email")
      ∷ (js "code_challenge", base64_url (sha256 verifier))
      ∷ (js "code_challenge_method", js "S256")
      ∷ (js "state", state)
      ∷ []

  -- What follows the discovery, with the 48 and the 24 random bytes.
  unfoldable pub send : AuthConfig → Text → Text → Reply Discovery → Page → Page × Outcome
  unfolding authorization_query base64_url
  send config bytes state_bytes (throws m) page = (page, error m)
  send config bytes state_bytes refused page = (page, error discovery_failed)
  send config bytes state_bytes (parsed metadata) page =
      let verifier = base64_url bytes in
      let state = base64_url state_bytes in
      (
        record page {
          verifier = some verifier;
          state = some state;
          assigned = some (record {
            endpoint = metadata.authorization_endpoint;
            body = authorization_query config verifier state page;
          });
        },
        returned none,
      )

  unfoldable pub begin_oidc_login : Provider → AuthConfig → Text → Text → Page → Page × Outcome
  unfolding send discovery
  begin_oidc_login provider config bytes state_bytes page =
      if not (given config.issuer) || not (given config.client_id)
      then (page, error (js "OIDC is not configured"))
      else send config bytes state_bytes (discovery provider config) page

unfoldable pub token_body : AuthConfig → Page → Params
unfolding get js
token_body config page =
    (js "grant_type", js "authorization_code")
    ∷ (js "client_id", text_or_empty config.client_id)
    ∷ (js "code", text_or_empty (get (js "code") page.search))
    ∷ (js "code_verifier", text_or_empty page.verifier)
    ∷ (js "redirect_uri", redirect_uri page)
    ∷ []

abbrev pub exchange_failed : Text
exchange_failed = js "OIDC authorization code exchange failed"

-- What follows the token request.
abbrev pub accept : Reply Text → Page → Page × Outcome
accept (throws m) page = (page, error m)
accept refused page = (page, error exchange_failed)
accept (parsed token) page =
    (record page { verifier = none; state = none; search = [] }, returned (some token))

unfoldable pub redeem : Provider → AuthConfig → Reply Discovery → Page → Page × Outcome
unfolding token_body
redeem provider config (throws m) page = (page, error m)
redeem provider config refused page = (page, error discovery_failed)
redeem provider config (parsed metadata) page =
    let request : Request = record {
      endpoint = metadata.token_endpoint;
      body = token_body config page;
    } in
    accept (provider.exchange request) (record page { requests = page.requests ++ request ∷ [] })

abbrev pub state_failed : Text
state_failed = js "OIDC callback state validation failed"

abbrev pub client_failed : Text
client_failed = js "OIDC client is not configured"

unfoldable pub complete_oidc_login : Provider → AuthConfig → Page → Page × Outcome
unfolding get redeem discovery
complete_oidc_login provider config page =
    if not (given (get (js "code") page.search))
    then (page, returned none)
    else if not (given page.state)
        || not (same_text (get (js "state") page.search) page.state)
        || not (given page.verifier)
    then (page, error state_failed)
    else if not (given config.client_id)
    then (page, error client_failed)
    else redeem provider config (discovery provider config) page
