-- ===== src/Login/Flow/Login.antt =====
-- services/oidcClient.ts: a login from its begin to its token.
use kaims_latest.Prelude.{
  ℕ, ◌≡◌, ◌<◌, ◌*◌, refl, ap, ◌∙◌, true, [], ◌∷◌, length, Option, none, some, arith, All,
}
use kaims_latest.Js.Text.{Text, js, nonempty}
use kaims_latest.Js.Text.Equality.{text_eq_refl}
use kaims_latest.Login.Encoding.{base64_url, IsByte}
use kaims_latest.Login.Encoding.RoundTrip.{length-base64_url}
use kaims_latest.Login.Flow.{
  AuthConfig, Discovery, parsed, Params, Request, Provider, Page, returned, given, text_or_empty,
  get, discovery, authorization_query, send, begin_oidc_login, token_body, redeem,
  complete_oidc_login, same_text,
}
use kaims_latest.Login.Flow.Once.{IsAccepted}

-- The address at which the provider sends the user back, with a code and the state it was given.
abbrev pub callback : Text → Option Request → Params
callback code none = []
callback code (some request) =
    (js "code", code) ∷ (js "state", text_or_empty (get (js "state") request.body)) ∷ []

abbrev pub challenge_of : Option Request → Option Text
challenge_of none = none
challenge_of (some request) = get (js "code_challenge") request.body

nonempty-length : (t : Text) → 0 < length t → nonempty t ≡ true
nonempty-length [] h = ground arith
nonempty-length (c ∷ t) h = refl

nonempty-base64_url :
    (bytes : Text) (n : ℕ)
    → All IsByte bytes
    → length bytes ≡ 3 * n
    → 0 < n
    → nonempty (base64_url bytes) ≡ true
nonempty-base64_url bytes n h k p =
    nonempty-length (base64_url bytes) (omega (arith, length-base64_url bytes n h k))

module _ (sha256 : Text → Text) where
  -- The page that a login leaves.
  abbrev sent_page : AuthConfig → Discovery → Text → Text → Page → Page
  sent_page config metadata bytes state_bytes page = record page {
    verifier = some (base64_url bytes);
    state = some (base64_url state_bytes);
    assigned = some (record {
      endpoint = metadata.authorization_endpoint;
      body = authorization_query sha256 config (base64_url bytes) (base64_url state_bytes) page;
    });
  }

  begin-sends :
      (provider : Provider) (config : AuthConfig) (metadata : Discovery) (bytes state_bytes : Text)
      (page : Page)
      → given config.issuer ≡ true
      → given config.client_id ≡ true
      → discovery provider config ≡ parsed metadata
      → (begin_oidc_login sha256 provider config bytes state_bytes page).0
        ≡ sent_page config metadata bytes state_bytes page
  unfolding begin_oidc_login send
  begin-sends provider config metadata bytes state_bytes page issuer client found =
      rw (issuer, client, found) refl

same_text_refl : (o : Option Text) → same_text o o ≡ true
same_text_refl none = refl
same_text_refl (some t) = text_eq_refl t

-- A page that is accepted redeems its code.
complete-accepted :
    (provider : Provider) (config : AuthConfig) (metadata : Discovery) (page : Page) (token : Text)
    → IsAccepted config page
    → discovery provider config ≡ parsed metadata
    → provider.exchange
        (record { endpoint = metadata.token_endpoint; body = token_body config page })
      ≡ parsed token
    → (complete_oidc_login provider config page).1 ≡ returned (some token)
unfolding complete_oidc_login redeem
complete-accepted provider config metadata page token a found granted =
    let same : same_text (get (js "state") page.search) page.state ≡ true =
      rw (a.state) (same_text_refl page.state) in
    rw (a.code, a.has_state, same, a.verifier, a.client, found, granted) refl

module _ (sha256 : Text → Text) where
  -- The page after the user comes back with a code.
  abbrev pub back_page : Provider → AuthConfig → Text → Text → Page → Text → Page
  back_page provider config bytes state_bytes page code =
      let there = (begin_oidc_login sha256 provider config bytes state_bytes page).0 in
      record there { search = callback code there.assigned }

  -- A login succeeds: where the provider is found and sends the user back with a code and the state
  -- that it was given, and gives the token to whoever shows this code with a text whose digest is
  -- the challenge that it was given, the callback returns the token. The verifier is made of 48
  -- bytes and the state of 24, whichever they are.
  pub complete_oidc_login-begin_oidc_login :
      (provider : Provider) (config : AuthConfig) (metadata : Discovery) (bytes state_bytes : Text)
      (page : Page) (code token : Text)
      → All IsByte bytes
      → length bytes ≡ 48
      → All IsByte state_bytes
      → length state_bytes ≡ 24
      → given config.issuer ≡ true
      → given config.client_id ≡ true
      → nonempty code ≡ true
      → discovery provider config ≡ parsed metadata
      → ((r : Request) (v : Text)
          → r.endpoint ≡ metadata.token_endpoint
          → get (js "code") r.body ≡ some code
          → get (js "code_verifier") r.body ≡ some v
          → challenge_of (begin_oidc_login sha256 provider config bytes state_bytes page).0.assigned
            ≡ some (base64_url (sha256 v))
          → provider.exchange r ≡ parsed token)
      → (complete_oidc_login provider config
          (back_page provider config bytes state_bytes page code)).1
        ≡ returned (some token)
  unfolding get authorization_query token_body
  complete_oidc_login-begin_oidc_login provider config metadata bytes state_bytes page code token hb
        lb hs ls issuer client hc found grants =
      let sends =
        begin-sends sha256 provider config metadata bytes state_bytes page issuer client found in
      let there = sent_page sha256 config metadata bytes state_bytes page in
      let back = record there { search = callback code there.assigned } in
      let accepted : IsAccepted config back = record {
        code = hc;
        has_state = nonempty-base64_url state_bytes 8 hs (omega (arith, ls)) (omega arith);
        state = refl;
        verifier = nonempty-base64_url bytes 16 hb (omega (arith, lb)) (omega arith);
        client = client;
      } in
      let granted =
        grants (record { endpoint = metadata.token_endpoint; body = token_body config back })
          (base64_url bytes) refl refl refl (ap (λ (p : Page). challenge_of p.assigned) sends) in
      ap
        (λ (p : Page).
          (complete_oidc_login provider config (record p { search = callback code p.assigned })).1)
        sends
      ∙ complete-accepted provider config metadata back token accepted found granted
