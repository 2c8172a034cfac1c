-- ===== src/Login/Flow/Once.antt =====
-- services/oidcClient.ts: what a callback may do.
use kaims_latest.Prelude.{
  ◌≡◌, refl, ap, ◌∙◌, true, not, ◌||◌, List, [], ◌∷◌, ◌++◌, Option, none, some, arith, Bool-cases,
  inl, inr, ◌⊎◌,
}
use kaims_latest.Js.Text.{Text, js}
use kaims_latest.Js.Text.Equality.{text_eq_iff}
use kaims_latest.Login.Flow.{
  AuthConfig, Discovery, Reply, throws, refused, parsed, Request, Provider, Page, Outcome, error,
  returned, given, text_or_empty, same_text, get, discovery, token_body, accept, redeem,
  state_failed, client_failed, complete_oidc_login,
}

-- What holds of a callback that gets as far as the discovery.
pub record IsAccepted (config : AuthConfig) (page : Page) : Type 0 where
  pub code : given (get (js "code") page.search) ≡ true
  pub has_state : given page.state ≡ true
  pub state : get (js "state") page.search ≡ page.state
  pub verifier : given page.verifier ≡ true
  pub client : given config.client_id ≡ true

same_text-eq : (s t : Option Text) → same_text s t ≡ true → s ≡ t
same_text-eq none none h = refl
same_text-eq none (some t) h = ground arith
same_text-eq (some s) none h = ground arith
same_text-eq (some s) (some t) h = rw ((text_eq_iff s t).0 h) refl

-- A callback ends before any request, with its page as it was, or it is accepted.
pub complete-cases :
    (provider : Provider) (config : AuthConfig) (page : Page)
    → ((complete_oidc_login provider config page ≡ (page, returned none))
        ⊎ ((m : Text) × (complete_oidc_login provider config page ≡ (page, error m))))
      ⊎ (IsAccepted config page
          × (complete_oidc_login provider config page
              ≡ redeem provider config (discovery provider config) page))
unfolding complete_oidc_login
complete-cases provider config page = elim (Bool-cases (given (get (js "code") page.search))) [
  | inr no_code ↦ inl (inl (rw no_code refl))
  | inl code ↦
      elim (Bool-cases (
        not (given page.state)
        || not (same_text (get (js "state") page.search) page.state)
        || not (given page.verifier))) [
          | inl bad ↦ inl (inr (state_failed, rw (code, bad) refl))
          | inr good ↦ elim (Bool-cases (given config.client_id)) [
            | inr no_client ↦ inl (inr (client_failed, rw (code, good, no_client) refl))
            | inl client ↦ inr (
              record {
                code = code;
                has_state = ground (arith, good);
                state =
                    same_text-eq (get (js "state") page.search) page.state (ground (arith, good));
                verifier = ground (arith, good);
                client = client;
              },
              rw (code, good, client) refl,
            )
          ]
        ]
]

-- What an accepted callback does: it ends before the token request, or sends one.
pub redeem-cases :
    (provider : Provider) (config : AuthConfig) (reply : Reply Discovery) (page : Page)
    → ((m : Text) × (redeem provider config reply page ≡ (page, error m)))
      ⊎ ((r : Request) × (r.body ≡ token_body config page)
          × (redeem provider config reply page
              ≡ accept (provider.exchange r) (record page { requests = page.requests ++ r ∷ [] })))
unfolding redeem
redeem-cases provider config (throws m) page = inl (m, refl)
redeem-cases provider config refused page = inl (_, refl)
redeem-cases provider config (parsed metadata) page =
    inr (record { endpoint = metadata.token_endpoint; body = token_body config page }, refl, refl)

accept-requests :
    (reply : Reply Text) (page : Page) → (accept reply page).0.requests ≡ page.requests
accept-requests (throws m) page = refl
accept-requests refused page = refl
accept-requests (parsed token) page = refl

given-some : (o : Option Text) → given o ≡ true → some (text_or_empty o) ≡ o
given-some none h = ground arith
given-some (some t) h = refl

token_body-shows :
    (config : AuthConfig) (page : Page)
    → IsAccepted config page
    → (get (js "code_verifier") (token_body config page) ≡ page.verifier)
      × (get (js "code") (token_body config page) ≡ get (js "code") page.search)
unfolding token_body
token_body-shows config page a =
    (given-some page.verifier a.verifier, given-some (get (js "code") page.search) a.code)

abbrev requests_of : Page × Outcome → List Request
requests_of r = r.0.requests

-- Either no token request is sent, or one is sent, with the code of the callback and the verifier of
-- the session; then the callback has the state of the session, which is not empty. So a code that
-- somebody else's login gave is never redeemed in this session.
pub complete_oidc_login-guarded :
    (provider : Provider) (config : AuthConfig) (page : Page)
    → ((complete_oidc_login provider config page).0.requests ≡ page.requests)
      ⊎ ((given page.state ≡ true)
          × (get (js "state") page.search ≡ page.state)
          × ((r : Request) × ((complete_oidc_login provider config page).0.requests
                ≡ page.requests ++ r ∷ [])
              × (get (js "code") r.body ≡ get (js "code") page.search)
              × (get (js "code_verifier") r.body ≡ page.verifier)))
complete_oidc_login-guarded provider config page = elim (complete-cases provider config page) [
  | inl (inl e) ↦ inl (ap requests_of e)
  | inl (inr (m, e)) ↦ inl (ap requests_of e)
  | inr (a, e) ↦ elim (redeem-cases provider config (discovery provider config) page) [
    | inl (m, f) ↦ inl (ap requests_of (e ∙ f))
    | inr (r, body, f) ↦
        let shows = token_body-shows config page a in
        inr (
          a.has_state,
          a.state,
          (
            r,
            ap requests_of (e ∙ f)
                ∙ accept-requests (provider.exchange r)
                    (record page { requests = page.requests ++ r ∷ [] }),
            ap (get (js "code")) body ∙ shows.1,
            ap (get (js "code_verifier")) body ∙ shows.0,
          ),
        )
  ]
]
