-- ===== src/Login/Tests.antt =====
-- Runs of the login, and concrete instances of its properties.
use kaims_latest.Prelude.{
  ℕ, zero, suc, ◌≡◌, refl, true, [], ◌∷◌, ◌++◌, none, some, if◌then◌else◌, ◌⊎◌, arith,
}
use kaims_latest.Js.Text.{Text, js, text_eq, replace_all, replace_unit, without_slash}
use kaims_latest.Login.Encoding.{base64_unit, btoa, base64_url}
use kaims_latest.Login.Flow.{
  AuthConfig, Discovery, parsed, refused, Request, Provider, Page, error, returned, given,
  same_text, get, issuer_text, discovery, authorization_query, send, begin_oidc_login, token_body,
  redeem, exchange_failed, state_failed, complete_oidc_login,
}
use kaims_latest.Login.Flow.Once.{complete_oidc_login-guarded}
use kaims_latest.Login.Flow.Settled.{complete_oidc_login-once}
use kaims_latest.Login.Flow.Login.{back_page, complete_oidc_login-begin_oidc_login}

runs : Unit {0}
unfolding js text_eq replace_all replace_unit base64_unit btoa base64_url get without_slash
    issuer_text discovery authorization_query send begin_oidc_login token_body redeem
    complete_oidc_login
runs = tt

abbrev bytes_of : ℕ → Text
bytes_of zero = []
bytes_of (suc n) = 251 ∷ bytes_of n

abbrev config : AuthConfig
config = record { issuer = some (js "https://id/"); client_id = some (js "kaims") }

abbrev metadata : Discovery
metadata = record {
  authorization_endpoint = js "https://id/auth";
  token_endpoint = js "https://id/token";
}

-- A provider that gives a token for the code `c1` only.
abbrev provider : Provider
provider = record {
  configuration = λ address. parsed metadata;
  exchange = λ r.
      if same_text (get (js "code") r.body) (some (js "c1")) then parsed (js "tok") else refused;
}

abbrev digest : Text → Text
digest t = 7 ∷ t

abbrev page : Page
page = record {
  verifier = none;
  state = none;
  origin = js "https://kaims";
  pathname = js "/";
  search = [];
  assigned = none;
  requests = [];
}

abbrev back : Text → Page
back code = back_page digest provider config (bytes_of 48) (bytes_of 24) page code

abbrev forged : Page
forged = record (back (js "c1")) { search = (js "code", js "c1") ∷ (js "state", js "x") ∷ [] }

login_tests :
    (base64_url (js "KaiMS!!") ≡ js "S2FpTVMhIQ")
    × (issuer_text (some (js "https://id/")) ≡ js "https://id")
    × ((complete_oidc_login provider config page).1 ≡ returned none)
    × ((complete_oidc_login provider config forged).1 ≡ error state_failed)
    × ((complete_oidc_login provider config (back (js "c2"))).1 ≡ error exchange_failed)
unfolding runs
login_tests = (refl, refl, refl, refl, refl)

complete_oidc_login-begin_oidc_login_example :
    (complete_oidc_login provider config (back (js "c1"))).1 ≡ returned (some (js "tok"))
unfolding runs
complete_oidc_login-begin_oidc_login_example =
    complete_oidc_login-begin_oidc_login digest provider config metadata (bytes_of 48) (bytes_of 24)
      page (js "c1") (js "tok") (ground arith) refl (ground arith) refl refl refl refl refl
      (λ r v endpoint code verifier challenge. rw code refl)

complete_oidc_login-guarded_example :
    ((complete_oidc_login provider config forged).0.requests ≡ forged.requests)
    ⊎ ((given forged.state ≡ true)
        × (get (js "state") forged.search ≡ forged.state)
        × ((r : Request) × ((complete_oidc_login provider config forged).0.requests
              ≡ forged.requests ++ r ∷ [])
            × (get (js "code") r.body ≡ get (js "code") forged.search)
            × (get (js "code_verifier") r.body ≡ forged.verifier)))
complete_oidc_login-guarded_example = complete_oidc_login-guarded provider config forged

complete_oidc_login-once_example :
    ((complete_oidc_login provider config (back (js "c1"))).0.verifier ≡ none)
    × ((complete_oidc_login provider config (back (js "c1"))).0.state ≡ none)
    × ((complete_oidc_login provider config (back (js "c1"))).0.search ≡ [])
    × (complete_oidc_login provider config
          (record (complete_oidc_login provider config (back (js "c1"))).0 {
            search = (back (js "c1")).search;
          })
        ≡ (
          record (complete_oidc_login provider config (back (js "c1"))).0 {
            search = (back (js "c1")).search;
          },
          error state_failed,
        ))
unfolding runs
complete_oidc_login-once_example =
    complete_oidc_login-once provider provider config (back (js "c1")) (js "tok")
      (back (js "c1")).search refl refl
