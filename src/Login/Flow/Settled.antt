-- ===== src/Login/Flow/Settled.antt =====
-- services/oidcClient.ts: what a callback leaves behind.
use kaims_latest.Prelude.{
  ◌≡◌, refl, sym, subst, ◌∙◌, true, [], ◌∷◌, ◌++◌, none, some, arith, inl, inr,
}
use kaims_latest.Js.Text.{Text, js}
use kaims_latest.Login.Flow.{
  AuthConfig, Reply, throws, refused, parsed, Params, Provider, Page, Outcome, error, returned,
  given, get, discovery, accept, state_failed, complete_oidc_login,
}
use kaims_latest.Login.Flow.Once.{complete-cases, redeem-cases}

-- The login's part of the page: what the storage and the address hold.
pub record IsCleared (page : Page) : Type 0 where
  pub verifier : page.verifier ≡ none
  pub state : page.state ≡ none
  pub search : page.search ≡ []

pub record IsKept (before after : Page) : Type 0 where
  pub verifier : after.verifier ≡ before.verifier
  pub state : after.state ≡ before.state
  pub search : after.search ≡ before.search

-- The page after a login, by its outcome.
abbrev IsSettled : Page → Page × Outcome → Type 0
IsSettled before (after, error m) = IsKept before after
IsSettled before (after, returned none) = IsKept before after
IsSettled before (after, returned (some token)) = IsCleared after

accept-IsSettled :
    (reply : Reply Text) (before page : Page)
    → IsKept before page
    → IsSettled before (accept reply page)
accept-IsSettled (throws m) before page k = k
accept-IsSettled refused before page k = k
accept-IsSettled (parsed token) before page k = record {
  verifier = refl;
  state = refl;
  search = refl;
}

kept : (page : Page) → IsKept page page
kept page = record { verifier = refl; state = refl; search = refl }

complete-IsSettled :
    (provider : Provider) (config : AuthConfig) (page : Page)
    → IsSettled page (complete_oidc_login provider config page)
complete-IsSettled provider config page = elim (complete-cases provider config page) [
  | inl (inl e) ↦ subst (IsSettled page) (sym e) (kept page)
  | inl (inr (m, e)) ↦ subst (IsSettled page) (sym e) (kept page)
  | inr (a, e) ↦ elim (redeem-cases provider config (discovery provider config) page) [
    | inl (m, f) ↦ subst (IsSettled page) (sym (e ∙ f)) (kept page)
    | inr (r, body, f) ↦ subst (IsSettled page) (sym (e ∙ f)) (
        accept-IsSettled (provider.exchange r) page
          (record page { requests = page.requests ++ r ∷ [] })
          (record { verifier = refl; state = refl; search = refl }))
  ]
]

settled-error :
    (page : Page) (r : Page × Outcome) (m : Text)
    → IsSettled page r
    → r.1 ≡ error m
    → IsKept page r.0
settled-error page (after, error n) m h k = h
settled-error page (after, returned none) m h k = h
settled-error page (after, returned (some t)) m h k = ground (arith, k)

settled-token :
    (page : Page) (r : Page × Outcome) (token : Text)
    → IsSettled page r
    → r.1 ≡ returned (some token)
    → IsCleared r.0
settled-token page (after, error n) token h k = ground (arith, k)
settled-token page (after, returned none) token h k = ground (arith, k)
settled-token page (after, returned (some t)) token h k = h

-- A callback that fails, for whatever reason, leaves the verifier, the state and the address as they
-- were.
pub complete_oidc_login-error :
    (provider : Provider) (config : AuthConfig) (page : Page) (m : Text)
    → (complete_oidc_login provider config page).1 ≡ error m
    → IsKept page (complete_oidc_login provider config page).0
complete_oidc_login-error provider config page m h =
    settled-error page (complete_oidc_login provider config page) m
      (complete-IsSettled provider config page) h

without_state :
    (provider : Provider) (config : AuthConfig) (page : Page)
    → given (get (js "code") page.search) ≡ true
    → page.state ≡ none
    → complete_oidc_login provider config page ≡ (page, error state_failed)
unfolding complete_oidc_login
without_state provider config page code no_state = rw (code, no_state) refl

-- A login that gave a token leaves no verifier, no state and an address without a query: any later
-- callback with a code, the same one or another, at any provider, is refused with the page as it
-- was, so before a request is made.
pub complete_oidc_login-once :
    (provider other : Provider) (config : AuthConfig) (page : Page) (token : Text) (search : Params)
    → (complete_oidc_login provider config page).1 ≡ returned (some token)
    → given (get (js "code") search) ≡ true
    → ((complete_oidc_login provider config page).0.verifier ≡ none)
      × ((complete_oidc_login provider config page).0.state ≡ none)
      × ((complete_oidc_login provider config page).0.search ≡ [])
      × (complete_oidc_login other config
            (record (complete_oidc_login provider config page).0 { search = search })
          ≡ (
            record (complete_oidc_login provider config page).0 { search = search },
            error state_failed,
          ))
complete_oidc_login-once provider other config page token search h code =
    let cleared =
      settled-token page (complete_oidc_login provider config page) token
        (complete-IsSettled provider config page) h in
    (
      cleared.verifier,
      cleared.state,
      cleared.search,
      without_state other config
          (record (complete_oidc_login provider config page).0 { search = search }) code
          cleared.state,
    )
