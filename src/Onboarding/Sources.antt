-- ===== src/Onboarding/Sources.antt =====
-- domain/onboardingSources.ts: the sources of a project.
use kaims_latest.Prelude.{
  All-filter_with, ◌≡◌, refl, Bool, true, ◌&&◌, List, [], ◌∷◌, filter, if◌then◌else◌, All, arith,
  inl, inr, ◌⊎◌,
}
use kaims_latest.Js.Text.{Text, js, nonempty}

-- A missing field of the form is the empty text: the code tests them as conditions only.
pub record OnboardingSourceForm : Type 0 where
  pub connection_auth_type : Text
  pub connection_secret_ref : Text
  pub logs_url : Text
  pub traces_url : Text
  pub telemetry_url : Text
  pub ticketing_url : Text
  pub email_url : Text

pub record Source : Type 0 where
  pub provider : Text
  pub endpoint_url : Text
  pub signal_types : List Text
  pub auth_type : Text
  pub secret_ref : Text
  pub enabled : Bool

-- A source other than the connection, which has neither an authentication nor a secret.
abbrev pub plain_source : Text → Text → List Text → Source
plain_source provider url signal_types = record {
  provider = provider;
  endpoint_url = url;
  signal_types = signal_types;
  auth_type = js "none";
  secret_ref = [];
  enabled = nonempty url;
}

abbrev pub connection_source : OnboardingSourceForm → Text → Text → Source
connection_source form provider endpoint_url = record {
  provider = provider;
  endpoint_url = endpoint_url;
  signal_types = js "metrics" ∷ js "alerts" ∷ [];
  auth_type = if nonempty form.connection_auth_type then form.connection_auth_type else js "none";
  secret_ref = form.connection_secret_ref;
  enabled = true;
}

abbrev pub is_used : Source → Bool
is_used source = source.enabled && nonempty source.endpoint_url

unfoldable pub candidate_sources : OnboardingSourceForm → Text → Text → List Source
unfolding js
candidate_sources form provider endpoint_url =
    connection_source form provider endpoint_url
    ∷ plain_source (js "logs") form.logs_url (js "logs" ∷ [])
    ∷ plain_source (js "traces") form.traces_url (js "traces" ∷ [])
    ∷ plain_source (js "telemetry") form.telemetry_url (js "metrics" ∷ js "logs" ∷ js "traces" ∷ [])
    ∷ plain_source (js "itsm") form.ticketing_url
        (js "tickets" ∷ js "incidents" ∷ js "changes" ∷ [])
    ∷ plain_source (js "email") form.email_url (js "alerts" ∷ js "email" ∷ [])
    ∷ []

unfoldable pub build_onboarding_sources : OnboardingSourceForm → Text → Text → List Source
unfolding candidate_sources
build_onboarding_sources form provider endpoint_url =
    filter is_used (candidate_sources form provider endpoint_url)

-- A source that goes to an address; only the connection's carries the reference of its secret.
abbrev pub IsBuilt : OnboardingSourceForm → Text → Source → Type 0
IsBuilt form endpoint_url source =
    (nonempty source.endpoint_url ≡ true)
    × ((source.secret_ref ≡ [])
        ⊎ ((source.secret_ref ≡ form.connection_secret_ref) × (source.endpoint_url ≡ endpoint_url)))

abbrev IsHarmless : OnboardingSourceForm → Text → Source → Type 0
IsHarmless form endpoint_url source =
    (source.secret_ref ≡ [])
    ⊎ ((source.secret_ref ≡ form.connection_secret_ref) × (source.endpoint_url ≡ endpoint_url))

-- Every source of a project goes to an address, and the reference of the connection's secret stands
-- in no source but that of the connection's own address.
pub build_onboarding_sources-IsBuilt :
    (form : OnboardingSourceForm) (provider endpoint_url : Text)
    → All (IsBuilt form endpoint_url) (build_onboarding_sources form provider endpoint_url)
unfolding build_onboarding_sources candidate_sources
build_onboarding_sources-IsBuilt form provider endpoint_url =
    All-filter_with (IsHarmless form endpoint_url) (IsBuilt form endpoint_url) is_used
      (candidate_sources form provider endpoint_url)
      (λ source used harmless. (ground (arith, used), harmless))
      (inr (refl, refl), (inl refl, (inl refl, (inl refl, (inl refl, (inl refl, tt))))))
