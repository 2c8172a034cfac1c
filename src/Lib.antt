-- ===== src/Lib.antt =====
-- KaiMS operations console: a model of the core of its front end.
--
-- The console shows alerts, incidents and remediations that Python services report over HTTP. Its
-- logic stands in plain functions that the React components call: they normalise the
-- statuses, channels and scopes of loosely typed JSON rows, decide which rows of the alert stream
-- are shown, read the timeline of an incident, derive the commands of a remediation, and send the
-- requests with retries and a refresh of the session. Its services log the user in, keep a stream of
-- events open and say which destinations a role may see. This library models those functions of
--   * frontend/react/src/appHelpers.jsx
--   * frontend/react/src/domain/incidentStatus.js, projectIdentity.ts and onboardingSources.ts
--   * frontend/react/src/onboardingUtils.js and onboardingConfig.js
--   * frontend/react/src/services/operationalEvents.ts, oidcClient.ts, apiClient.ts,
--     alerts.ts and queryKeys.ts
--   * frontend/react/src/app/navigation.ts, permissions.ts, queryClient.ts,
--     resilientLazy.ts and routeRuntime.tsx
--
-- Each function keeps its name in snake case (`effectiveIncidentStatus` is
-- `effective_incident_status`).
--
-- Files
--   * Prelude: shared names, Boolean tests, functions on lists and their lemmas.
--   * Js: what the code uses of JavaScript. `Text` is a list of UTF-16 code units; `Value` is a JSON
--     value or `undefined`; `sort_desc` is a stable sort; `Regex` matches with backtracking.
--   * Status: incidentStatus.js, and the status helpers of appHelpers.jsx.
--   * Alerts: the alert stream. Scope selects rows for a monitored application, Channel names the
--     channel of a row, Identity gives its keys and score, Limits caps and fills up the channels,
--     Canonical finds the canonical row of a clicked one, Merge consolidates rows that share a key,
--     Mapping makes rows of closed incidents and of the landing pad.
--   * Fetch: `fallbackFetchTargets` and `fetchJsonNetwork`; `Progress` holds the variables that
--     live across attempts, with the calls made and the time waited as ghosts.
--   * Timeline: the rows of an incident's timeline. Rows classifies one row, Sections groups rows by
--     stage, Order places a row, Path says how far an alert has come, Stages is the workflow's flow,
--     Events says what is shown of an event.
--   * Remediation: Plan is the preview of a plan, Commands the lines that are shown for a
--     remediation, Outcome what is said of its result, Shell the quoting of arguments.
--   * Live: `useOperationalEvents`. Frames cuts the text of the stream into frames, Events handles a
--     frame, Stream is the reading loop, Connection the variables of the effect as a step relation:
--     its links are the calls of `connect` that run, its timers the retries that wait.
--   * Login: Encoding is `base64Url`, Flow is `beginOidcLogin` and `completeOidcLogin` on a page with
--     its storage, its address and the requests it made.
--   * Navigation: Kinds and Items are the table of destinations, Paths goes from paths to
--     destinations and back, Permissions says what a role may open and is shown.
--   * Client: Request is `requestValidated` and the retry rule of the query client, `Held` what a
--     call holds on to; Alerts the requests for alert rows and their query keys; Lazy the routes
--     that are loaded late, with the reloads of the page.
--   * Runtime: Store is the provider of routeRuntime.tsx. A field is a number for what `Object.is`
--     takes for the same value; a slice has an identity and is written in place by `assign`.
--   * Onboarding: Sources builds the sources of a project, Tools has the helpers for roles,
--     monitoring tools and documents, Documents what holds of them. Alerts.Project is
--     `projectIdentityFromAlert`.
--   * Html: `htmlEscape` and `renderHtmlTable`.
--
-- Parameters. `date` stands for the platform's `Date.parse`; `Host` for the network, the messages of
-- platform errors and the schema check of schemas/apiContracts.ts. `json` stands for JSON.parse,
-- `stringify` for JSON.stringify, `number` for `Number`, `random` for the text of `Math.random()` in
-- a round of a loop, and `same` for the identity of two objects.
-- `parse` stands for JSON.parse and the schema of an event, `Platform` for the browser of a checked
-- request, `Provider` for the identity provider, `sha256` for the digest; the random bytes of a login
-- are arguments.
--
-- Bounds. A regular expression is matched by recursion on the expression and the text. `replace`,
-- `matches` and `split` have the length of the text as fuel, and every round takes a code unit;
-- `decimal` has the number plus one, which is more than its digits. Retries are a structural
-- recursion on the attempts that are left.
--
-- Not modelled. Numbers are natural: the fraction and the sign of a number in a row, and times
-- before 1970, are left out. `toLowerCase` is the one of ASCII letters. An abort by the caller and
-- the time-out of a call are rejections of the server. The React components, the styles, the
-- routes and the Python services are not modelled.

pub mod Prelude
pub mod Js
pub mod Status
pub mod Alerts
pub mod Timeline
pub mod Remediation
pub mod Live
pub mod Login
pub mod Navigation
pub mod Client
pub mod Runtime
pub mod Onboarding
pub mod Html
pub mod Fetch
