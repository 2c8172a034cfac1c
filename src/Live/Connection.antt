-- ===== src/Live/Connection.antt =====
-- services/operationalEvents.ts: the connection of `useOperationalEvents`, its retries and the
-- visibility of the page.
pub mod Progress
pub mod Overlap
use kaims_latest.Prelude.{
  ℕ, zero, suc, ◌+◌, ◌*◌, ◌≡◌, min, Bool, true, false, not, ◌&&◌, ◌||◌, List, [], ◌∷◌, filter, any,
  Option, none, some, ◌==◌, if◌then◌else◌,
}
use kaims_latest.Js.Text.{Text, nonempty}

pub data LiveState : Type 0 where
  disabled connecting connected reconnecting paused : LiveState

-- `delay` is `Math.min(30_000, 1_000 * 2 ** Math.min(retry, 5))`.
abbrev pub power_of_two : ℕ → ℕ
power_of_two zero = 1
power_of_two (suc n) = 2 * power_of_two n

unfoldable pub delay_of : ℕ → ℕ
delay_of retry = min 30_000 (1_000 * power_of_two (min retry 5))

pub record Timer : Type 0 where
  pub id : ℕ
  pub delay : ℕ

-- The variables of the effect, with the page's visibility, the connections that are open or are
-- being opened, and the timers that have not fired. A connection goes by its controller.
pub record Conn : Type 0 where
  pub visible : Bool
  pub cancelled : Bool
  pub state : LiveState
  pub retry : ℕ
  pub controller : Option ℕ
  pub retry_timer : Option ℕ
  pub links : List ℕ
  pub timers : List Timer
  pub fresh : ℕ

abbrev pub has : ℕ → List ℕ → Bool
has n ns = any (λ m. m == n) ns

abbrev pub without : ℕ → List ℕ → List ℕ
without n ns = filter (λ m. not (m == n)) ns

abbrev pub has_timer : ℕ → List Timer → Bool
has_timer n ts = any (λ t. t.id == n) ts

abbrev pub without_timer : ℕ → List Timer → List Timer
without_timer n ts = filter (λ t. not (t.id == n)) ts

-- `connect`, up to its first wait.
unfoldable pub connect : Conn → Conn
connect s = if s.cancelled || not s.visible then s else record s {
  state = if s.retry == 0 then connecting else reconnecting;
  controller = some s.fresh;
  links = s.fresh ∷ s.links;
  fresh = suc s.fresh;
}

-- `controller?.abort()`: the connection ends with an AbortError, and its code returns.
abbrev pub abort : Option ℕ → List ℕ → List ℕ
abort none ns = ns
abort (some n) ns = without n ns

-- `if (retryTimer) window.clearTimeout(retryTimer)`
abbrev pub clear_timer : Option ℕ → List Timer → List Timer
clear_timer none ts = ts
clear_timer (some n) ts = without_timer n ts

-- A response arrived that is good and has a body.
unfoldable pub open_link : Conn → Conn
open_link s = record s { state = connected; retry = 0 }

-- A connection ended, by itself or by an error that is no AbortError.
unfoldable pub end_link : ℕ → Conn → Conn
unfolding delay_of
end_link n s =
    if s.cancelled || not s.visible then record s { links = without n s.links } else record s {
      links = without n s.links;
      retry = suc s.retry;
      state = reconnecting;
      retry_timer = some s.fresh;
      timers = record { id = s.fresh; delay = delay_of (suc s.retry) } ∷ s.timers;
      fresh = suc s.fresh;
    }

-- `onVisibility` when the page is hidden, and when it is shown. The listener is gone once the
-- effect is cleaned up.
unfoldable pub hide : Conn → Conn
hide s =
    if s.cancelled
    then record s { visible = false }
    else record s { visible = false; links = abort s.controller s.links; state = paused }

unfoldable pub show : Conn → Conn
unfolding connect
show s =
    if s.cancelled
    then record s { visible = true }
    else connect (record s { visible = true; retry = 0 })

unfoldable pub fire : ℕ → Conn → Conn
unfolding connect
fire n s = connect (record s { timers = without_timer n s.timers })

-- The function that the effect returns.
unfoldable pub clean_up : Conn → Conn
clean_up s = record s {
  cancelled = true;
  links = abort s.controller s.links;
  timers = clear_timer s.retry_timer s.timers;
}

abbrev pub idle : Bool → LiveState → Conn
idle visible state = record {
  visible = visible;
  cancelled = false;
  state = state;
  retry = 0;
  controller = none;
  retry_timer = none;
  links = [];
  timers = [];
  fresh = 0;
}

-- What the effect starts with: no connection without a token or while it is paused.
pub data Effect : Type 0 where
  resting : LiveState → Effect
  running : Conn → Effect

unfoldable pub use_operational_events : Text → Bool → Bool → Effect
unfolding connect
use_operational_events access_token is_paused visible =
    if not (nonempty access_token)
    then resting disabled
    else if is_paused
    then resting paused
    else running (connect (idle visible disabled))

-- What may happen next, as the network, the page and the user choose.
pub data Step (s : Conn) : Conn → Type 0 where
  opens : (n : ℕ) → has n s.links ≡ true → Step s (open_link s)
  ends : (n : ℕ) → has n s.links ≡ true → Step s (end_link n s)
  hides : s.visible ≡ true → Step s (hide s)
  shows : s.visible ≡ false → Step s (show s)
  fires : (n : ℕ) → has_timer n s.timers ≡ true → Step s (fire n s)
  cleans_up : s.cancelled ≡ false → Step s (clean_up s)

pub data Reach (s : Conn) : Conn → Type 0 where
  here : Reach s s
  next : {t u : Conn} → Reach s t → Step t u → Reach s u
