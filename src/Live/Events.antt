-- ===== src/Live/Events.antt =====
-- services/operationalEvents.ts: what the console does with a frame.
pub mod Tracked
pub mod Once
pub mod Forgets
use kaims_latest.Prelude.{
  ℕ, suc, Bool, true, false, not, ◌&&◌, ◌||◌, List, [], ◌∷◌, ◌++◌, length, ltb, ◌==◌, if◌then◌else◌,
}
use kaims_latest.Js.Text.{Text, js, nonempty, text_eq, member}
use kaims_latest.Js.Value.{Value}
use kaims_latest.Live.Frames.{Frame}

-- What `JSON.parse` and the schema make of a frame: `JSON.parse` throws, the schema refuses, or
-- there is an event.
pub data Parsed : Type 0 where
  throws invalid : Parsed
  event : Value → Parsed

-- The refs that outlive a connection, with the calls of `onEvent`, each with its frame's id, and
-- the query keys that were invalidated.
pub record Session : Type 0 where
  pub seen : List Text
  pub last_event_id : Text
  pub delivered : List (Text × Value)
  pub invalidated : List Text

abbrev pub fresh_session : Session
fresh_session = record { seen = []; last_event_id = []; delivered = []; invalidated = [] }

-- `type.split(".", 1)[0]`
unfoldable pub domain_of : Text → Text
domain_of [] = []
domain_of (c ∷ t) = let rest = domain_of t in if c == b'.' then [] else c ∷ rest

unfoldable pub query_key_of : Text → Text
unfolding domain_of
query_key_of type = if text_eq type (js "alert.created") then js "alerts" else domain_of type

abbrev pub max_seen : ℕ
max_seen = 1000

-- `seen.add(id); if (seen.size > 1000) seen = new Set([id])`
unfoldable pub remember : Text → List Text → List Text
remember id seen = if ltb max_seen (suc (length seen)) then id ∷ [] else id ∷ seen

unfoldable pub deliver : Frame → Parsed → Session → Session × Bool
unfolding query_key_of
deliver f throws s = (s, false)
deliver f invalid s = (s, true)
deliver f (event e) s = if text_eq f.type (js "heartbeat") then (s, true) else (
  record s {
    delivered = s.delivered ++ (f.id, e) ∷ [];
    invalidated = s.invalidated ++ query_key_of f.type ∷ [];
  },
  true,
)

module _ (parse : Frame → Parsed) where
  -- One round of the loop over the frames; `false` where an error leaves the connection.
  unfoldable pub handle_frame : Frame → Session → Session × Bool
  unfolding remember deliver
  handle_frame f s =
      if not (nonempty f.id) || member f.id s.seen
      then (s, true)
      else deliver f (parse f) (record s { seen = remember f.id s.seen; last_event_id = f.id })

  abbrev pub unless_left : Session × Bool → (Session → Session × Bool) → Session × Bool
  unless_left (s, true) rest = rest s
  unless_left (s, false) rest = (s, false)

  unfoldable pub handle_frames : List Frame → Session → Session × Bool
  unfolding handle_frame
  handle_frames [] s = (s, true)
  handle_frames (f ∷ fs) s = unless_left (handle_frame f s) (λ s'. handle_frames fs s')
