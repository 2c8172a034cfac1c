-- ===== src/Live/Events/Tracked.antt =====
-- services/operationalEvents.ts: what the console remembers of the events that it handled.
use kaims_latest.Prelude.{
  ◌≤◌, ◌≡◌, refl, Bool, true, false, not, ◌||◌, List, [], ◌∷◌, length, arith, Bool-cases, inl, inr,
  ◌⊎◌,
}
use kaims_latest.Js.Text.{Text, nonempty, member}
use kaims_latest.Js.Text.Equality.{text_eq_refl}
use kaims_latest.Live.Frames.{Frame}
use kaims_latest.Live.Events.{
  Parsed, throws, invalid, event, Session, fresh_session, max_seen, remember, deliver, handle_frame,
  unless_left, handle_frames,
}

-- What delivery leaves alone: the set of identifiers and the last one.
pub deliver-keeps :
    (f : Frame) (o : Parsed) (s : Session)
    → ((deliver f o s).0.seen ≡ s.seen) × ((deliver f o s).0.last_event_id ≡ s.last_event_id)
unfolding deliver
deliver-keeps f throws s = (refl, refl)
deliver-keeps f invalid s = (refl, refl)
deliver-keeps f (event e) s = ground arith

pub member-remember : (id : Text) (seen : List Text) → member id (remember id seen) ≡ true
unfolding remember member
member-remember id seen = ground (arith, text_eq_refl id)

length-remember :
    (id : Text) (seen : List Text) → length seen ≤ max_seen → length (remember id seen) ≤ max_seen
unfolding remember
length-remember id seen h = ground arith

-- The identifiers that the console remembers.
pub record IsTracked (s : Session) : Type 0 where
  pub bounded : length s.seen ≤ max_seen
  pub resumes : (s.last_event_id ≡ []) ⊎ (member s.last_event_id s.seen ≡ true)

module _ (parse : Frame → Parsed) where
  -- The session in which a new frame is parsed.
  abbrev pub noted : Frame → Session → Session
  noted f s = record s { seen = remember f.id s.seen; last_event_id = f.id }

  handle_frame-IsTracked :
      (f : Frame) (s : Session) → IsTracked s → IsTracked (handle_frame parse f s).0
  unfolding handle_frame
  handle_frame-IsTracked f s t = elim (Bool-cases (not (nonempty f.id) || member f.id s.seen)) [
    | inl skipped ↦ rw skipped t
    | inr new ↦
        let (seen, last) = deliver-keeps f (parse f) (noted f s) in
        rw new (record {
          bounded = rw seen (length-remember f.id s.seen t.bounded);
          resumes = inr (rw (seen, last) (member-remember f.id s.seen));
        })
  ]

  -- A property of the session that one frame keeps is kept by the frames that are handled.
  unless_left-keeps :
      (P : Session → Type 0) (r : Session × Bool) (rest : Session → Session × Bool)
      → P r.0
      → ((s' : Session) → P s' → P (rest s').0)
      → P (unless_left parse r rest).0
  unless_left-keeps P (s', true) rest h k = k s' h
  unless_left-keeps P (s', false) rest h k = h

  handle_frames-IsTracked_from :
      (fs : List Frame) (s : Session) → IsTracked s → IsTracked (handle_frames parse fs s).0
  unfolding handle_frames
  handle_frames-IsTracked_from [] s t = t
  handle_frames-IsTracked_from (f ∷ fs) s t =
      unless_left-keeps IsTracked (handle_frame parse f s) (λ s'. handle_frames parse fs s')
        (handle_frame-IsTracked f s t) (handle_frames-IsTracked_from fs)

  fresh_session-IsTracked : IsTracked fresh_session
  fresh_session-IsTracked = record { bounded = omega arith; resumes = inl refl }

  -- Over any frames the set of identifiers stays at most a thousand, and the identifier from which a
  -- new connection resumes is one of it, or none yet.
  pub handle_frames-IsTracked :
      (fs : List Frame) → IsTracked (handle_frames parse fs fresh_session).0
  handle_frames-IsTracked fs = handle_frames-IsTracked_from fs fresh_session fresh_session-IsTracked
