-- ===== src/Live/Events/Forgets.antt =====
-- services/operationalEvents.ts: what the console forgets.
use kaims_latest.Prelude.{◌≡◌, refl, ◌∙◌, true, false, [], ◌∷◌, ◌++◌, length, arith}
use kaims_latest.Js.Text.{js, nonempty, text_eq, member}
use kaims_latest.Js.Text.Equality.{text_eq_iff}
use kaims_latest.Js.Value.{Value}
use kaims_latest.Live.Frames.{Frame}
use kaims_latest.Live.Events.{Parsed, event, Session, remember, deliver, handle_frame}
use kaims_latest.Live.Events.Tracked.{deliver-keeps, noted}

module _ (parse : Frame → Parsed) where
  handle_frame-delivers :
      (f : Frame) (s : Session) (e : Value)
      → nonempty f.id ≡ true
      → member f.id s.seen ≡ false
      → parse f ≡ event e
      → text_eq f.type (js "heartbeat") ≡ false
      → (handle_frame parse f s).0.delivered ≡ s.delivered ++ (f.id, e) ∷ []
  unfolding handle_frame deliver
  handle_frame-delivers f s e given new parsed other = rw (given, new, parsed, other) refl

  handle_frame-seen :
      (g : Frame) (s : Session)
      → nonempty g.id ≡ true
      → member g.id s.seen ≡ false
      → (handle_frame parse g s).0.seen ≡ remember g.id s.seen
  unfolding handle_frame
  handle_frame-seen g s given new =
      rw (given, new) ((deliver-keeps g (parse g) (noted parse g s)).0)

  -- Once a thousand identifiers are remembered, a new one makes the console forget them all: an
  -- event that it has handled is delivered again when its frame comes again.
  pub handle_frame-forgets :
      (s : Session) (f g : Frame) (e : Value)
      → length s.seen ≡ 1000
      → member f.id s.seen ≡ true
      → member g.id s.seen ≡ false
      → nonempty f.id ≡ true
      → nonempty g.id ≡ true
      → parse f ≡ event e
      → text_eq f.type (js "heartbeat") ≡ false
      → (handle_frame parse f (handle_frame parse g s).0).0.delivered
        ≡ (handle_frame parse g s).0.delivered ++ (f.id, e) ∷ []
  unfolding remember member
  handle_frame-forgets s f g e full old new given_f given_g parsed other =
      let differ : text_eq g.id f.id ≡ false = ground (arith, old, new, text_eq_iff g.id f.id) in
      let seen : (handle_frame parse g s).0.seen ≡ g.id ∷ [] =
        handle_frame-seen g s given_g new ∙ rw full refl in
      handle_frame-delivers f (handle_frame parse g s).0 e given_f (rw (seen, differ) refl) parsed
        other
