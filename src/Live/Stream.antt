-- ===== src/Live/Stream.antt =====
-- services/operationalEvents.ts: the loop that reads a response, from its pieces of text to the
-- calls of `onEvent`.
use kaims_latest.Prelude.{◌≡◌, refl, ap, sym, ◌∙◌, Bool, true, false, List, [], ◌∷◌, ◌++◌, map}
use mathlib.Core.List.{append_assoc, append-nil}
use kaims_latest.Js.Text.{Text}
use kaims_latest.Live.Frames.{Frame, start, scan, last_piece, read_chunks, parse_frame}
use kaims_latest.Live.Frames.Chunks.{stream}
use kaims_latest.Live.Frames.Glue.{fresh_reader, read_chunks-stream}
use kaims_latest.Live.Events.{Parsed, Session, handle_frame, handle_frames, unless_left}

module _ (parse : Frame → Parsed) where
  -- The rounds of the loop over the chunks that the network delivers; `false` where an error in a
  -- frame leaves it.
  unfoldable pub listen : List Text → Text → Session → Session × Bool
  unfolding scan parse_frame handle_frames
  listen [] buffer s = (s, true)
  listen (chunk ∷ chunks) buffer s =
      let cut = scan (buffer ++ chunk) start in
      unless_left parse (handle_frames parse (map parse_frame cut.pieces) s)
        (λ s'. listen chunks (last_piece cut) s')

  unless_left-unless_left :
      (r : Session × Bool) (f g : Session → Session × Bool)
      → unless_left parse (unless_left parse r f) g
        ≡ unless_left parse r (λ s. unless_left parse (f s) g)
  unless_left-unless_left (s, true) f g = refl
  unless_left-unless_left (s, false) f g = refl

  unless_left-ap :
      (r : Session × Bool) (f g : Session → Session × Bool)
      → ((s : Session) → f s ≡ g s)
      → unless_left parse r f ≡ unless_left parse r g
  unless_left-ap (s, true) f g h = h s
  unless_left-ap (s, false) f g h = refl

  handle_frames-append :
      (fs gs : List Frame) (s : Session)
      → handle_frames parse (fs ++ gs) s
        ≡ unless_left parse (handle_frames parse fs s) (λ s'. handle_frames parse gs s')
  unfolding handle_frames
  handle_frames-append [] gs s = refl
  handle_frames-append (f ∷ fs) gs s =
      unless_left-ap (handle_frame parse f s) (λ s'. handle_frames parse (fs ++ gs) s')
        (λ s'. unless_left parse (handle_frames parse fs s') (λ t. handle_frames parse gs t))
        (handle_frames-append fs gs)
      ∙ sym (
          unless_left-unless_left (handle_frame parse f s) (λ s'. handle_frames parse fs s')
            (λ t. handle_frames parse gs t))

  map-append : (f : Text → Frame) (xs ys : List Text) → map f (xs ++ ys) ≡ map f xs ++ map f ys
  map-append f [] ys = refl
  map-append f (x ∷ xs) ys = ap (λ t. f x ∷ t) (map-append f xs ys)

  read_chunks-frames :
      (chunks : List Text) (buffer : Text) (frames : List Text)
      → (read_chunks chunks (record { buffer = buffer; frames = frames })).frames
        ≡ frames ++ (read_chunks chunks (record { buffer = buffer; frames = [] })).frames
  unfolding read_chunks
  read_chunks-frames [] buffer frames = sym (append-nil frames)
  read_chunks-frames (chunk ∷ chunks) buffer frames =
      let cut = scan (buffer ++ chunk) start in
      read_chunks-frames chunks (last_piece cut) (frames ++ cut.pieces)
      ∙ append_assoc frames cut.pieces
          (read_chunks chunks (record { buffer = last_piece cut; frames = [] })).frames
      ∙ ap (λ t. frames ++ t) (sym (read_chunks-frames chunks (last_piece cut) cut.pieces))

  -- The loop handles the frames that its chunks cut off, each once and in order.
  listen_lem :
      (chunks : List Text) (buffer : Text) (s : Session)
      → listen chunks buffer s
        ≡ handle_frames parse
            (map parse_frame (read_chunks chunks (record { buffer = buffer; frames = [] })).frames)
            s
  unfolding listen read_chunks handle_frames
  listen_lem [] buffer s = refl
  listen_lem (chunk ∷ chunks) buffer s =
      let cut = scan (buffer ++ chunk) start in
      let later = (read_chunks chunks (record { buffer = last_piece cut; frames = [] })).frames in
      unless_left-ap (handle_frames parse (map parse_frame cut.pieces) s)
        (λ s'. listen chunks (last_piece cut) s')
        (λ s'. handle_frames parse (map parse_frame later) s') (listen_lem chunks (last_piece cut))
      ∙ sym (handle_frames-append (map parse_frame cut.pieces) (map parse_frame later) s)
      ∙ ap (λ fs. handle_frames parse fs s)
          (sym (
            ap (map parse_frame) (read_chunks-frames chunks (last_piece cut) cut.pieces)
            ∙ map-append parse_frame cut.pieces later))

  -- What the console has delivered, remembered and invalidated after a stream does not depend on
  -- how the network cuts the stream: it is what handling the frames of the whole text gives.
  pub listen-stream :
      (chunks : List Text) (s : Session)
      → listen chunks [] s
        ≡ handle_frames parse
            (map parse_frame (read_chunks (stream chunks ∷ []) fresh_reader).frames)
            s
  listen-stream chunks s =
      listen_lem chunks [] s
      ∙ ap (λ r. handle_frames parse (map parse_frame r.frames) s)
          ((read_chunks-stream chunks (stream chunks ∷ []) (sym (append-nil (stream chunks)))).0)
