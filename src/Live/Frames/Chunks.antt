-- ===== src/Live/Frames/Chunks.antt =====
-- services/operationalEvents.ts: the frames do not depend on how the network cuts the stream.
use kaims_latest.Prelude.{
  ℕ, ◌≡◌, refl, ap, sym, ◌∙◌, Bool, true, false, List, [], ◌∷◌, ◌++◌, ◌==◌, arith, Bool-cases, inl,
  inr,
}
use mathlib.Core.List.{append_assoc, append-nil}
use kaims_latest.Js.Text.{Text}
use kaims_latest.Live.Frames.{
  Scan, start, scan_unit, scan, last_piece, Reader, read_chunk, read_chunks,
}

-- The stream as one text.
abbrev pub stream : List Text → Text
stream [] = []
stream (chunk ∷ chunks) = chunk ++ stream chunks

scan-append : (s t : Text) (st : Scan) → scan (s ++ t) st ≡ scan t (scan s st)
unfolding scan
scan-append [] t st = refl
scan-append (c ∷ s) t st = scan-append s t (scan_unit c st)

-- The scan with other pieces before its own.
abbrev behind : List Text → Scan → Scan
behind ps st = record st { pieces = ps ++ st.pieces }

scan_unit-behind :
    (c : ℕ) (ps : List Text) (st : Scan) → scan_unit c (behind ps st) ≡ behind ps (scan_unit c st)
unfolding scan_unit
scan_unit-behind c ps st = ground (arith, append_assoc ps st.pieces (st.piece ∷ []))

scan-behind :
    (t : Text) (ps : List Text) (st : Scan) → scan t (behind ps st) ≡ behind ps (scan t st)
unfolding scan
scan-behind [] ps st = refl
scan-behind (c ∷ t) ps st =
    ap (scan t) (scan_unit-behind c ps st) ∙ scan-behind t ps (scan_unit c st)

-- A scan that has only read its last piece.
abbrev alone : Scan → Scan
alone st = record st { pieces = [] }

-- Reading the last piece again gives the scan without its pieces.
abbrev IsRestartable : Scan → Type 0
IsRestartable st = scan st.piece start ≡ record { pieces = []; piece = st.piece; held = false }

restart-empty : scan [] start ≡ start
unfolding scan
restart-empty = refl

restart-plain :
    (piece : Text) (c : ℕ)
    → scan piece start ≡ record { pieces = []; piece = piece; held = false }
    → (c == 10) ≡ false
    → scan (piece ++ c ∷ []) start ≡ record { pieces = []; piece = piece ++ c ∷ []; held = false }
unfolding scan
restart-plain piece c r h = scan-append piece (c ∷ []) start ∙ ap (scan (c ∷ [])) r ∙ rw h

restart-held :
    (piece : Text) (c : ℕ)
    → scan piece start ≡ record { pieces = []; piece = piece; held = false }
    → (c == 10) ≡ false
    → scan (piece ++ 10 ∷ c ∷ []) start
      ≡ record { pieces = []; piece = piece ++ 10 ∷ c ∷ []; held = false }
unfolding scan
restart-held piece c r h = scan-append piece (10 ∷ c ∷ []) start ∙ ap (scan (10 ∷ c ∷ [])) r ∙ rw h

restart-unit :
    (c : ℕ) (held : Bool) (pieces : List Text) (piece : Text)
    → scan piece start ≡ record { pieces = []; piece = piece; held = false }
    → IsRestartable (scan_unit c (record { pieces = pieces; piece = piece; held = held }))
unfolding scan_unit
restart-unit c true pieces piece r = elim (Bool-cases (c == 10)) [
  | inl line_end ↦ rw line_end restart-empty
  | inr other ↦ rw other (restart-held piece c r other)
]
restart-unit c false pieces piece r = elim (Bool-cases (c == 10)) [
  | inl line_end ↦ rw line_end r
  | inr other ↦ rw other (restart-plain piece c r other)
]

scan-IsRestartable : (t : Text) (st : Scan) → IsRestartable st → IsRestartable (scan t st)
unfolding scan
scan-IsRestartable [] st r = r
scan-IsRestartable (c ∷ t) st r =
    scan-IsRestartable t (scan_unit c st) (restart-unit c st.held st.pieces st.piece r)

restart-last :
    (held : Bool) (pieces : List Text) (piece : Text)
    → scan piece start ≡ record { pieces = []; piece = piece; held = false }
    → scan (last_piece (record { pieces = pieces; piece = piece; held = held })) start
      ≡ record { pieces = []; piece = piece; held = held }
unfolding scan
restart-last true pieces piece r = scan-append piece (10 ∷ []) start ∙ ap (scan (10 ∷ [])) r
restart-last false pieces piece r = ap (λ t. scan t start) (append-nil piece) ∙ r

abbrev reader_of : Scan → Reader
reader_of st = record { buffer = last_piece st; frames = st.pieces }

scan-resumed :
    (chunk : Text) (st : Scan)
    → IsRestartable st
    → scan (last_piece st ++ chunk) start ≡ scan chunk (alone st)
scan-resumed chunk st r =
    scan-append (last_piece st) chunk start
    ∙ ap (scan chunk) (restart-last st.held st.pieces st.piece r)

scan-alone : (chunk : Text) (st : Scan) → scan chunk st ≡ behind st.pieces (scan chunk (alone st))
scan-alone chunk st =
    ap (λ ps. scan chunk (record st { pieces = ps })) (sym (append-nil st.pieces))
    ∙ scan-behind chunk st.pieces (alone st)

read_chunk-reader_of :
    (chunk : Text) (st : Scan)
    → IsRestartable st
    → read_chunk chunk (reader_of st) ≡ reader_of (scan chunk st)
read_chunk-reader_of chunk st r =
    ap (λ cut. record { buffer = last_piece cut; frames = st.pieces ++ cut.pieces })
      (scan-resumed chunk st r)
    ∙ ap reader_of (sym (scan-alone chunk st))

read_chunks-reader_of :
    (chunks : List Text) (st : Scan)
    → IsRestartable st
    → read_chunks chunks (reader_of st) ≡ reader_of (scan (stream chunks) st)
unfolding read_chunks scan
read_chunks-reader_of [] st r = refl
read_chunks-reader_of (chunk ∷ chunks) st r =
    ap (read_chunks chunks) (read_chunk-reader_of chunk st r)
    ∙ read_chunks-reader_of chunks (scan chunk st) (scan-IsRestartable chunk st r)
    ∙ ap reader_of (sym (scan-append chunk (stream chunks) st))

-- However the network cuts the stream, the frames that are handled are the pieces of the whole
-- stream between its empty lines, and the buffer holds what is behind the last one.
pub read_chunks_lem :
    (chunks : List Text)
    → read_chunks chunks (record { buffer = []; frames = [] }) ≡ record {
      buffer = last_piece (scan (stream chunks) start);
      frames = (scan (stream chunks) start).pieces;
    }
read_chunks_lem chunks = read_chunks-reader_of chunks start restart-empty
