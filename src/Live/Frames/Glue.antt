-- ===== src/Live/Frames/Glue.antt =====
-- services/operationalEvents.ts: no text of the stream is lost or made up when it is cut.
use kaims_latest.Prelude.{
  ℕ, ◌≡◌, refl, ap, sym, ◌∙◌, Bool, true, false, List, [], ◌∷◌, ◌++◌, ◌==◌, ==_iff, Bool-cases, inl,
  inr, subst,
}
use mathlib.Core.List.{append_assoc, append-nil}
use kaims_latest.Js.Text.{Text}
use kaims_latest.Live.Frames.{Scan, start, scan_unit, scan, last_piece, Reader, read_chunks}
use kaims_latest.Live.Frames.Chunks.{stream, read_chunks_lem}

-- The text that frames and a rest were cut from.
abbrev pub glue : List Text → Text → Text
glue [] rest = rest
glue (frame ∷ frames) rest = frame ++ 10 ∷ 10 ∷ glue frames rest

glue-snoc :
    (ps : List Text) (p rest : Text) → glue (ps ++ p ∷ []) rest ≡ glue ps (p ++ 10 ∷ 10 ∷ rest)
glue-snoc [] p rest = refl
glue-snoc (q ∷ ps) p rest = ap (λ t. q ++ 10 ∷ 10 ∷ t) (glue-snoc ps p rest)

glue-append : (ps : List Text) (rest t : Text) → glue ps rest ++ t ≡ glue ps (rest ++ t)
glue-append [] rest t = refl
glue-append (q ∷ ps) rest t =
    append_assoc q (10 ∷ 10 ∷ glue ps rest) t ∙ ap (λ u. q ++ 10 ∷ 10 ∷ u) (glue-append ps rest t)

abbrev text_of_scan : Scan → Text
text_of_scan st = glue st.pieces (last_piece st)

glue-line_end :
    (held : Bool) (ps : List Text) (p : Text)
    → text_of_scan (scan_unit 10 (record { pieces = ps; piece = p; held = held }))
      ≡ glue ps (last_piece (record { pieces = ps; piece = p; held = held }) ++ 10 ∷ [])
unfolding scan_unit
glue-line_end true ps p =
    glue-snoc ps p [] ∙ ap (glue ps) (sym (append_assoc p (10 ∷ []) (10 ∷ [])))
glue-line_end false ps p = ap (λ q. glue ps (q ++ 10 ∷ [])) (sym (append-nil p))

glue-other :
    (held : Bool) (ps : List Text) (p : Text) (c : ℕ)
    → (c == 10) ≡ false
    → text_of_scan (scan_unit c (record { pieces = ps; piece = p; held = held }))
      ≡ glue ps (last_piece (record { pieces = ps; piece = p; held = held }) ++ c ∷ [])
unfolding scan_unit
glue-other true ps p c h =
    rw h (ap (glue ps) (append-nil (p ++ 10 ∷ c ∷ []) ∙ sym (append_assoc p (10 ∷ []) (c ∷ []))))
glue-other false ps p c h =
    rw h (ap (glue ps) (append-nil (p ++ c ∷ []) ∙ ap (λ q. q ++ c ∷ []) (sym (append-nil p))))

text_of_scan-unit : (c : ℕ) (st : Scan) → text_of_scan (scan_unit c st) ≡ text_of_scan st ++ c ∷ []
text_of_scan-unit c st = elim (Bool-cases (c == 10)) [
  | inl line_end ↦
      subst (λ d. text_of_scan (scan_unit d st) ≡ text_of_scan st ++ d ∷ [])
        (sym ((==_iff c 10).0 line_end))
        (glue-line_end st.held st.pieces st.piece
          ∙ sym (glue-append st.pieces (last_piece st) (10 ∷ [])))
  | inr other ↦
      glue-other st.held st.pieces st.piece c other
      ∙ sym (glue-append st.pieces (last_piece st) (c ∷ []))
]

text_of_scan-scan : (t : Text) (st : Scan) → text_of_scan (scan t st) ≡ text_of_scan st ++ t
unfolding scan
text_of_scan-scan [] st = sym (append-nil (text_of_scan st))
text_of_scan-scan (c ∷ t) st =
    text_of_scan-scan t (scan_unit c st)
    ∙ ap (λ u. u ++ t) (text_of_scan-unit c st)
    ∙ append_assoc (text_of_scan st) (c ∷ []) t

abbrev pub fresh_reader : Reader
fresh_reader = record { buffer = []; frames = [] }

-- Two ways of the network to cut one stream give the same frames and the same rest, and the stream
-- is the frames, each with an empty line behind it, and the rest: nothing is lost or made up.
pub read_chunks-stream :
    (chunks others : List Text)
    → stream chunks ≡ stream others
    → (read_chunks chunks fresh_reader ≡ read_chunks others fresh_reader)
      × (glue (read_chunks chunks fresh_reader).frames (read_chunks chunks fresh_reader).buffer
          ≡ stream chunks)
read_chunks-stream chunks others same =
    let reader_of = λ (t : Text).
      let cut = scan t start in
      let r : Reader = record { buffer = last_piece cut; frames = cut.pieces } in r in
    (
      read_chunks_lem chunks ∙ ap reader_of same ∙ sym (read_chunks_lem others),
      ap (λ r. glue r.frames r.buffer) (read_chunks_lem chunks)
          ∙ text_of_scan-scan (stream chunks) start,
    )
