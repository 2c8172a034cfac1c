-- ===== src/Live/Frames.antt =====
-- services/operationalEvents.ts: how the text of the stream is cut into frames, and a frame is read.
pub mod Chunks
pub mod Glue
use kaims_latest.Prelude.{
  ℕ, Bool, true, false, not, ◌&&◌, List, [], ◌∷◌, ◌++◌, ◌==◌, if◌then◌else◌, drop,
}
use kaims_latest.Js.Text.{Text, js, trim, starts_with}

-- Where a split at empty lines stands: the pieces that are cut off, the piece that is read, and
-- whether a line end is read that may be the first of two.
pub record Scan : Type 0 where
  pub pieces : List Text
  pub piece : Text
  pub held : Bool

abbrev pub start : Scan
start = record { pieces = []; piece = []; held = false }

unfoldable pub scan_unit : ℕ → Scan → Scan
scan_unit c s =
    if c == 10
    then if s.held
      then record { pieces = s.pieces ++ s.piece ∷ []; piece = []; held = false }
      else record s { held = true }
    else record s { piece = s.piece ++ (if s.held then 10 ∷ c ∷ [] else c ∷ []); held = false }

unfoldable pub scan : Text → Scan → Scan
unfolding scan_unit
scan [] s = s
scan (c ∷ t) s = scan t (scan_unit c s)

-- The piece behind the last cut, which `frames.pop()` takes.
abbrev pub last_piece : Scan → Text
last_piece s = s.piece ++ (if s.held then 10 ∷ [] else [])

-- One round of the reading loop: `buffer += text; frames = buffer.split("\n\n"); buffer = frames.pop()`.
pub record Reader : Type 0 where
  pub buffer : Text
  pub frames : List Text

abbrev pub read_chunk : Text → Reader → Reader
read_chunk chunk r =
    let cut = scan (r.buffer ++ chunk) start in
    record { buffer = last_piece cut; frames = r.frames ++ cut.pieces }

-- The frames that are handled over all rounds, and what waits in the buffer.
unfoldable pub read_chunks : List Text → Reader → Reader
unfolding scan
read_chunks [] r = r
read_chunks (chunk ∷ chunks) r = read_chunks chunks (read_chunk chunk r)

-- `text.split("\n")`
unfoldable pub split_lines : Text → Text → List Text
split_lines line [] = line ∷ []
split_lines line (c ∷ t) =
    let next = line ∷ split_lines [] t in
    let more = split_lines (line ++ c ∷ []) t in if c == 10 then next else more

pub record Frame : Type 0 where
  pub id : Text
  pub type : Text
  pub raw_data : Text

abbrev pub blank_frame : Frame
blank_frame = record { id = []; type = js "message"; raw_data = js "{}" }

-- One round of the loop over the lines of a frame.
unfoldable pub read_line : Text → Frame → Frame
read_line line f =
    if starts_with line (js "id:")
    then record f { id = trim (drop 3 line) }
    else if starts_with line (js "event:")
    then record f { type = trim (drop 6 line) }
    else if starts_with line (js "data:")
    then record f { raw_data = trim (drop 5 line) }
    else f

unfoldable pub read_lines : List Text → Frame → Frame
unfolding read_line
read_lines [] f = f
read_lines (line ∷ lines) f = read_lines lines (read_line line f)

unfoldable pub parse_frame : Text → Frame
unfolding read_lines split_lines
parse_frame frame = read_lines (split_lines [] frame) blank_frame
