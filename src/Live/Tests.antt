-- ===== src/Live/Tests.antt =====
-- Runs of the live stream, and concrete instances of its properties.
use kaims_latest.Prelude.{◌≡◌, refl, true, false, [], ◌∷◌, ◌++◌, arith, List, map, some}
use kaims_latest.Js.Text.{
  Text, js, trim, trim_start, trim_end, is_space, starts_with, text_eq, member,
}
use kaims_latest.Js.Value.{null}
use kaims_latest.Live.Frames.{
  Frame, scan_unit, scan, read_chunks, split_lines, read_line, read_lines, parse_frame,
}
use kaims_latest.Live.Frames.Chunks.{stream}
use kaims_latest.Live.Frames.Glue.{fresh_reader}
use kaims_latest.Live.Events.{
  Parsed, event, throws, fresh_session, domain_of, query_key_of, remember, deliver, handle_frame,
  handle_frames,
}
use kaims_latest.Live.Events.Once.{handle_frames-IsDistinct, delivered_ids}
use kaims_latest.Live.Stream.{listen, listen-stream}
use kaims_latest.Remediation.Commands.Distinct.{IsDistinct}
use kaims_latest.Live.Connection.{
  Conn, disabled, paused, reconnecting, delay_of, connect, open_link, end_link, hide, show, fire,
  clean_up, idle, Reach, here, next, ends, resting, use_operational_events,
}
use kaims_latest.Live.Connection.Progress.{IsLive, Reach-IsLive}

runs : Unit {0}
unfolding js trim trim_start trim_end is_space starts_with text_eq member scan_unit scan read_chunks
    split_lines read_line read_lines parse_frame domain_of query_key_of remember deliver
    handle_frame handle_frames listen delay_of connect open_link end_link hide show fire clean_up
    use_operational_events
runs = tt

abbrev line_end : Text
line_end = 10 ∷ []

abbrev alert_text : Text
alert_text = js "id: 7" ++ line_end ++ js "event: alert.created" ++ line_end ++ js "data: 1"

abbrev whole : List Text
whole = (alert_text ++ line_end ++ line_end) ∷ []

abbrev halves : List Text
halves = (alert_text ++ line_end) ∷ line_end ∷ []

abbrev accepts : Frame → Parsed
accepts f = event null

abbrev alert_frame : Frame
alert_frame = record { id = js "7"; type = js "alert.created"; raw_data = js "1" }

abbrev other_frame : Frame
other_frame = record { id = js "8"; type = js "incident.updated"; raw_data = js "1" }

stream_tests :
    (parse_frame alert_text ≡ alert_frame)
    × ((listen accepts halves [] fresh_session).0.invalidated ≡ js "alerts" ∷ [])
    × ((handle_frame accepts other_frame fresh_session).0.invalidated ≡ js "incident" ∷ [])
    × ((handle_frame (λ f. throws) other_frame fresh_session).1 ≡ false)
    × (delay_of 1 ≡ 2_000)
    × (delay_of 9 ≡ 30_000)
    × (use_operational_events [] false true ≡ resting disabled)
    × (use_operational_events (js "t") true true ≡ resting paused)
unfolding runs
stream_tests = (refl, refl, refl, refl, refl, refl, refl, refl)

listen-stream_example :
    listen accepts halves [] fresh_session
    ≡ handle_frames accepts
        (map parse_frame (read_chunks (stream halves ∷ []) fresh_reader).frames)
        fresh_session
listen-stream_example = listen-stream accepts halves fresh_session

handle_frames-IsDistinct_example : IsDistinct (
    delivered_ids
      (handle_frames accepts (alert_frame ∷ other_frame ∷ alert_frame ∷ []) fresh_session).0)
handle_frames-IsDistinct_example =
    handle_frames-IsDistinct accepts (alert_frame ∷ other_frame ∷ alert_frame ∷ []) (omega arith)

-- A connection that ended once and waits two seconds.
abbrev waiting : Conn
waiting = record {
  visible = true;
  cancelled = false;
  state = reconnecting;
  retry = 1;
  controller = some 0;
  retry_timer = some 1;
  links = [];
  timers = record { id = 1; delay = 2_000 } ∷ [];
  fresh = 2;
}

ends_once : Reach (connect (idle true disabled)) waiting
unfolding runs
ends_once = next here (ends 0 refl)

Reach-IsLive_example : IsLive waiting
Reach-IsLive_example = Reach-IsLive true waiting ends_once
