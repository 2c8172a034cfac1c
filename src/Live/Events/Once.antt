-- ===== src/Live/Events/Once.antt =====
-- services/operationalEvents.ts: an event is delivered once.
use kaims_latest.Prelude.{
  ℕ, suc, ◌+◌, ◌≤◌, ◌<◌, ◌≡◌, refl, ap, subst, Bool, true, false, not, ◌||◌, List, [], ◌∷◌, ◌++◌,
  map, length, if◌then◌else◌, arith, Bool-cases, inl, inr,
}
use kaims_latest.Js.Text.{Text, js, nonempty, text_eq, member}
use kaims_latest.Js.Text.Equality.{text_eq_iff}
use kaims_latest.Js.Value.{Value}
use kaims_latest.Remediation.Commands.Distinct.{IsDistinct, IsDistinct-snoc, member-snoc}
use kaims_latest.Live.Frames.{Frame}
use kaims_latest.Live.Events.{
  Parsed, throws, invalid, event, Session, fresh_session, max_seen, remember, deliver, handle_frame,
  unless_left, handle_frames,
}
use kaims_latest.Live.Events.Tracked.{deliver-keeps, member-remember, noted}

abbrev pub delivered_ids : Session → List Text
delivered_ids s = map (λ (d : Text × Value). d.0) s.delivered

module _ (parse : Frame → Parsed) where
  -- The frame that was handled last is not handled again: a second arrival, also one after an error
  -- in its data, changes nothing and delivers nothing.
  pub handle_frame_idempotent :
      (f : Frame) (s : Session)
      → handle_frame parse f (handle_frame parse f s).0 ≡ ((handle_frame parse f s).0, true)
  unfolding handle_frame
  handle_frame_idempotent f s = elim (Bool-cases (not (nonempty f.id) || member f.id s.seen)) [
    | inl skipped ↦ rw skipped (rw skipped refl)
    | inr new ↦ rw new (
        again (deliver f (parse f) (noted parse f s)).0
          (rw ((deliver-keeps f (parse f) (noted parse f s)).0) (member-remember f.id s.seen)))
  ]
    where
      again :
          (s' : Session)
          → member f.id s'.seen ≡ true
          → (if not (nonempty f.id) || member f.id s'.seen
              then (s', true)
              else deliver f (parse f) (noted parse f s'))
            ≡ (s', true)
      again s' h = ground (arith, h)

  -- A session that has handled at most `n` frames.
  record IsUnmixed (n : ℕ) (s : Session) : Type 0 where
    small : length s.seen ≤ n
    distinct : IsDistinct (delivered_ids s)
    within : (k : Text) → member k (delivered_ids s) ≡ true → member k s.seen ≡ true

  ids-snoc :
      (ds : List (Text × Value)) (k : Text) (e : Value)
      → map (λ (d : Text × Value). d.0) (ds ++ (k, e) ∷ [])
        ≡ map (λ (d : Text × Value). d.0) ds ++ k ∷ []
  ids-snoc [] k e = refl
  ids-snoc (d ∷ ds) k e = ap (λ ts. d.0 ∷ ts) (ids-snoc ds k e)

  remember_small :
      (id : Text) (seen : List Text) (n : ℕ)
      → length seen ≤ n
      → n < max_seen
      → remember id seen ≡ id ∷ seen
  unfolding remember
  remember_small id seen n h k = ground arith

  noted-IsUnmixed :
      (f : Frame) (n : ℕ) (s : Session)
      → n < max_seen
      → IsUnmixed n s
      → IsUnmixed (suc n) (noted parse f s)
  unfolding member
  noted-IsUnmixed f n s h u =
      let small = remember_small f.id s.seen n u.small h in
      record {
        small = rw small (omega (arith, u.small));
        distinct = u.distinct;
        within = λ k m. rw small (ground (arith, u.within k m));
      }

  deliver-IsUnmixed :
      (f : Frame) (o : Parsed) (n : ℕ) (s : Session)
      → IsUnmixed n s
      → member f.id (delivered_ids s) ≡ false
      → member f.id s.seen ≡ true
      → IsUnmixed n (deliver f o s).0
  unfolding deliver
  deliver-IsUnmixed f throws n s u new here = u
  deliver-IsUnmixed f invalid n s u new here = u
  deliver-IsUnmixed f (event e) n s u new here =
      elim (Bool-cases (text_eq f.type (js "heartbeat"))) [
        | inl beat ↦ rw beat u
        | inr other ↦ rw other (record {
          small = u.small;
          distinct =
              rw (ids-snoc s.delivered f.id e)
                (IsDistinct-snoc (delivered_ids s) f.id u.distinct new);
          within = λ k m.
              within-snoc k
                (rw (ids-snoc s.delivered f.id e, member-snoc k (delivered_ids s) f.id) at m);
        })
      ]
    where
      within-snoc :
          (k : Text)
          → (text_eq f.id k || member k (delivered_ids s)) ≡ true
          → member k s.seen ≡ true
      within-snoc k m = elim (Bool-cases (text_eq f.id k)) [
        | inl same ↦ subst (λ t. member t s.seen ≡ true) ((text_eq_iff f.id k).0 same) here
        | inr differ ↦ u.within k (ground (arith, m, differ))
      ]

  handle_frame-IsUnmixed :
      (f : Frame) (n : ℕ) (s : Session)
      → n < max_seen
      → IsUnmixed n s
      → IsUnmixed (suc n) (handle_frame parse f s).0
  unfolding handle_frame
  handle_frame-IsUnmixed f n s h u = elim (Bool-cases (not (nonempty f.id) || member f.id s.seen)) [
    | inl skipped ↦
        rw skipped
          (record { small = omega (arith, u.small); distinct = u.distinct; within = u.within })
    | inr new ↦ rw new (
        deliver-IsUnmixed f (parse f) (suc n) (noted parse f s) (noted-IsUnmixed f n s h u)
          (ground (arith, new, u.within f.id)) (member-remember f.id s.seen))
  ]

  handle_frames-IsUnmixed :
      (fs : List Frame) (n : ℕ) (s : Session)
      → n + length fs ≤ max_seen
      → IsUnmixed n s
      → IsDistinct (delivered_ids (handle_frames parse fs s).0)
  unfolding handle_frames
  handle_frames-IsUnmixed [] n s h u = u.distinct
  handle_frames-IsUnmixed (f ∷ fs) n s h u =
      left_or_on (handle_frame parse f s) (handle_frame-IsUnmixed f n s (omega arith) u)
        (λ s' v. handle_frames-IsUnmixed fs (suc n) s' (omega arith) v)
    where
      left_or_on :
          (r : Session × Bool)
          → IsUnmixed (suc n) r.0
          → ((s' : Session)
              → IsUnmixed (suc n) s'
              → IsDistinct (delivered_ids (handle_frames parse fs s').0))
          → IsDistinct (delivered_ids (unless_left parse r (λ s'. handle_frames parse fs s')).0)
      left_or_on (s', true) v k = k s' v
      left_or_on (s', false) v k = v.distinct

  fresh_session-IsUnmixed : IsUnmixed 0 fresh_session
  unfolding member
  fresh_session-IsUnmixed = record { small = omega arith; distinct = tt; within = λ k m. m }

  -- The first thousand frames of a session deliver no event twice, whatever they repeat.
  pub handle_frames-IsDistinct :
      (fs : List Frame)
      → length fs ≤ 1000
      → IsDistinct (delivered_ids (handle_frames parse fs fresh_session).0)
  handle_frames-IsDistinct fs h =
      handle_frames-IsUnmixed fs 0 fresh_session (omega arith) fresh_session-IsUnmixed
