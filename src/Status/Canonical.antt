-- ===== src/Status/Canonical.antt =====
-- appHelpers.jsx: `canonicalIncidentStatus` over the statuses that several sources report.
use kaims_latest.Prelude.{◌≡◌, refl, ◌++◌, ◌∙◌, Bool, true, false, ◌||◌, List, [], ◌∷◌, arith}
use kaims_latest.Js.Text.{Text, js, member, first_member}
use kaims_latest.Js.Value.{Value}
use kaims_latest.Status.{status_texts, canonical_of, canonical_incident_status, terminal_priority}

-- Some text of the first list is in the second.
abbrev pub meets : List Text → List Text → Bool
meets [] among = false
meets (t ∷ ts) among = member t among || meets ts among

abbrev SameTexts : List Text → List Text → Type 0
SameTexts xs ys = (t : Text) → member t xs ≡ member t ys

first_member-eq :
    (ts xs ys : List Text) (a b : Text)
    → SameTexts xs ys
    → meets ts xs ≡ true
    → first_member ts xs a ≡ first_member ts ys b
unfolding first_member
first_member-eq [] xs ys a b same h = cc
first_member-eq (t ∷ ts) xs ys a b same h =
    ground (arith, same t, first_member-eq ts xs ys a b same)

head_or : Text → List Text → Text
head_or d [] = d
head_or d (t ∷ ts) = t

canonical_of_lem :
    (ts : List Text)
    → canonical_of ts ≡ first_member terminal_priority ts (head_or (js "unknown") ts)
unfolding canonical_of head_or first_member member
canonical_of_lem [] = refl
canonical_of_lem (t ∷ ts) = refl

-- Once a source reports a terminal status, the result depends on the set of reported statuses
-- alone: neither their order nor how often they are reported matters.
pub canonical_incident_status_unordered :
    (values others : List Value)
    → ((t : Text) → member t (status_texts values) ≡ member t (status_texts others))
    → meets terminal_priority (status_texts values) ≡ true
    → canonical_incident_status values ≡ canonical_incident_status others
unfolding canonical_incident_status
canonical_incident_status_unordered values others same h =
    let xs = status_texts values in
    let ys = status_texts others in
    rw (canonical_of_lem xs, canonical_of_lem ys)
      (first_member-eq terminal_priority xs ys (head_or (js "unknown") xs)
        (head_or (js "unknown") ys) same h)

first_member-priority :
    (higher lower among : List Text) (t d : Text)
    → meets higher among ≡ false
    → member t among ≡ true
    → first_member (higher ++ t ∷ lower) among d ≡ t
unfolding first_member
first_member-priority [] lower among t d h m = ground arith
first_member-priority (u ∷ us) lower among t d h m =
    ground (arith, first_member-priority us lower among t d)

-- A reported terminal status is the result if no status of a higher priority is
-- reported, whatever else the sources say.
pub canonical_incident_status_priority :
    (values : List Value) (higher lower : List Text) (t : Text)
    → higher ++ t ∷ lower ≡ terminal_priority
    → meets higher (status_texts values) ≡ false
    → member t (status_texts values) ≡ true
    → canonical_incident_status values ≡ t
unfolding canonical_incident_status
canonical_incident_status_priority values higher lower t e h m =
    let xs = status_texts values in
    canonical_of_lem xs
    ∙ rw (← e) (first_member-priority higher lower xs t (head_or (js "unknown") xs) h m)
