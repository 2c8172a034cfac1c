-- ===== src/Live/Connection/Progress.antt =====
-- services/operationalEvents.ts: what holds of the connection whatever happens.
use kaims_latest.Prelude.{
  All-filter_with, length-filter-le, ℕ, zero, suc, ◌+◌, ◌≤◌, ◌<◌, ◌≡◌, refl, Bool, true, false,
  List, length, min, not, ◌==◌, if◌then◌else◌, arith, Bool-cases, inl, inr, All, Option, none, some,
}
use kaims_latest.Live.Connection.{
  delay_of, Timer, Conn, connect, clear_timer, open_link, end_link, hide, show, fire, clean_up,
  idle, Step, opens, ends, hides, shows, fires, cleans_up, Reach, here, next, disabled, without,
  without_timer,
}

five_most : (n : ℕ) → min (suc (suc (suc (suc (suc n))))) 5 ≡ 5
five_most n = omega arith

delay_of_bounds : (n : ℕ) → (2_000 ≤ delay_of (suc n)) × (delay_of (suc n) ≤ 30_000)
unfolding delay_of
delay_of_bounds zero = omega arith
delay_of_bounds (suc zero) = omega arith
delay_of_bounds (suc (suc zero)) = omega arith
delay_of_bounds (suc (suc (suc zero))) = omega arith
delay_of_bounds (suc (suc (suc (suc n)))) = rw (five_most n) (omega arith)

abbrev IsDelayed : Timer → Type 0
IsDelayed t = (2_000 ≤ t.delay) × (t.delay ≤ 30_000)

-- While the page is visible and the effect runs, there is a connection or a timer that will make
-- one, and every timer waits two to thirty seconds.
pub record IsLive (s : Conn) : Type 0 where
  pub alive : s.cancelled ≡ false → s.visible ≡ true → 0 < length s.links + length s.timers
  pub delayed : All IsDelayed s.timers

connect-alive :
    (s : Conn)
    → (connect s).cancelled ≡ false
    → (connect s).visible ≡ true
    → 0 < length (connect s).links + length (connect s).timers
unfolding connect
connect-alive s h k = elim (Bool-cases s.cancelled) [
  | inl c ↦ ground arith
  | inr c ↦ elim (Bool-cases s.visible) [ inl v ↦ rw (c, v) (omega arith) | inr v ↦ ground arith ]
]

connect-timers : (s : Conn) → (connect s).timers ≡ s.timers
unfolding connect
connect-timers s = ground arith

connect-IsLive : (s : Conn) → All IsDelayed s.timers → IsLive (connect s)
connect-IsLive s d = record { alive = connect-alive s; delayed = rw (connect-timers s) d }

end_link-IsLive : (n : ℕ) (s : Conn) → IsLive s → IsLive (end_link n s)
unfolding end_link
end_link-IsLive n s l = elim (Bool-cases s.cancelled) [
  | inl c ↦ rw c (record { alive = λ h k. ground (arith, c, h); delayed = l.delayed })
  | inr c ↦ elim (Bool-cases s.visible) [
    | inl v ↦
        rw (c, v)
          (record { alive = λ h k. omega arith; delayed = (delay_of_bounds s.retry, l.delayed) })
    | inr v ↦ rw (c, v) (record { alive = λ h k. ground (arith, v, k); delayed = l.delayed })
  ]
]

hide-IsLive : (s : Conn) → IsLive s → IsLive (hide s)
unfolding hide
hide-IsLive s l = elim (Bool-cases s.cancelled) [
  | inl c ↦ rw c (record { alive = λ h k. ground (arith, k); delayed = l.delayed })
  | inr c ↦ rw c (record { alive = λ h k. ground (arith, k); delayed = l.delayed })
]

unless_cancelled-IsLive :
    (b : Bool) (s t : Conn)
    → (b ≡ true → IsLive s)
    → (b ≡ false → IsLive t)
    → IsLive (if b then s else t)
unless_cancelled-IsLive true s t h k = h refl
unless_cancelled-IsLive false s t h k = k refl

show-IsLive : (s : Conn) → IsLive s → IsLive (show s)
unfolding show
show-IsLive s l =
    unless_cancelled-IsLive s.cancelled (record s { visible = true })
      (connect (record s { visible = true; retry = 0 }))
      (λ c. record { alive = λ h k. ground (arith, h, c); delayed = l.delayed })
      (λ c. connect-IsLive (record s { visible = true; retry = 0 }) l.delayed)

fire-IsLive : (n : ℕ) (s : Conn) → IsLive s → IsLive (fire n s)
unfolding fire
fire-IsLive n s l =
    connect-IsLive (record s { timers = without_timer n s.timers })
      (All-filter_with IsDelayed IsDelayed (λ t. not (t.id == n)) s.timers (λ t kept d. d)
        l.delayed)

clear_timer-IsDelayed :
    (o : Option ℕ) (ts : List Timer) → All IsDelayed ts → All IsDelayed (clear_timer o ts)
clear_timer-IsDelayed none ts d = d
clear_timer-IsDelayed (some n) ts d =
    All-filter_with IsDelayed IsDelayed (λ t. not (t.id == n)) ts (λ t kept d. d) d

clean_up-IsLive : (s : Conn) → IsLive s → IsLive (clean_up s)
unfolding clean_up
clean_up-IsLive s l = record {
  alive = λ h k. ground (arith, h);
  delayed = clear_timer-IsDelayed s.retry_timer s.timers l.delayed;
}

Step-IsLive : (s t : Conn) → Step s t → IsLive s → IsLive t
unfolding open_link
Step-IsLive s _ (opens n h) l = record { alive = l.alive; delayed = l.delayed }
Step-IsLive s _ (ends n h) l = end_link-IsLive n s l
Step-IsLive s _ (hides h) l = hide-IsLive s l
Step-IsLive s _ (shows h) l = show-IsLive s l
Step-IsLive s _ (fires n h) l = fire-IsLive n s l
Step-IsLive s _ (cleans_up h) l = clean_up-IsLive s l

-- However the network, the page and the user go on from the start, the console never gives up: while
-- the page is visible and the effect runs, a connection is open or a timer will open one, and every
-- timer waits from two to thirty seconds.
pub Reach-IsLive :
    (visible : Bool) (t : Conn) → Reach (connect (idle visible disabled)) t → IsLive t
Reach-IsLive visible t here = connect-IsLive (idle visible disabled) tt
Reach-IsLive visible t (next r h) = Step-IsLive _ t h (Reach-IsLive visible _ r)

length-without-le : (n : ℕ) (ns : List ℕ) → length (without n ns) ≤ length ns
length-without-le n ns = length-filter-le (λ m. not (m == n)) ns

Step-quiet :
    (s t : Conn)
    → Step s t
    → s.cancelled ≡ true
    → (t.cancelled ≡ true) × (length t.links ≤ length s.links) × (length t.timers ≤ length s.timers)
unfolding open_link end_link hide show fire connect clean_up
Step-quiet s _ (opens n h) c = (c, omega arith, omega arith)
Step-quiet s _ (ends n h) c = rw c (refl, length-without-le n s.links, omega arith)
Step-quiet s _ (hides h) c = rw c (refl, omega arith, omega arith)
Step-quiet s _ (shows h) c = rw c (refl, omega arith, omega arith)
Step-quiet s _ (fires n h) c =
    rw c (refl, omega arith, length-filter-le (λ (m : Timer). not (m.id == n)) s.timers)
Step-quiet s _ (cleans_up h) c = ground (arith, c, h)

-- Once the effect is cleaned up, no step opens another connection or sets another timer.
pub Reach-quiet :
    (s t : Conn)
    → Reach s t
    → s.cancelled ≡ true
    → (t.cancelled ≡ true) × (length t.links ≤ length s.links) × (length t.timers ≤ length s.timers)
Reach-quiet s t here c = (c, omega arith, omega arith)
Reach-quiet s t (next {t = m} r h) c =
    let before = Reach-quiet s m r c in
    let after = Step-quiet m t h before.0 in
    (after.0, omega (arith, before, after), omega (arith, before, after))
