-- ===== src/Browser/ReadingSession/Saves.antt =====
-- What a session saves, and when.
use txt.Prelude.{
  ◌⊎◌, ℕ, ◌+◌, ◌≤◌, ◌≡◌, ◌≢◌, refl, Bool, true, false, not, ◌||◌, Bool-cases, Option, none, List,
  [], ◌∷◌, Text, inl, inr, leb, if_cases, arith,
}
use txt.Browser.ReadingSession.{
  Session, Submission, pending, next_upload, dispatch, flush_throttled, debounce_fires,
  throttle_fires,
}
use txt.Browser.ReadingSession.Trace.{
  Event, debounce_due, throttle_due, is_due, step, Moment, after, live, opened,
}
use txt.Browser.ReadingSession.Invariant.{Inv, IsHistory, IsWithin}
use txt.Browser.ReadingSession.Upkeep.{IsSound, live-IsSound, opened-IsSound, next_upload-le}

earned-IsHistory :
    (m : Moment)
    → IsSound m
    → IsHistory m.session.submitted × (m.session.submitted ≢ [] → 6000 ≤ m.watched)
earned-IsHistory m v = (
  v.history,
  λ some_sent. elim (Bool-cases m.session.qualified) [
    | inl q ↦ v.earned q
    | inr q ↦ absurd (some_sent (ground (arith, v.begun)))
  ],
)

-- Whatever happens to an opened book, a position is submitted only after the book was in view for six
-- seconds in all; the first submission records the visit, with its time, and no later one does.
pub submits_after_grace :
    (cfi : Option Text) (visible : Bool) (opened_at : ℕ) (events : List (ℕ × Event))
    → let m = live events (opened cfi visible opened_at) in
      IsHistory m.session.submitted × (m.session.submitted ≢ [] → 6000 ≤ m.watched)
submits_after_grace cfi visible opened_at events =
    earned-IsHistory _ (live-IsSound events _ (opened-IsSound cfi visible opened_at))

-- The submission of a position that is no visit.
abbrev pub position_at : Option Text → ℕ → Submission
position_at cfi at = record { cfi = cfi; last_accessed = none; at = at }

-- From `s` to `t` the candidate position of `s` was submitted, once and by a time, and nothing waits.
IsSaved : ℕ → Session → Session → Type 0
IsSaved limit s t =
    (t.dirty ≡ false)
    × (at : ℕ) × (at ≤ limit)
    × (t.submitted ≡ position_at s.candidate_cfi at ∷ s.submitted)

-- The position of `s` waits in `t` for the throttle timer.
record Waits (now : ℕ) (s t : Session) : Type 0 where
  unsaved : t.dirty ≡ true
  open_still : t.disposed ≡ false
  same_candidate : t.candidate_cfi ≡ s.candidate_cfi
  none_sent : t.submitted ≡ s.submitted
  armed : pending t.throttle_timer ≡ true
  in_time : IsWithin (now + 15000) t.throttle_timer
  last_upload : IsWithin now t.last_dispatched_at

flush_throttled-Waits :
    (now : ℕ) (s : Session)
    → s.dirty ≡ true
    → s.disposed ≡ false
    → IsWithin (now + 15000) s.throttle_timer
    → IsWithin now s.last_dispatched_at
    → IsSaved (now + 15000) s (flush_throttled now (record s { debounce_timer = none }))
      ⊎ Waits now s (flush_throttled now (record s { debounce_timer = none }))
unfolding flush_throttled dispatch IsSaved
flush_throttled-Waits now s d o w l =
    if_cases (λ t. IsSaved (now + 15000) s t ⊎ Waits now s t) (not s.dirty || s.disposed)
      (λ e. absurd (ground arith))
      λ e.
        if_cases (λ t. IsSaved (now + 15000) s t ⊎ Waits now s t)
          (leb (next_upload s.last_dispatched_at) now) (λ _. inl (refl, now, omega arith, refl))
          λ late.
            if_cases (λ t. IsSaved (now + 15000) s t ⊎ Waits now s t) (pending s.throttle_timer)
              (λ p. inr (record {
                unsaved = d;
                open_still = o;
                same_candidate = refl;
                none_sent = refl;
                armed = p;
                in_time = w;
                last_upload = l;
              }))
              λ p. inr (record {
                unsaved = d;
                open_still = o;
                same_candidate = refl;
                none_sent = refl;
                armed = refl;
                in_time = next_upload-le now s.last_dispatched_at l;
                last_upload = l;
              })

debounce-Waits :
    (now watched : ℕ) (s : Session)
    → Inv now watched s
    → s.dirty ≡ true
    → s.disposed ≡ false
    → let t = step debounce_due (now + 2000) s in
      IsSaved (now + 2000 + 15000) s t ⊎ Waits (now + 2000) s t
unfolding step debounce_fires
debounce-Waits now watched s v d o =
    if_cases (λ t. IsSaved (now + 2000 + 15000) s t ⊎ Waits (now + 2000) s t)
      (is_due (now + 2000) s.debounce_timer)
      (λ due.
        flush_throttled-Waits (now + 2000) s d o (ground (arith, v.throttle_bound))
          (ground (arith, v.last_bound)))
      λ idle. inr (record {
        unsaved = d;
        open_still = o;
        same_candidate = refl;
        none_sent = refl;
        armed = ground (arith, v.saves, v.debounce_bound);
        in_time = ground (arith, v.throttle_bound);
        last_upload = ground (arith, v.last_bound);
      })

throttle-IsSaved :
    (now : ℕ) (s t : Session)
    → IsSaved (now + 15000) s t ⊎ Waits now s t
    → IsSaved (now + 15000) s (step throttle_due (now + 15000) t)
unfolding step throttle_fires flush_throttled dispatch IsSaved
throttle-IsSaved now s t (inl saved) =
    if_cases (IsSaved (now + 15000) s) (is_due (now + 15000) t.throttle_timer)
      (λ _.
        if_cases (IsSaved (now + 15000) s) (not t.dirty || t.disposed) (λ _. saved)
          (λ e. absurd (ground arith)))
      (λ _. saved)
throttle-IsSaved now s t (inr w) =
    if_cases (IsSaved (now + 15000) s) (is_due (now + 15000) t.throttle_timer)
      (λ _.
        if_cases (IsSaved (now + 15000) s) (not t.dirty || t.disposed)
          (λ e. absurd (ground (arith, w.unsaved, w.open_still)))
          λ _.
            if_cases (IsSaved (now + 15000) s)
              (leb (next_upload t.last_dispatched_at) (now + 15000))
              (λ _. (refl, now + 15000, omega arith, rw (w.same_candidate, w.none_sent) refl))
              (λ late. absurd (ground (arith, w.last_upload))))
      (λ idle. absurd (ground (arith, w.armed, w.in_time)))

-- Whatever happened to an opened book, a position that waits to be saved is submitted once the debounce
-- timer's time, two seconds on, and after it the throttle timer's, fifteen seconds on, have come, unless
-- the session was disposed of: exactly one submission is made, of that position, and nothing waits.
pub unsaved_position_is_submitted :
    (cfi : Option Text) (visible : Bool) (opened_at : ℕ) (events : List (ℕ × Event))
    → let m = live events (opened cfi visible opened_at) in
      m.session.dirty ≡ true
      → m.session.disposed ≡ false
      → let n = live ((2000, debounce_due) ∷ (15000, throttle_due) ∷ []) m in
        (n.session.dirty ≡ false)
        × (at : ℕ) × (at ≤ m.now + 2000 + 15000)
        × (n.session.submitted ≡ position_at m.session.candidate_cfi at ∷ m.session.submitted)
unfolding IsSaved
unsaved_position_is_submitted cfi visible opened_at events d o =
    let m = live events (opened cfi visible opened_at) in
    unfold live after in
    throttle-IsSaved (m.now + 2000) m.session _ (
      debounce-Waits m.now m.watched m.session
        (live-IsSound events _ (opened-IsSound cfi visible opened_at)) d o)
