-- ===== src/Browser/ReadingSession/Upkeep.antt =====
-- The invariant is kept by the timers' callbacks, so by every event.
use txt.Prelude.{
  if_cases, inl, inr, Bool-cases, ◌-◌, leb, if◌then◌else◌, ℕ, ◌+◌, ◌≤◌, ◌≡◌, Bool, true, false, not,
  ◌||◌, Option, none, some, List, [], ◌∷◌, Text, arith,
}
use txt.Browser.ReadingSession.{
  Session, pending, dispatch, flush_throttled, next_upload, qualify, grace_fires, debounce_fires,
  throttle_fires,
}
use txt.Browser.ReadingSession.Trace.{
  is_due, Event, relocated, visibility, retried, disposal, grace_due, debounce_due, throttle_due,
  step, Moment, after, live, opened,
}
use txt.Browser.ReadingSession.Invariant.{
  Inv, IsWithin, qualify-Inv, relocate-Inv, set_visible-Inv, retry-Inv, dispose-Inv, start-Inv,
}

-- The callback of a grace timer, were the session qualified already.
idle-Inv :
    (now watched : ℕ) (s : Session)
    → Inv now watched s
    → s.qualified ≡ true
    → Inv now watched (grace_fires now s)
unfolding grace_fires qualify
idle-Inv now watched s v q =
    if_cases (Inv now watched) (s.disposed || s.qualified) (λ _. ground arith)
      λ e. absurd (ground arith)

-- Other timers in place of the two, of which one is pending while the position is unsaved.
timers-Inv :
    (now watched : ℕ) (s : Session) (d r : Option ℕ)
    → Inv now watched s
    → (s.disposed ≡ true → (d ≡ none) × (r ≡ none))
    → IsWithin (now + 2000) d
    → IsWithin (now + 15000) r
    → (s.qualified ≡ true → s.disposed ≡ false → s.dirty ≡ true → (pending d || pending r) ≡ true)
    → Inv now watched (record s { debounce_timer = d; throttle_timer = r })
timers-Inv now watched s d r v stop hd hr hs = ground (arith, v.stopped)

resent-Inv :
    (now watched : ℕ) (s : Session) (d r : Option ℕ)
    → Inv now watched s
    → s.disposed ≡ false
    → s.qualified ≡ true
    → IsWithin (now + 2000) d
    → IsWithin (now + 15000) r
    → Inv now watched (dispatch false now (record s { debounce_timer = d; throttle_timer = r }))
unfolding dispatch
resent-Inv now watched s d r v q hd hr e = ground arith

pub next_upload-le :
    (now : ℕ) (last : Option ℕ) → IsWithin now last → now + (next_upload last - now) ≤ now + 15000
next_upload-le now none h = omega arith
next_upload-le now (some last) h = omega arith

flush_throttled-Inv :
    (now watched : ℕ) (s : Session) (d r : Option ℕ)
    → Inv now watched s
    → (s.disposed ≡ true → (d ≡ none) × (r ≡ none))
    → IsWithin (now + 2000) d
    → IsWithin (now + 15000) r
    → Inv now watched (flush_throttled now (record s { debounce_timer = d; throttle_timer = r }))
unfolding flush_throttled
flush_throttled-Inv now watched s d r v stop hd hr =
    if_cases (Inv now watched) (not s.dirty || s.disposed)
      (λ e. timers-Inv now watched s d r v stop hd hr (ground arith))
      λ e.
        if_cases (Inv now watched) (leb (next_upload s.last_dispatched_at) now)
          (λ _. resent-Inv now watched s d r v (ground arith) (ground (arith, v.clean)) hd hr)
          λ l.
            if_cases (Inv now watched) (pending r)
              (λ p. timers-Inv now watched s d r v stop hd hr (ground arith))
              λ _.
                timers-Inv now watched s d _ v (ground arith) hd
                  (next_upload-le now s.last_dispatched_at v.last_bound) (ground arith)

debounce_fires-Inv :
    (now watched : ℕ) (s : Session) → Inv now watched s → Inv now watched (debounce_fires now s)
unfolding debounce_fires
debounce_fires-Inv now watched s v =
    flush_throttled-Inv now watched s none s.throttle_timer v (ground (arith, v.stopped)) tt
      v.throttle_bound

throttle_fires-Inv :
    (now watched : ℕ) (s : Session) → Inv now watched s → Inv now watched (throttle_fires now s)
unfolding throttle_fires
throttle_fires-Inv now watched s v =
    flush_throttled-Inv now watched s s.debounce_timer none v (ground (arith, v.stopped))
      v.debounce_bound tt

grace_fires-Inv :
    (now watched : ℕ) (s : Session)
    → Inv now watched s
    → is_due now s.grace_timer ≡ true
    → Inv now watched (grace_fires now s)
grace_fires-Inv now watched s v due = elim (Bool-cases s.qualified) [
  | inl q ↦ idle-Inv now watched s v q
  | inr q ↦ qualify-Inv now watched s v q (ground (arith, v.grace q)) (ground (arith, v.stopped))
]

-- Each event keeps the invariant.
pub step-Inv :
    (event : Event) (now watched : ℕ) (s : Session)
    → Inv now watched s
    → Inv now watched (step event now s)
unfolding step
step-Inv (relocated cfi user_initiated) now watched s v =
    relocate-Inv cfi user_initiated now watched s v
step-Inv (visibility visible) now watched s v = set_visible-Inv visible now watched s v
step-Inv retried now watched s v = retry-Inv now watched s v
step-Inv disposal now watched s v = dispose-Inv now watched s v
step-Inv grace_due now watched s v =
    if_cases (Inv now watched) (is_due now s.grace_timer) (grace_fires-Inv now watched s v) (λ _. v)
step-Inv debounce_due now watched s v =
    if_cases (Inv now watched) (is_due now s.debounce_timer)
      (λ _. debounce_fires-Inv now watched s v) (λ _. v)
step-Inv throttle_due now watched s v =
    if_cases (Inv now watched) (is_due now s.throttle_timer)
      (λ _. throttle_fires-Inv now watched s v) (λ _. v)

-- So does time that passes, in view or not.
pub pass-Inv :
    (delay now watched : ℕ) (s : Session)
    → Inv now watched s
    → Inv (now + delay) (if s.visible then watched + delay else watched) s
pass-Inv delay now watched s v = ground arith

abbrev pub IsSound : Moment → Type 0
IsSound m = Inv m.now m.watched m.session

pub live-IsSound : (events : List (ℕ × Event)) (m : Moment) → IsSound m → IsSound (live events m)
unfolding live after
live-IsSound [] m v = v
live-IsSound ((delay, event) ∷ events) m v =
    live-IsSound events _
      (step-Inv event _ _ m.session (pass-Inv delay m.now m.watched m.session v))

pub opened-IsSound :
    (cfi : Option Text) (visible : Bool) (now : ℕ) → IsSound (opened cfi visible now)
unfolding opened
opened-IsSound cfi visible now = start-Inv cfi visible now
