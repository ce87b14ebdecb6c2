-- ===== src/Browser/ReadingSession/Trace.antt =====
-- The life of a session: what the reader, the page and the browser's timers do to it, one event after
-- another, each some milliseconds after the one before it.
use txt.Prelude.{ℕ, ◌+◌, Bool, false, Option, none, some, List, [], ◌∷◌, Text, leb, if◌then◌else◌}
use txt.Browser.ReadingSession.{
  Session, new_session, start, relocate, set_visible, retry, dispose, grace_fires, debounce_fires,
  throttle_fires,
}

pub data Event : Type 0 where
  relocated : Text → Bool → Event
  visibility : Bool → Event
  retried disposal grace_due debounce_due throttle_due : Event

-- The browser runs a timer's callback at its time or later, and once.
abbrev pub is_due : ℕ → Option ℕ → Bool
is_due now none = false
is_due now (some time) = leb time now

unfoldable pub step : Event → ℕ → Session → Session
unfolding relocate set_visible retry dispose grace_fires debounce_fires throttle_fires
step (relocated cfi user_initiated) now s = relocate cfi user_initiated now s
step (visibility visible) now s = set_visible visible now s
step retried now s = retry now s
step disposal now s = dispose now s
step grace_due now s = if is_due now s.grace_timer then grace_fires now s else s
step debounce_due now s = if is_due now s.debounce_timer then debounce_fires now s else s
step throttle_due now s = if is_due now s.throttle_timer then throttle_fires now s else s

-- A session at a time, with the milliseconds for which the book has been in view.
pub record Moment : Type 0 where
  pub session : Session
  pub now : ℕ
  pub watched : ℕ

-- `delay` milliseconds pass and the event happens.
unfoldable pub after : ℕ → Event → Moment → Moment
unfolding step
after delay event m = record {
  session = step event (m.now + delay) m.session;
  now = m.now + delay;
  watched = if m.session.visible then m.watched + delay else m.watched;
}

unfoldable pub live : List (ℕ × Event) → Moment → Moment
unfolding after
live [] m = m
live ((delay, event) ∷ events) m = live events (after delay event m)

-- A book is opened: the session is made and started, once.
unfoldable pub opened : Option Text → Bool → ℕ → Moment
unfolding start new_session
opened initial_cfi visible now = record {
  session = start initial_cfi visible now new_session;
  now = now;
  watched = 0;
}
