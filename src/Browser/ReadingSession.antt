-- ===== src/Browser/ReadingSession.antt =====
-- ui/src/data/readingState.ts: when the reading position of an open book is saved. The clock's reading
-- `now` is an argument of the operations that read it; a pending timer is the time at which it is due.
-- `submitted` are the calls of `updateReadingPosition`, the last one first; a call's own failure goes
-- to `onError` and changes nothing here.
pub mod Trace
pub mod Invariant
pub mod Upkeep
pub mod Saves
pub mod Pauses
use txt.Prelude.{
  ℕ, ◌+◌, ◌-◌, Bool, true, false, not, ◌&&◌, ◌||◌, Option, none, some, List, [], ◌∷◌, Text, leb,
  same, if◌then◌else◌,
}

abbrev pub grace_ms : ℕ
grace_ms = 6000

abbrev pub location_debounce_ms : ℕ
location_debounce_ms = 2000

abbrev pub upload_interval_ms : ℕ
upload_interval_ms = 15000

-- The arguments of a call of `updateReadingPosition`, but for the document's id, and when it is made.
pub record Submission : Type 0 where
  pub cfi : Option Text
  pub last_accessed : Option ℕ
  pub at : ℕ

pub record Session : Type 0 where
  pub candidate_cfi : Option Text
  pub last_submitted_cfi : Option Text
  pub grace_remaining : ℕ
  pub grace_started_at : ℕ
  pub grace_timer : Option ℕ
  pub debounce_timer : Option ℕ
  pub throttle_timer : Option ℕ
  pub qualified : Bool
  pub visible : Bool
  pub dirty : Bool
  pub disposed : Bool
  pub last_dispatched_at : Option ℕ  -- none is -Infinity
  pub submitted : List Submission

unfoldable pub new_session : Session
new_session = record {
  candidate_cfi = none;
  last_submitted_cfi = none;
  grace_remaining = grace_ms;
  grace_started_at = 0;
  grace_timer = none;
  debounce_timer = none;
  throttle_timer = none;
  qualified = false;
  visible = false;
  dirty = false;
  disposed = false;
  last_dispatched_at = none;
  submitted = [];
}

unfoldable pub same_cfi : Option Text → Option Text → Bool
same_cfi none none = true
same_cfi (some a) (some b) = same a b
same_cfi _ _ = false

abbrev pub same_visibility : Bool → Bool → Bool
same_visibility true b = b
same_visibility false b = not b

abbrev pub pending : Option ℕ → Bool
pending none = false
pending (some _) = true

-- `if (includeLastAccessed) now else null`.
abbrev pub last_accessed_of : Bool → ℕ → Option ℕ
last_accessed_of true now = some now
last_accessed_of false now = none

unfoldable pub dispatch : Bool → ℕ → Session → Session
dispatch include_last_accessed now s = record s {
  last_dispatched_at = some now;
  last_submitted_cfi = s.candidate_cfi;
  dirty = false;
  submitted =
      (record {
        cfi = s.candidate_cfi;
        last_accessed = last_accessed_of include_last_accessed now;
        at = now;
      })
      ∷ s.submitted;
}

unfoldable pub arm_grace : ℕ → Session → Session
arm_grace now s =
    if s.qualified || pending s.grace_timer || leb s.grace_remaining 0
    then s
    else record s { grace_started_at = now; grace_timer = some (now + s.grace_remaining) }

-- `Math.max(0, remaining - (now - startedAt))`.
unfoldable pub pause_grace : ℕ → Session → Session
pause_grace now s =
    if pending s.grace_timer
    then record s {
      grace_remaining = s.grace_remaining + s.grace_started_at - now;
      grace_timer = none;
    }
    else s

unfoldable pub qualify : ℕ → Session → Session
unfolding dispatch
qualify now s =
    if s.disposed || s.qualified
    then s
    else dispatch true now (record s { qualified = true; dirty = true })

-- When the next upload may be made: `wait <= 0` is `next_upload <= now`.
abbrev pub next_upload : Option ℕ → ℕ
next_upload none = 0
next_upload (some last) = upload_interval_ms + last

unfoldable pub flush_throttled : ℕ → Session → Session
unfolding dispatch
flush_throttled now s =
    if not s.dirty || s.disposed
    then s
    else if leb (next_upload s.last_dispatched_at) now
    then dispatch false now s
    else if pending s.throttle_timer
    then s
    else record s { throttle_timer = some (now + (next_upload s.last_dispatched_at - now)) }

unfoldable pub flush_now : ℕ → Session → Session
unfolding dispatch
flush_now now s =
    if s.dirty
    then dispatch false now (record s { debounce_timer = none; throttle_timer = none })
    else s

unfoldable pub start : Option Text → Bool → ℕ → Session → Session
unfolding arm_grace
start initial_cfi visible now s =
    if s.disposed
    then s
    else if visible
    then arm_grace now (record s { candidate_cfi = initial_cfi; visible = visible })
    else record s { candidate_cfi = initial_cfi; visible = visible }

-- `clearTimer("debounce")` and the new timer in its place.
unfoldable pub mark_dirty : Bool → ℕ → Session → Session
mark_dirty dirty now s =
    if dirty
    then record s { dirty = true; debounce_timer = some (now + location_debounce_ms) }
    else record s { dirty = false }

unfoldable pub relocate : Text → Bool → ℕ → Session → Session
unfolding mark_dirty
relocate cfi user_initiated now s =
    if s.disposed
    then s
    else if not s.qualified || not user_initiated
    then record s { candidate_cfi = some cfi }
    else mark_dirty (not (same_cfi (some cfi) s.last_submitted_cfi)) now
        (record s { candidate_cfi = some cfi })

unfoldable pub set_visible : Bool → ℕ → Session → Session
unfolding arm_grace pause_grace flush_now
set_visible visible now s =
    if s.disposed || same_visibility visible s.visible
    then s
    else if not s.qualified
    then (if visible
        then arm_grace now (record s { visible = visible })
        else pause_grace now (record s { visible = visible }))
    else if not visible
    then flush_now now (record s { visible = visible })
    else record s { visible = visible }

unfoldable pub retry : ℕ → Session → Session
unfolding flush_now
retry now s = if not s.qualified || s.disposed then s else flush_now now (record s { dirty = true })

abbrev pub clear_timers : Session → Session
clear_timers s = record s { grace_timer = none; debounce_timer = none; throttle_timer = none }

unfoldable pub dispose : ℕ → Session → Session
unfolding flush_now
dispose now s =
    if s.disposed
    then s
    else clear_timers (record (if s.qualified then flush_now now s else s) { disposed = true })

-- The callbacks of the three timers.
unfoldable pub grace_fires : ℕ → Session → Session
unfolding qualify
grace_fires now s = qualify now (record s { grace_timer = none; grace_remaining = 0 })

unfoldable pub debounce_fires : ℕ → Session → Session
unfolding flush_throttled
debounce_fires now s = flush_throttled now (record s { debounce_timer = none })

unfoldable pub throttle_fires : ℕ → Session → Session
unfolding flush_throttled
throttle_fires now s = flush_throttled now (record s { throttle_timer = none })
