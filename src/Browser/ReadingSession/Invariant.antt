-- ===== src/Browser/ReadingSession/Invariant.antt =====
-- What holds of a reading session between two events.
use txt.Prelude.{
  if_cases, ℕ, ◌+◌, ◌≤◌, ◌≡◌, Bool, true, false, not, ◌||◌, Option, none, some, List, [], ◌∷◌, Text,
  arith,
}
use txt.Browser.ReadingSession.{
  clear_timers, same_visibility, Session, Submission, last_accessed_of, pending, new_session, start,
  arm_grace, pause_grace, dispatch, mark_dirty, relocate, set_visible, retry, flush_now, dispose,
  qualify, grace_fires,
}

abbrev pub empty : List Submission → Bool
empty [] = true
empty (_ ∷ _) = false

-- The first of the submissions records a visit, at its time, and no later one does.
abbrev pub IsHistory : List Submission → Type 0
IsHistory [] = Unit
IsHistory (x ∷ earlier) =
    (x.last_accessed ≡ last_accessed_of (empty earlier) x.at) × IsHistory earlier

-- The time in view and what is left of the grace period make up six seconds.
abbrev pub IsGrace : ℕ → ℕ → Session → Option ℕ → Type 0
IsGrace now watched s none = 6000 ≤ watched + s.grace_remaining
IsGrace now watched s (some time) =
    (s.visible ≡ true)
    × (s.qualified ≡ false)
    × (time ≡ s.grace_started_at + s.grace_remaining)
    × (s.grace_started_at ≤ now)
    × (6000 + now ≤ watched + s.grace_remaining + s.grace_started_at)

abbrev pub IsWithin : ℕ → Option ℕ → Type 0
IsWithin limit none = Unit
IsWithin limit (some time) = time ≤ limit

pub record Inv (now watched : ℕ) (s : Session) : Type 0 where
  pub grace : s.qualified ≡ false → IsGrace now watched s s.grace_timer
  pub earned : s.qualified ≡ true → 6000 ≤ watched
  pub history : IsHistory s.submitted
  pub begun : empty s.submitted ≡ not s.qualified
  pub clean : s.qualified ≡ false → s.dirty ≡ false
  pub saves : s.dirty ≡ true → (pending s.debounce_timer || pending s.throttle_timer) ≡ true
  pub debounce_bound : IsWithin (now + 2000) s.debounce_timer
  pub throttle_bound : IsWithin (now + 15000) s.throttle_timer
  pub last_bound : IsWithin now s.last_dispatched_at
  pub stopped :
      s.disposed ≡ true
      → (s.grace_timer ≡ none) × (s.debounce_timer ≡ none) × (s.throttle_timer ≡ none)

new_session-Inv : (now : ℕ) → Inv now 0 new_session
unfolding new_session
new_session-Inv now = ground arith

pub start-Inv :
    (cfi : Option Text) (visible : Bool) (now : ℕ) → Inv now 0 (start cfi visible now new_session)
unfolding new_session start
start-Inv cfi visible now = ground arith

marked-Inv :
    (cfi : Text) (dirty : Bool) (now watched : ℕ) (s : Session)
    → Inv now watched s
    → s.disposed ≡ false
    → s.qualified ≡ true
    → Inv now watched (mark_dirty dirty now (record s { candidate_cfi = some cfi }))
unfolding mark_dirty
marked-Inv cfi true now watched s v d q = ground arith
marked-Inv cfi false now watched s v d q = ground arith

pub relocate-Inv :
    (cfi : Text) (user_initiated : Bool) (now watched : ℕ) (s : Session)
    → Inv now watched s
    → Inv now watched (relocate cfi user_initiated now s)
unfolding relocate
relocate-Inv cfi user_initiated now watched s v =
    if_cases (Inv now watched) s.disposed (λ _. v)
      λ d.
        if_cases (Inv now watched) (not s.qualified || not user_initiated) (λ _. ground arith)
          λ e. marked-Inv cfi _ now watched s v d (ground arith)

-- Both timers are cleared and the position is submitted.
sent-Inv :
    (now watched : ℕ) (s : Session)
    → Inv now watched s
    → s.qualified ≡ true
    → Inv now watched
        (dispatch false now (record s { debounce_timer = none; throttle_timer = none }))
unfolding dispatch
sent-Inv now watched s v q = ground arith

dirty-qualified :
    (now watched : ℕ) (s : Session) → Inv now watched s → s.dirty ≡ true → s.qualified ≡ true
dirty-qualified now watched s v d = ground (arith, v.clean)

flush_now-Inv :
    (now watched : ℕ) (s : Session) → Inv now watched s → Inv now watched (flush_now now s)
unfolding flush_now
flush_now-Inv now watched s v =
    if_cases (Inv now watched) s.dirty
      (λ d. sent-Inv now watched s v (dirty-qualified now watched s v d)) (λ _. v)

arm_grace-Inv :
    (now watched : ℕ) (s : Session)
    → Inv now watched s
    → s.disposed ≡ false
    → Inv now watched (arm_grace now (record s { visible = true }))
unfolding arm_grace
arm_grace-Inv now watched s v d = ground arith

pause_grace-Inv :
    (now watched : ℕ) (s : Session)
    → Inv now watched s
    → s.qualified ≡ false
    → Inv now watched (pause_grace now (record s { visible = false }))
unfolding pause_grace
pause_grace-Inv now watched s v q = ground arith

seen-Inv :
    (visible : Bool) (now watched : ℕ) (s : Session)
    → Inv now watched s
    → s.qualified ≡ true
    → Inv now watched (record s { visible = visible })
seen-Inv visible now watched s v q = ground arith

pub set_visible-Inv :
    (visible : Bool) (now watched : ℕ) (s : Session)
    → Inv now watched s
    → Inv now watched (set_visible visible now s)
unfolding set_visible
set_visible-Inv true now watched s v =
    if_cases (Inv now watched) (s.disposed || same_visibility true s.visible) (λ _. v)
      λ d.
        if_cases (Inv now watched) (not s.qualified)
          (λ _. arm_grace-Inv now watched s v (ground arith))
          (λ q. seen-Inv true now watched s v (ground arith))
set_visible-Inv false now watched s v =
    if_cases (Inv now watched) (s.disposed || same_visibility false s.visible) (λ _. v)
      λ d.
        if_cases (Inv now watched) (not s.qualified)
          (λ q. pause_grace-Inv now watched s v (ground arith))
          (λ q. flush_now-Inv now watched _ (seen-Inv false now watched s v (ground arith)))

pub retry-Inv : (now watched : ℕ) (s : Session) → Inv now watched s → Inv now watched (retry now s)
unfolding retry flush_now dispatch
retry-Inv now watched s v =
    if_cases (Inv now watched) (not s.qualified || s.disposed) (λ _. v)
      λ q. unfold dispatch in sent-Inv now watched s v (ground arith)

disposed-Inv :
    (now watched : ℕ) (s : Session)
    → Inv now watched s
    → s.dirty ≡ false
    → Inv now watched (clear_timers (record s { disposed = true }))
disposed-Inv now watched s v c = ground arith

flush_now-clean : (now : ℕ) (s : Session) → (flush_now now s).dirty ≡ false
unfolding flush_now dispatch
flush_now-clean now s = ground arith

pub dispose-Inv :
    (now watched : ℕ) (s : Session) → Inv now watched s → Inv now watched (dispose now s)
unfolding dispose
dispose-Inv now watched s v =
    if_cases (Inv now watched) s.disposed (λ _. v)
      λ d.
        if_cases (λ t. Inv now watched (clear_timers (record t { disposed = true }))) s.qualified
          (λ _. disposed-Inv now watched _ (flush_now-Inv now watched s v) (flush_now-clean now s))
          (λ q. disposed-Inv now watched s v (v.clean q))

pub qualify-Inv :
    (now watched : ℕ) (s : Session)
    → Inv now watched s
    → s.qualified ≡ false
    → 6000 ≤ watched
    → s.disposed ≡ false
    → Inv now watched (grace_fires now s)
unfolding grace_fires qualify dispatch
qualify-Inv now watched s v q w d = ground arith
