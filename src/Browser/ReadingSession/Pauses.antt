-- ===== src/Browser/ReadingSession/Pauses.antt =====
-- How often a session submits, and that it is silent after its end.
use txt.Prelude.{
  ℕ, ◌+◌, ◌≤◌, ◌≡◌, refl, sym, ap, ◌∙◌, Bool, true, false, not, ◌||◌, Option, none, some, List, [],
  ◌∷◌, All, Text, leb, if_cases, if◌then◌else◌, arith,
}
use txt.Browser.ReadingSession.{
  Session, Submission, pending, next_upload, dispatch, flush_throttled, flush_now, dispose,
  debounce_fires, throttle_fires, grace_fires, qualify, relocate, set_visible, retry, arm_grace,
  mark_dirty, start, new_session,
}
use txt.Browser.ReadingSession.Trace.{
  Event, relocated, visibility, retried, disposal, grace_due, debounce_due, throttle_due, is_due,
  step, Moment, after, live, opened,
}
use txt.Browser.ReadingSession.Invariant.{Inv, empty}
use txt.Browser.ReadingSession.Saves.{position_at}
use txt.Browser.ReadingSession.Upkeep.{IsSound, live-IsSound, opened-IsSound, step-Inv, pass-Inv}

-- The reader goes on reading: no save is forced by hiding the page, by a retry or at the end.
abbrev pub IsQuiet : Event → Type 0
IsQuiet (visibility false) = ⊥
IsQuiet retried = ⊥
IsQuiet disposal = ⊥
IsQuiet _ = Unit

abbrev IsAfter : ℕ → List Submission → Type 0
IsAfter now [] = Unit
IsAfter now (x ∷ _) = 15000 + x.at ≤ now

-- Fifteen seconds lie between each submission and the one before it.
abbrev pub IsSpaced : List Submission → Type 0
IsSpaced [] = Unit
IsSpaced (x ∷ earlier) = IsAfter x.at earlier × IsSpaced earlier

abbrev last_at : List Submission → Option ℕ
last_at [] = none
last_at (x ∷ _) = some x.at

record IsPaced (s : Session) : Type 0 where
  spaced : IsSpaced s.submitted
  last : s.last_dispatched_at ≡ last_at s.submitted

IsAfter-upload :
    (now : ℕ) (earlier : List Submission)
    → leb (next_upload (last_at earlier)) now ≡ true
    → IsAfter now earlier
IsAfter-upload now [] h = tt
IsAfter-upload now (x ∷ earlier) h = ground arith

IsAfter-nothing : (now : ℕ) (earlier : List Submission) → empty earlier ≡ true → IsAfter now earlier
IsAfter-nothing now [] h = tt
IsAfter-nothing now (x ∷ earlier) h = cc

dispatch-IsPaced :
    (visit : Bool) (now : ℕ) (s : Session)
    → IsAfter now s.submitted
    → IsPaced s
    → IsPaced (dispatch visit now s)
unfolding dispatch
dispatch-IsPaced visit now s h p = record { spaced = (h, p.spaced); last = refl }

-- A timer that is set or cleared, and a change of the flags, submit nothing.
IsPaced-of :
    (s t : Session)
    → t.submitted ≡ s.submitted
    → t.last_dispatched_at ≡ s.last_dispatched_at
    → IsPaced s
    → IsPaced t
IsPaced-of s t e l p = record { spaced = rw e p.spaced; last = l ∙ p.last ∙ ap last_at (sym e) }

flush_throttled-IsPaced : (now : ℕ) (s : Session) → IsPaced s → IsPaced (flush_throttled now s)
unfolding flush_throttled
flush_throttled-IsPaced now s p =
    if_cases IsPaced (not s.dirty || s.disposed) (λ _. p)
      λ _.
        if_cases IsPaced (leb (next_upload s.last_dispatched_at) now)
          (λ l. dispatch-IsPaced false now s (IsAfter-upload now s.submitted (rw (← p.last) l)) p)
          λ _.
            if_cases IsPaced (pending s.throttle_timer) (λ _. p) (λ _. IsPaced-of s _ refl refl p)

grace_fires-IsPaced :
    (now watched : ℕ) (s : Session) → Inv now watched s → IsPaced s → IsPaced (grace_fires now s)
unfolding grace_fires qualify
grace_fires-IsPaced now watched s v p =
    if_cases IsPaced (s.disposed || s.qualified) (λ _. IsPaced-of s _ refl refl p)
      λ q.
        dispatch-IsPaced true now
          (record s { grace_timer = none; grace_remaining = 0; qualified = true; dirty = true })
          (IsAfter-nothing now s.submitted (ground (arith, v.begun))) (IsPaced-of s _ refl refl p)

relocate-IsPaced :
    (cfi : Text) (user_initiated : Bool) (now : ℕ) (s : Session)
    → IsPaced s
    → IsPaced (relocate cfi user_initiated now s)
unfolding relocate mark_dirty
relocate-IsPaced cfi user_initiated now s p = ground arith

shown-IsPaced : (now : ℕ) (s : Session) → IsPaced s → IsPaced (set_visible true now s)
unfolding set_visible arm_grace
shown-IsPaced now s p = ground arith

step-IsPaced :
    (event : Event) (now watched : ℕ) (s : Session)
    → IsQuiet event
    → Inv now watched s
    → IsPaced s
    → IsPaced (step event now s)
unfolding step debounce_fires throttle_fires
step-IsPaced (relocated cfi user_initiated) now watched s q v p =
    relocate-IsPaced cfi user_initiated now s p
step-IsPaced (visibility true) now watched s q v p = shown-IsPaced now s p
step-IsPaced (visibility false) now watched s q v p = absurd q
step-IsPaced retried now watched s q v p = absurd q
step-IsPaced disposal now watched s q v p = absurd q
step-IsPaced grace_due now watched s q v p =
    if_cases IsPaced (is_due now s.grace_timer) (λ _. grace_fires-IsPaced now watched s v p)
      (λ _. p)
step-IsPaced debounce_due now watched s q v p =
    if_cases IsPaced (is_due now s.debounce_timer)
      (λ _.
        flush_throttled-IsPaced now (record s { debounce_timer = none })
          (IsPaced-of s _ refl refl p))
      (λ _. p)
step-IsPaced throttle_due now watched s q v p =
    if_cases IsPaced (is_due now s.throttle_timer)
      (λ _.
        flush_throttled-IsPaced now (record s { throttle_timer = none })
          (IsPaced-of s _ refl refl p))
      (λ _. p)

live-IsPaced :
    (events : List (ℕ × Event)) (m : Moment)
    → All (λ e. IsQuiet e.1) events
    → IsSound m
    → IsPaced m.session
    → IsPaced (live events m).session
unfolding live after
live-IsPaced [] m q v p = p
live-IsPaced ((delay, event) ∷ events) m (q, qs) v p =
    let v' = pass-Inv delay m.now m.watched m.session v in
    live-IsPaced events _ qs (step-Inv event _ _ m.session v')
      (step-IsPaced event _ _ m.session q v' p)

opened-IsPaced :
    (cfi : Option Text) (visible : Bool) (now : ℕ) → IsPaced (opened cfi visible now).session
unfolding opened start new_session arm_grace
opened-IsPaced cfi visible now = ground arith

-- While an opened book is read, with no hiding of the page, no retry and no disposal, there are at least
-- fifteen seconds between each submitted position and the one before it.
pub submissions-IsSpaced :
    (cfi : Option Text) (visible : Bool) (opened_at : ℕ) (events : List (ℕ × Event))
    → All (λ e. IsQuiet e.1) events
    → IsSpaced (live events (opened cfi visible opened_at)).session.submitted
submissions-IsSpaced cfi visible opened_at events q =
    (live-IsPaced events _ q (opened-IsSound cfi visible opened_at)
      (opened-IsPaced cfi visible opened_at)).spaced

-- A session that was disposed of ignores every event.
step_disposed :
    (event : Event) (now watched : ℕ) (s : Session)
    → Inv now watched s
    → s.disposed ≡ true
    → step event now s ≡ s
unfolding step relocate set_visible retry dispose grace_fires debounce_fires throttle_fires
step_disposed (relocated cfi user_initiated) now watched s v d = rw d refl
step_disposed (visibility visible) now watched s v d = rw d refl
step_disposed retried now watched s v d = ground arith
step_disposed disposal now watched s v d = rw d refl
step_disposed grace_due now watched s v d = rw (v.stopped d).0 refl
step_disposed debounce_due now watched s v d = rw (v.stopped d).1 refl
step_disposed throttle_due now watched s v d = rw (v.stopped d).2 refl

live_disposed :
    (events : List (ℕ × Event)) (m : Moment)
    → IsSound m
    → m.session.disposed ≡ true
    → (live events m).session ≡ m.session
unfolding live after
live_disposed [] m v d = refl
live_disposed ((delay, event) ∷ events) m v d =
    let v' = pass-Inv delay m.now m.watched m.session v in
    let same = step_disposed event (m.now + delay) _ m.session v' d in
    live_disposed events _ (step-Inv event _ _ m.session v') (rw same d) ∙ same

dispose_lem :
    (now watched : ℕ) (s : Session)
    → Inv now watched s
    → s.disposed ≡ false
    → ((dispose now s).disposed ≡ true)
      × ((dispose now s).dirty ≡ false)
      × ((dispose now s).submitted
          ≡ (if s.dirty then position_at s.candidate_cfi now ∷ s.submitted else s.submitted))
unfolding dispose flush_now dispatch
dispose_lem now watched s v o = ground (arith, v.clean)

-- Disposing of an opened book's session, whatever happened to it, submits the position that waits to be
-- saved, at once, and nothing where none waits; nothing waits then, and no later event or timer changes
-- or submits anything.
pub disposed_session_is_final :
    (cfi : Option Text) (visible : Bool) (opened_at : ℕ) (events : List (ℕ × Event)) (delay : ℕ)
    (later : List (ℕ × Event))
    → let m = live events (opened cfi visible opened_at) in
      let n = after delay disposal m in
      m.session.disposed ≡ false
      → (n.session.dirty ≡ false)
        × (n.session.submitted ≡ (
            if m.session.dirty
            then position_at m.session.candidate_cfi (m.now + delay) ∷ m.session.submitted
            else m.session.submitted))
        × ((live later n).session ≡ n.session)
disposed_session_is_final cfi visible opened_at events delay later o =
    let m = live events (opened cfi visible opened_at) in
    let v =
      pass-Inv delay m.now m.watched m.session
        (live-IsSound events _ (opened-IsSound cfi visible opened_at)) in
    let (disposed, clean, sent) = dispose_lem (m.now + delay) _ m.session v o in
    unfold after step in
    (clean, sent, live_disposed later _ (step-Inv disposal (m.now + delay) _ m.session v) disposed)
