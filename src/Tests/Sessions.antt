-- ===== src/Tests/Sessions.antt =====
-- Tests of the reading session, the retries and the renewal of credentials.
use txt.Prelude.{
  ℕ, suc, ◌+◌, ◌≤◌, ◌≢◌, ◌≡◌, refl, true, false, some, List, [], ◌∷◌, Text, codes, same, ltb,
  if◌then◌else◌, if_cases,
}
use txt.Browser.Failures
use txt.Browser.Failures.{
  Settled, fulfilled, rejected, Failure, timed_out, is_network_error, r2_authorization, Class,
}
use txt.Browser.Network.{
  Operation, with_network_retries, attempts_from, with_network_timeout, unless_final,
}
use txt.Browser.Network.Retrying.{
  IsEndedBy, with_network_retries-IsEndedBy, with_network_retries-elapsed,
}
use txt.Browser.Fetching.{Fetched, fetch_same_origin, own_response}
use txt.Browser.Fetching.Once.{mutation_is_sent_once, fetch_same_origin-access_required}
use txt.Browser.R2Session.{
  R2Session, R2CredentialSet, R2TempCredential, R2Client, for_documents, session_of, client_of,
  client, renews, with_credential,
}
use txt.Browser.R2Session.Renewal.{IsTried, IsFulfilled, IsServed, with_credential-IsServed}
use txt.Browser.ReadingSession.{
  new_session, start, arm_grace, grace_fires, qualify, dispatch, relocate, mark_dirty, same_cfi,
}
use txt.Browser.ReadingSession.Trace.{
  Event, relocated, visibility, disposal, retried, grace_due, debounce_due, throttle_due, live,
  after, step, opened,
}
use txt.Browser.ReadingSession.Invariant.{IsHistory}
use txt.Browser.ReadingSession.Saves.{
  position_at, submits_after_grace, unsaved_position_is_submitted,
}
use txt.Browser.ReadingSession.Pauses.{IsSpaced, submissions-IsSpaced, disposed_session_is_final}

-- The book is read for six seconds, and a page is turned.
abbrev turned : List (ℕ × Event)
turned = (6000, grace_due) ∷ (100, relocated (codes "b") true) ∷ []

-- The same, with the page hidden for a while and shown again.
abbrev glanced : List (ℕ × Event)
glanced = (1000, visibility false) ∷ (500, visibility true) ∷ (5000, grace_due) ∷ []

submits_after_grace_example :
    let m = live glanced (opened (some (codes "a")) true 0) in
    IsHistory m.session.submitted × (m.session.submitted ≢ [] → 6000 ≤ m.watched)
submits_after_grace_example = submits_after_grace (some (codes "a")) true 0 glanced

unsaved_position_is_submitted_example :
    let m = live turned (opened (some (codes "a")) true 0) in
    let n = live ((2000, debounce_due) ∷ (15000, throttle_due) ∷ []) m in
    (n.session.dirty ≡ false)
    × (at : ℕ) × (at ≤ m.now + 2000 + 15000)
    × (n.session.submitted ≡ position_at m.session.candidate_cfi at ∷ m.session.submitted)
unfolding live after step opened start new_session arm_grace grace_fires qualify dispatch relocate
    mark_dirty same_cfi same
unsaved_position_is_submitted_example =
    unsaved_position_is_submitted (some (codes "a")) true 0 turned refl refl

abbrev saved_twice : List (ℕ × Event)
saved_twice =
    (6000, grace_due)
    ∷ (100, relocated (codes "b") true)
    ∷ (2000, debounce_due)
    ∷ (13000, throttle_due)
    ∷ []

submissions-IsSpaced_example :
    IsSpaced (live saved_twice (opened (some (codes "a")) true 0)).session.submitted
submissions-IsSpaced_example =
    submissions-IsSpaced (some (codes "a")) true 0 saved_twice (tt, (tt, (tt, (tt, tt))))

disposed_session_is_final_example :
    let m = live turned (opened (some (codes "a")) true 0) in
    let n = after 50 disposal m in
    (n.session.dirty ≡ false)
    × (n.session.submitted ≡ (
        if m.session.dirty
        then position_at m.session.candidate_cfi (m.now + 50) ∷ m.session.submitted
        else m.session.submitted))
    × ((live ((2000, debounce_due) ∷ (1, retried) ∷ []) n).session ≡ n.session)
unfolding live after step opened start new_session arm_grace grace_fires qualify dispatch relocate
    mark_dirty same_cfi same
disposed_session_is_final_example =
    disposed_session_is_final (some (codes "a")) true 0 turned 50
      ((2000, debounce_due) ∷ (1, retried) ∷ []) refl

-- A page that is hidden when the grace period is just over never qualifies: the timer is cleared with
-- nothing left of the period, and no timer is set again.
never_qualified :
    (live
      ((6000, visibility false) ∷ (500, visibility true) ∷ (60000, grace_due) ∷ [])
      (opened (some (codes "a")) true 0)).session.qualified
    ≡ false
unfolding live after step opened start new_session arm_grace grace_fires qualify dispatch
never_qualified = refl

-- A request that fails twice by the network.
abbrev flaky : Operation ℕ ℕ
flaky n = record {
  settled = if ltb n 2 then rejected timed_out else fulfilled 5;
  state = suc n;
  elapsed = 40;
}

with_network_retries-IsEndedBy_example :
    (n : ℕ) × IsEndedBy flaky 3 n 0 (with_network_retries flaky 0)
with_network_retries-IsEndedBy_example = with_network_retries-IsEndedBy flaky 0

with_network_retries-elapsed_example : (with_network_retries flaky 0).elapsed ≤ 41750
with_network_retries-elapsed_example = with_network_retries-elapsed flaky 0

-- A request that fails.
abbrev unreachable : Operation ℕ Fetched
unreachable n = record { settled = rejected timed_out; state = suc n; elapsed = 40 }

mutation_is_sent_once_example : (fetch_same_origin unreachable false 0).state ≡ 1
mutation_is_sent_once_example = mutation_is_sent_once unreachable 0

unreachable_fails :
    (fetch_same_origin unreachable false 0).settled ≡ rejected Failures.access_is_required
unfolding fetch_same_origin with_network_timeout own_response
unreachable_fails = refl

fetch_same_origin-access_required_example :
    Failures.access_is_required.class ≡ Failures.access_required
fetch_same_origin-access_required_example =
    fetch_same_origin-access_required unreachable false 0 Failures.access_is_required
      unreachable_fails

abbrev credential : Text → R2TempCredential
credential id = record {
  access_key_id = id;
  secret_access_key = codes "s";
  session_token = codes "t";
}

abbrev credentials : Text → R2CredentialSet
credentials id = record {
  endpoint = codes "https://r2";
  bucket = codes "b";
  expires_at = 100;
  documents = credential id;
  catalog = credential id;
}

-- The bucket knows the new credential only.
abbrev refused : Failure
refused = record { class = r2_authorization; name = codes "Error"; message = codes "R2" }

abbrev object : R2Client → Operation ℕ ℕ
object c n = record {
  settled = if same c.credential.access_key_id (codes "new") then fulfilled 5 else rejected refused;
  state = suc n;
  elapsed = 10;
}

abbrev fetch_new : Operation ℕ R2CredentialSet
fetch_new n = record { settled = fulfilled (credentials (codes "new")); state = n; elapsed = 20 }

fetched :
    (n : ℕ) → (with_network_retries fetch_new n).settled ≡ fulfilled (credentials (codes "new"))
unfolding with_network_retries attempts_from with_network_timeout unless_final
fetched n = refl

served :
    (n : ℕ)
    → IsFulfilled
        (λ a. a ≡ 5)
        (object (client for_documents (session_of (credentials (codes "new")))) n).settled
unfolding client session_of client_of same
served n = refl

tried : (c : R2Client) (n : ℕ) → IsTried (λ a. a ≡ 5) (object c n).settled
unfolding renews
tried c n =
    if_cases (IsTried (λ a. a ≡ 5)) (same c.credential.access_key_id (codes "new")) (λ _. refl)
      (λ _. refl)

abbrev old_session : R2Session
old_session = session_of (credentials (codes "old"))

with_credential-IsServed_example :
    let call = with_credential fetch_new for_documents object 1000 old_session 0 in
    IsFulfilled (λ a. a ≡ 5) call.settled
    × IsServed fetch_new
        (credentials (codes "new"))
        fetched
        for_documents
        object
        (λ a. a ≡ 5)
        served
        tried
        1000
        old_session
        0
        call
with_credential-IsServed_example =
    with_credential-IsServed fetch_new (credentials (codes "new")) fetched for_documents object
      (λ a. a ≡ 5) served tried 1000 old_session 0
