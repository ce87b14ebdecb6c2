-- ===== src/Browser/R2Session/Renewal.antt =====
-- A credential that the bucket refuses is renewed.
use txt.Prelude.{ℕ, ◌≡◌, refl, true, false, ltb, Bool-cases, inl, inr, ◌+◌}
use txt.Browser.Failures.{Settled, fulfilled, rejected, Failure}
use txt.Browser.Network.{Answer, Operation, with_network_retries}
use txt.Browser.R2Session.{
  R2CredentialSet, R2Session, R2Client, CredentialType, client, session_of, Called, renews,
  refreshed, refresh, refresh_if_needed, operated, after_refresh, renewed, first_run,
  with_credential, expiry_skew_ms,
}

-- The operation is done, or fails in a way that a renewal may cure.
abbrev pub IsTried : {A : Type 0} → (A → Type 0) → Settled A → Type 0
IsTried IsDone (fulfilled a) = IsDone a
IsTried IsDone (rejected e) = renews e ≡ true

abbrev pub IsFulfilled : {A : Type 0} → (A → Type 0) → Settled A → Type 0
IsFulfilled IsDone (fulfilled a) = IsDone a
IsFulfilled IsDone (rejected e) = ⊥

module _ {S A : Type 0} (fetch_credentials : Operation S R2CredentialSet) (set : R2CredentialSet)
    (fetched : (s : S) → (with_network_retries fetch_credentials s).settled ≡ fulfilled set)
    (type : CredentialType) (operation : R2Client → Operation S A) (IsDone : A → Type 0)
    (served : (s : S) → IsFulfilled IsDone (operation (client type (session_of set)) s).settled)
    (tried : (c : R2Client) (s : S) → IsTried IsDone (operation c s).settled) where
  -- What is left of a call by an answer of the bucket.
  abbrev pub left_by : Answer S A → R2Session → Called S A
  left_by answer session = record {
    settled = answer.settled;
    state = answer.state;
    session = session;
  }

  -- The operation with the session's own credential.
  abbrev pub own_answer : R2Session → S → Answer S A
  own_answer session s = operation (client type session) s

  -- One request of new credentials and then the operation with them.
  abbrev pub renewed_call : S → Called S A
  renewed_call s =
      left_by
        (operation (client type (session_of set)) (with_network_retries fetch_credentials s).state)
        (session_of set)

  -- The three ways of a call: with the session's own credential, with one renewal before it, or with one
  -- after the session's own credential was refused.
  pub data IsServed (now : ℕ) (session : R2Session) (s : S) : Called S A → Type 0 where
    at_once :
        ltb (now + expiry_skew_ms) session.expires_at ≡ true
        → IsServed now session s (left_by (own_answer session s) session)
    renewed_first :
        ltb (now + expiry_skew_ms) session.expires_at ≡ false
        → IsServed now session s (renewed_call s)
    renewed_after :
        (e : Failure)
        → ltb (now + expiry_skew_ms) session.expires_at ≡ true
        → (own_answer session s).settled ≡ rejected e
        → renews e ≡ true
        → IsServed now session s (renewed_call (own_answer session s).state)

  refreshed_lem :
      (session : R2Session) (s : S)
      → refresh fetch_credentials session s ≡ record {
        settled = fulfilled tt;
        state = (with_network_retries fetch_credentials s).state;
        session = session_of set;
      }
  unfolding refresh refreshed
  refreshed_lem session s = rw (fetched s) refl

  -- An operation that is done is not run again.
  kept :
      (result : Settled A) (first : Called S A) (now : ℕ)
      → IsFulfilled IsDone result
      → renewed fetch_credentials type operation result first now ≡ first
  unfolding renewed
  kept (fulfilled a) first now h = refl
  kept (rejected e) first now h = absurd h

  IsServed-first :
      (now : ℕ) (session : R2Session) (s : S) (result : Settled A)
      → ltb (now + expiry_skew_ms) session.expires_at ≡ true
      → (own_answer session s).settled ≡ result
      → IsTried IsDone result
      → let call =
          renewed fetch_credentials type operation result
            (left_by (own_answer session s) session)
            now in
        IsFulfilled IsDone call.settled × IsServed now session s call
  unfolding renewed refresh_if_needed after_refresh operated
  IsServed-first now session s (fulfilled a) fresh e h = (rw e h, at_once fresh)
  IsServed-first now session s (rejected x) fresh e h =
      rw (h, refreshed_lem session (own_answer session s).state)
        (served _, renewed_after x fresh e h)

  -- Where the worker gives a set of credentials with which the bucket serves the operation, a call is
  -- served whatever the session's credentials are and however long they last, if with any credential the
  -- operation is done or fails as unauthorized or by the network. The worker is asked for credentials at
  -- most once: not at all, once before the operation where the session's credentials end within the
  -- minute, or once after it failed with them.
  pub with_credential-IsServed :
      (now : ℕ) (session : R2Session) (s : S)
      → let call = with_credential fetch_credentials type operation now session s in
        IsFulfilled IsDone call.settled × IsServed now session s call
  unfolding with_credential first_run operated refresh_if_needed
  with_credential-IsServed now session s =
      elim (Bool-cases (ltb (now + expiry_skew_ms) session.expires_at)) [
        | inl fresh ↦ rw fresh (IsServed-first now session s _ fresh refl (tried _ _))
        | inr late ↦
            rw (late, refreshed_lem session s, kept _ _ now (served _))
              (served _, renewed_first late)
      ]
