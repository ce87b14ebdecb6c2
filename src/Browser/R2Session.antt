-- ===== src/Browser/R2Session.antt =====
-- ui/src/data/r2Session.ts: the two temporary credentials of the bucket and their renewal. A session
-- is used by one caller at a time here, so that `refreshInFlight` joins nothing.
pub mod Renewal
use txt.Prelude.{ℕ, ◌+◌, ◌*◌, Bool, true, false, not, ◌&&◌, ◌||◌, Text, ltb, if◌then◌else◌}
use txt.Browser.Failures.{
  Class, r2_authorization, Settled, fulfilled, rejected, Failure, is_network_error,
}
use txt.Browser.Network.{Answer, Operation, with_network_retries}

abbrev pub expiry_skew_ms : ℕ
expiry_skew_ms = 60000

pub record R2TempCredential : Type 0 where
  pub access_key_id : Text
  pub secret_access_key : Text
  pub session_token : Text

-- `expires_at` is in whole seconds, as the worker writes it.
pub record R2CredentialSet : Type 0 where
  pub endpoint : Text
  pub bucket : Text
  pub expires_at : ℕ
  pub documents : R2TempCredential
  pub catalog : R2TempCredential

pub data CredentialType : Type 0 where
  for_documents for_catalog : CredentialType

-- An R2Client is its credential, endpoint and bucket.
pub record R2Client : Type 0 where
  pub credential : R2TempCredential
  pub endpoint : Text
  pub bucket : Text

pub record R2Session : Type 0 where
  pub expires_at : ℕ
  pub documents : R2Client
  pub catalog : R2Client

unfoldable pub client_of : R2CredentialSet → R2TempCredential → R2Client
client_of set credential = record {
  credential = credential;
  endpoint = set.endpoint;
  bucket = set.bucket;
}

-- The constructor, and the assignments of `refresh`.
unfoldable pub session_of : R2CredentialSet → R2Session
unfolding client_of
session_of set = record {
  expires_at = set.expires_at * 1000;
  documents = client_of set set.documents;
  catalog = client_of set set.catalog;
}

unfoldable pub client : CredentialType → R2Session → R2Client
client for_documents session = session.documents
client for_catalog session = session.catalog

is_r2_authorization : Class → Bool
is_r2_authorization r2_authorization = true
is_r2_authorization _ = false

unfoldable pub renews : Failure → Bool
unfolding is_r2_authorization
renews e = is_r2_authorization e.class || is_network_error e

-- What a call of the session leaves.
pub record Called (S A : Type 0) : Type 0 where
  pub settled : Settled A
  pub state : S
  pub session : R2Session

module _ {S : Type 0} (fetch_credentials : Operation S R2CredentialSet) where
  refreshed : Settled R2CredentialSet → S → R2Session → Called S (Unit {0})
  refreshed (fulfilled set) s session = record {
    settled = fulfilled tt;
    state = s;
    session = session_of set;
  }
  refreshed (rejected e) s session = record { settled = rejected e; state = s; session = session }

  unfoldable pub refresh : R2Session → S → Called S (Unit {0})
  unfolding refreshed with_network_retries
  refresh session s =
      let answer = with_network_retries fetch_credentials s in
      refreshed answer.settled answer.state session

  -- `now` is in milliseconds.
  unfoldable pub refresh_if_needed : Bool → ℕ → R2Session → S → Called S (Unit {0})
  unfolding refresh
  refresh_if_needed force now session s =
      if not force && ltb (now + expiry_skew_ms) session.expires_at
      then record { settled = fulfilled tt; state = s; session = session }
      else refresh session s

  module _ {A : Type 0} (type : CredentialType) (operation : R2Client → Operation S A) where
    operated : Answer S A → R2Session → Called S A
    operated answer session = record {
      settled = answer.settled;
      state = answer.state;
      session = session;
    }

    -- The operation with the session's client, unless the refresh before it failed.
    after_refresh : Settled (Unit {0}) → Called S (Unit {0}) → Called S A
    unfolding operated client
    after_refresh (rejected e) call = record {
      settled = rejected e;
      state = call.state;
      session = call.session;
    }
    after_refresh (fulfilled _) call =
        operated (operation (client type call.session) call.state) call.session

    -- The `catch` of the first run.
    renewed : Settled A → Called S A → ℕ → Called S A
    unfolding after_refresh refresh_if_needed renews
    renewed (fulfilled a) first now = first
    renewed (rejected e) first now =
        if renews e
        then (let call = refresh_if_needed true now first.session first.state in
            after_refresh call.settled call)
        else first

    first_run : Settled (Unit {0}) → Called S (Unit {0}) → ℕ → Called S A
    unfolding renewed operated client
    first_run (rejected e) call now = record {
      settled = rejected e;
      state = call.state;
      session = call.session;
    }
    first_run (fulfilled _) call now =
        let first = operated (operation (client type call.session) call.state) call.session in
        renewed first.settled first now

    unfoldable pub with_credential : ℕ → R2Session → S → Called S A
    unfolding first_run refresh_if_needed
    with_credential now session s =
        let call = refresh_if_needed false now session s in first_run call.settled call now
