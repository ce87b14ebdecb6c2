-- ===== src/Browser/Fetching/Once.antt =====
-- A mutation is sent once, and a failed one reads as a missing login.
use txt.Prelude.{◌≡◌, true, false, Bool, arith}
use txt.Browser.Failures.{Settled, fulfilled, rejected, Failure, access_required}
use txt.Browser.Network.{Operation, with_network_timeout, with_network_retries}
use txt.Browser.Fetching.{Fetched, fetch_same_origin, own_response}

-- Whatever becomes of a request that is not to be retried, the state is the one after a single run of
-- it: nothing is sent twice.
pub mutation_is_sent_once :
    {S : Type 0} (request : Operation S Fetched) (s : S)
    → (fetch_same_origin request false s).state ≡ (request s).state
unfolding fetch_same_origin with_network_timeout
mutation_is_sent_once request s = ground arith

own_response-access_required :
    (r : Settled Fetched) (e : Failure) → own_response r ≡ rejected e → e.class ≡ access_required
unfolding own_response
own_response-access_required (fulfilled response) e h = ground arith
own_response-access_required (rejected x) e h = ground arith

-- The only failure of a request, retried or not, is that a login is required.
pub fetch_same_origin-access_required :
    {S : Type 0} (request : Operation S Fetched) (retry : Bool) (s : S) (e : Failure)
    → (fetch_same_origin request retry s).settled ≡ rejected e
    → e.class ≡ access_required
unfolding fetch_same_origin
fetch_same_origin-access_required request true s e h =
    own_response-access_required (with_network_retries request s).settled e h
fetch_same_origin-access_required request false s e h =
    own_response-access_required (with_network_timeout request s).settled e h
