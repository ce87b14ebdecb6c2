-- ===== src/Browser/Fetching.antt =====
-- ui/src/data/apiClient.ts, how it sends a request: reads are retried, a mutation is sent once, and the
-- login challenge of Cloudflare Access is told from the worker's own answers. ui/src/data/r2.ts, the
-- operations on the bucket, sends its requests the same way.
pub mod Once
use txt.Prelude.{
  ℕ, Bool, true, false, not, ◌&&◌, ◌||◌, Option, none, some, [], ◌∷◌, ◌++◌, Text, Bytes, codes,
  includes, leb, ◌==◌, if◌then◌else◌,
}
use txt.Json.{Value}
use txt.Browser.Failures.{
  Class, Settled, fulfilled, rejected, Failure, error, access_is_required, r2_authorization,
  r2_conflict, ◌>>=◌,
}
use txt.Browser.Network.{Answer, Operation, with_network_timeout, with_network_retries}

-- A response of `fetch`. `same_origin` compares its final URL with the page's; `json` is its body as
-- JSON, where `none` is the exception.
pub record Fetched : Type 0 where
  pub status : ℕ
  pub content_type : Option Text
  pub redirected : Bool
  pub same_origin : Bool
  pub json : Option Value
  pub bytes : Bytes

-- `response.ok`.
unfoldable pub is_ok : Fetched → Bool
is_ok response = leb 200 response.status && leb response.status 299

says_json : Option Text → Bool
unfolding includes
says_json none = false
says_json (some content_type) = includes content_type (codes "application/json")

unfoldable pub is_access_challenge : Fetched → Bool
unfolding says_json
is_access_challenge response =
    not (says_json response.content_type) && (response.redirected || not response.same_origin)

unfoldable pub own_response : Settled Fetched → Settled Fetched
unfolding is_access_challenge
own_response (rejected e) = rejected access_is_required
own_response (fulfilled response) =
    if is_access_challenge response then rejected access_is_required else fulfilled response

unfoldable pub fetch_same_origin : {S : Type 0} → Operation S Fetched → Bool → Operation S Fetched
unfolding own_response with_network_timeout with_network_retries
fetch_same_origin request retry s =
    let answer = if retry then with_network_retries request s else with_network_timeout request s in
    record { settled = own_response answer.settled; state = answer.state; elapsed = answer.elapsed }

-- `requireOk`, without the status in the message.
unfoldable pub require_ok : Text → Fetched → Settled Fetched
unfolding is_ok
require_ok label response =
    if is_ok response then fulfilled response else rejected (error (codes "could not " ++ label))

unfoldable pub body_of : Fetched → Settled Value
body_of response = elim response.json [
  | none ↦ rejected (error (codes "SyntaxError"))
  | some v ↦ fulfilled v
]

-- R2Client.requireSuccess.
unfoldable pub require_success : Text → Fetched → Settled Fetched
unfolding is_ok
require_success operation response =
    if response.status == 401 || response.status == 403
    then rejected (record {
      class = r2_authorization;
      name = codes "Error";
      message = operation ++ codes " authorization failed";
    })
    else if is_ok response
    then fulfilled response
    else rejected (error (operation ++ codes " failed"))

-- The retried part of R2Client.getObject, given the signed request's outcome.
unfoldable pub object_of : Text → Settled Fetched → Settled (Option Bytes)
unfolding require_success
object_of operation (rejected e) = rejected e
object_of operation (fulfilled response) =
    if response.status == 404
    then fulfilled none
    else require_success operation response >>= λ r. fulfilled (some r.bytes)

unfoldable pub get_object : {S : Type 0} → Operation S Fetched → Text → Operation S (Option Bytes)
unfolding object_of with_network_retries
get_object request key = with_network_retries λ s.
    let answer = request s in
    record {
      settled = object_of (codes "R2 GET " ++ key) answer.settled;
      state = answer.state;
      elapsed = answer.elapsed;
    }

unfoldable pub stored : Text → Settled Fetched → Settled (Unit {0})
unfolding require_success
stored operation (rejected e) = rejected e
stored operation (fulfilled response) =
    if response.status == 412
    then rejected (record {
      class = r2_conflict;
      name = codes "Error";
      message = operation ++ codes " exists";
    })
    else require_success operation response >>= λ r. fulfilled tt

unfoldable pub put_immutable : {S : Type 0} → Operation S Fetched → Text → Operation S (Unit {0})
unfolding stored with_network_retries
put_immutable request key s =
    let answer = with_network_retries request s in
    record {
      settled = stored (codes "R2 PUT " ++ key) answer.settled;
      state = answer.state;
      elapsed = answer.elapsed;
    }
