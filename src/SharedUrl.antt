-- ===== src/SharedUrl.antt =====
-- worker/sharedUrlEndpoint.ts: the redemption of a share's capability, open to everyone.
pub mod Reading
pub mod Bounds
pub mod Revoked
use txt.Prelude.{
  ℕ, suc, ◌+◌, ◌*◌, ◌/◌, ◌==◌, ltb, not, Bool, true, false, ◌&&◌, ◌||◌, Option, none, some, List,
  [], ◌∷◌, ◌++◌, Text, Bytes, codes, utf8, length, if◌then◌else◌,
}
use txt.Base64.{base64_decode, base64_url_decode, concat}
use txt.Json.{
  ℤ, pos, Number, int, Value, str, obj, Fields, end, entry, nat, field, as_object, as_string,
  exceeds,
}
use txt.Errors.{Error, plain, redemption, error_message, Try, value, raise, require, or_raise}
use txt.Errors
use txt.Database.{Share}
use txt.Database.Shares.{select_active_share}
use txt.Effects.{Program, returns, throws, ◌>>=◌, ◌>>◌, query, catch}
use txt.Http.{Response, respond, respond_json, Env, require_var}
use txt.Http
use txt.Platform.{Platform}
use txt.R2Credentials.{MintCredential, create_mint_credential, object_read_only, TempR2Credential}
use txt.ShareGrant.{share_id_len, open_grant}
use txt.Shares.{same_base64}

abbrev pub presign_ttl_seconds : ℕ
presign_ttl_seconds = 60

abbrev pub max_grant_len : ℕ
max_grant_len = 512

-- Math.ceil((n * 4) / 3).
abbrev pub max_grant_b64_len : ℕ
max_grant_b64_len = (max_grant_len * 4 + 2) / 3

abbrev pub share_id_b64_len : ℕ
share_id_b64_len = (share_id_len * 4 + 2) / 3

abbrev pub max_body_bytes : ℕ
max_body_bytes = 1024

pub record Redemption : Type 0 where
  pub share_id : Bytes
  pub grant_bytes : Bytes

pub too_large : Error
too_large = redemption 413 (codes "request body too large")

malformed_capability : Error
malformed_capability = redemption 400 (codes "malformed capability or grant")

-- The loop over the chunks, with the chunks read so far and their length.
unfoldable pub read_chunks : ℕ → List Bytes → ℕ → List Bytes → Try (List Bytes)
unfolding too_large
read_chunks max_bytes [] total chunks = value chunks
read_chunks max_bytes (chunk ∷ more) total chunks =
    let rest = read_chunks max_bytes more (total + length chunk) (chunks ++ chunk ∷ []) in
    if ltb max_bytes (total + length chunk) then raise too_large else rest

-- `declared` is `Number(Content-Length ?? 0)`; the result is before its decoding.
unfoldable pub read_bounded_body : ℕ → Number → List Bytes → Try Bytes
unfolding read_chunks too_large
read_bounded_body max_bytes declared body =
    if exceeds declared max_bytes
    then raise too_large
    else Errors.◌>>=◌ (read_chunks max_bytes body 0 []) (λ chunks. value (concat chunks))

decoded : Option Bytes → Option Bytes → Try Redemption
unfolding malformed_capability
decoded (some id) (some grant) = value (record { share_id = id; grant_bytes = grant })
decoded _ _ = raise malformed_capability

check_lengths : Redemption → Try Redemption
unfolding malformed_capability
check_lengths r =
    if not (length r.share_id == share_id_len) || ltb max_grant_len (length r.grant_bytes)
    then raise malformed_capability
    else value r

unfoldable pub decode_redemption : Text → Text → Try Redemption
unfolding decoded check_lengths malformed_capability
decode_redemption share_id_b64 grant_b64 =
    if not (length share_id_b64 == share_id_b64_len) || ltb max_grant_b64_len (length grant_b64)
    then raise malformed_capability
    else Errors.◌>>=◌ (decoded (base64_url_decode share_id_b64) (base64_url_decode grant_b64))
        check_lengths

lift : {A : Type 0} → Try A → Program A
lift (value a) = returns a
lift (raise e) = throws e

recover : Error → Program Response
recover (redemption status message) = returns (respond message status)
recover error = throws error

not_active : Error
not_active = redemption 404 (codes "no active share for this capability")

require_match : Option Share → Bytes → Program (Unit {0})
unfolding not_active
require_match none path_hash = throws not_active
require_match (some row) path_hash =
    if same_base64 row.object_path_hash path_hash then returns tt else throws not_active

module _ (platform : Platform) where
  parse_json_object : Bytes → Try Fields
  parse_json_object body =
      let malformed = redemption 400 (codes "malformed request body") in
      Errors.◌>>=◌ (or_raise (platform.json_parse (platform.text_decode body)) malformed)
        λ parsed. or_raise (as_object (some parsed)) malformed

  unfoldable pub parse_redemption : Number → List Bytes → Try Redemption
  unfolding parse_json_object
  parse_redemption declared chunks =
      let missing = redemption 400 (codes "missing share_id or grant") in
      Errors.◌>>=◌ (read_bounded_body max_body_bytes declared chunks) λ bytes.
        Errors.◌>>=◌ (parse_json_object bytes) λ body.
          Errors.◌>>=◌ (or_raise (as_string (field "share_id" body)) missing) λ share_id.
            Errors.◌>>=◌ (or_raise (as_string (field "grant" body)) missing)
              λ grant. decode_redemption share_id grant

  unfoldable pub require_active_share : Bytes → Text → Program (Unit {0})
  unfolding require_match
  require_active_share hash path =
      query (select_active_share hash) >>= λ row. require_match row (platform.sha256 (utf8 path))

  -- Every exception inside the `try` is the one 400, a bad SHARE_GRANT_KEY included.
  opened_path : Option Bytes → Redemption → Try Text
  unfolding malformed_capability
  opened_path none r = raise malformed_capability
  opened_path (some key) r =
      elim (open_grant platform r.grant_bytes (platform.sha256 r.share_id) key) [
        | value path ↦ value path
        | raise e ↦ raise malformed_capability
      ]

  require_path : Bytes → Try Text → Program Text
  unfolding require_active_share
  require_path hash (raise e) = throws e
  require_path hash (value path) = require_active_share hash path >> returns path

  unfoldable pub resolve_object_path : Env → Redemption → Program Text
  unfolding opened_path require_path
  resolve_object_path env r =
      require_path (platform.sha256 r.share_id) (opened_path (base64_decode env.share_grant_key) r)

  mint_object_credential : Env → Text → Program TempR2Credential
  mint_object_credential env path =
      catch
        (create_mint_credential platform env object_read_only
          (record { prefixes = none; objects = some (path ∷ []) }) presign_ttl_seconds)
        (λ error. throws (redemption 500 (codes "failed to mint R2 credential")))

  unfoldable pub presign_object_get : Env → Text → Program Text
  unfolding mint_object_credential
  presign_object_get env path = do
    credential ← mint_object_credential env path
    account_id ← require_var env.cf_account_id (codes "CF_ACCOUNT_ID")
    bucket ← require_var env.bucket_name (codes "BUCKET_NAME")
    returns (
        platform.aws_presign credential.access_key_id credential.secret_access_key
          credential.session_token
          (codes "https://"
            ++ account_id
            ++ codes ".r2.cloudflarestorage.com/"
            ++ bucket
            ++ codes "/"
            ++ path)
          presign_ttl_seconds)

  redeem : Env → ℕ → Try Redemption → Program Response
  unfolding resolve_object_path
  redeem env now (raise e) = throws e
  redeem env now (value r) = do
    path ← resolve_object_path env r
    url ← presign_object_get env path
    returns (record {
      status = 200;
      headers = (codes "Cache-Control", codes "no-store") ∷ [];
      body =
          Http.json (
            obj (entry "url" (str url) (entry "expires_at" (nat (now + presign_ttl_seconds)) end)));
    })

  -- `declared` is the number of the Content-Length header, `now` the clock in seconds.
  unfoldable pub handle_post_shared_url : Env → Number → List Bytes → ℕ → Program Response
  unfolding redeem parse_redemption recover
  handle_post_shared_url env declared chunks now =
      catch (redeem env now (parse_redemption declared chunks)) recover
