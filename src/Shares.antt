-- ===== src/Shares.antt =====
-- worker/sharesEndpoint.ts: the listing, the registration and the revocation of shares.
pub mod Reading
pub mod Revocation
pub mod Replays
use txt.Prelude.{
  ℕ, ◌==◌, Bool, true, false, not, ◌&&◌, ◌||◌, Option, none, some, List, [], ◌∷◌, ◌++◌, map, Text,
  Bytes, codes, same, utf8, length, if◌then◌else◌,
}
use txt.Base64.{base64_encode, base64_decode, base64_url_encode, base64_url_decode}
use txt.Json.{
  ℤ, Value, str, bool, arr, obj, Fields, end, entry, nat, field, as_string, as_integer, items_of,
  eq_int,
}
use txt.Errors.{Error, plain, is_foreign_key_violation, is_unique_violation}
use txt.Database.{Share, ShareState, creating, active, deleting, is_active, Database, share_key}
use txt.Database.Keys.{insert_key}
use txt.Database.Shares.{
  insert_share, activate, mark_deleting, delete_share, select_share, select_shares,
}
use txt.Effects.{
  World, Statement, then_statement, Program, returns, throws, atomically, ◌>>=◌, ◌>>◌, query, catch,
}
use txt.Http.{
  Response, respond, respond_empty, respond_json, Checked, rejected, accepted, or_reject, Env,
  require_binding,
}
use txt.Http
use txt.Platform.{Platform}
use txt.ShareGrant.{is_valid_share_path, share_id_len, seal_grant}

state_name : ShareState → Text
state_name creating = codes "creating"
state_name active = codes "active"
state_name deleting = codes "deleting"

share_json : Share × Bytes → Value
unfolding state_name
share_json (row, key_wrapped) = obj (
    entry "share_id_hash" (str (base64_encode row.share_id_hash)) (
      entry "document_id" (nat row.document_id) (
        entry "key_wrapped" (str (base64_encode key_wrapped)) (
          entry "owner_blob" (str (base64_encode row.owner_blob)) (
            entry "state" (str (state_name row.state))
              (entry "created_at" (nat row.created_at) end))))))

unfoldable pub handle_get_shares : Program Response
unfolding share_json
handle_get_shares = do
  rows ← query select_shares
  returns (respond_json (obj (entry "shares" (arr (items_of (map share_json rows))) end)))

pub record ShareBody : Type 0 where
  pub document_id : ℤ
  pub share_id : Bytes
  pub share_path : Text

of_length : ℕ → Option Bytes → Option Bytes
of_length n none = none
of_length n (some bytes) = if length bytes == n then some bytes else none

share_body : Option ℤ → Option Text → Option Text → Option ShareBody
unfolding of_length
share_body (some doc) (some id) (some path) =
    if is_valid_share_path path
    then elim (of_length share_id_len (base64_url_decode id)) [
      | none ↦ none
      | some bytes ↦ some (record { document_id = doc; share_id = bytes; share_path = path })
    ]
    else none
share_body _ _ _ = none

unfoldable pub parse_share_body : Fields → Option ShareBody
unfolding share_body
parse_share_body body =
    share_body (as_integer (field "document_id" body)) (as_string (field "share_id" body))
      (as_string (field "share_path" body))

-- `${dbPrefix}/shared/${sharePath}`.
unfoldable pub shared_object_path : Text → Text → Text
shared_object_path db_prefix share_path = db_prefix ++ codes "/shared/" ++ share_path

unfoldable pub same_base64 : Bytes → Bytes → Bool
same_base64 a b = same (base64_encode a) (base64_encode b)

unfoldable pub same_material : Share → ℤ → Bytes → Bool
unfolding same_base64
same_material existing doc path_hash =
    eq_int existing.document_id doc && same_base64 existing.object_path_hash path_hash

pub record NewShareFields : Type 0 where
  pub share_id_hash : Bytes
  pub document_id : ℤ
  pub object_path_hash : Bytes
  pub key_wrapped : Bytes
  pub owner_blob : Bytes

unfoldable pub active_or_gone : Option Share → Bool
active_or_gone none = false
active_or_gone (some s) = is_active s.state

-- `true` is "active" and `false` is "gone".
unfoldable pub reactivate_if_needed : Bytes → ShareState → Program Bool
unfolding active_or_gone
reactivate_if_needed hash state = if is_active state then returns true else (do
  _ ← query (activate hash)
  row ← query (select_share hash)
  returns (active_or_gone row))

retry_response : Response
retry_response = respond (codes "share was concurrently revoked, retry") 409

-- `none` is the `null` that lets the registration go on.
unfoldable pub respond_to_existing_share : Share → ℤ → Bytes → Bytes → Program (Option Response)
unfolding retry_response
respond_to_existing_share existing doc path_hash hash =
    if same_material existing doc path_hash
    then (reactivate_if_needed hash existing.state >>= λ live.
        returns (if live then none else some retry_response))
    else returns (some (respond (codes "share_id reused for different material") 409))

conflict_of : Error → Option Share → NewShareFields → Program (Option Response)
unfolding retry_response
conflict_of error (some existing) fields =
    respond_to_existing_share existing fields.document_id fields.object_path_hash
      fields.share_id_hash
conflict_of error none fields = returns (
    some (
      if is_unique_violation error (some (codes "object_path_hash"))
      then respond (codes "path reused for different material") 409
      else if is_unique_violation error none
      then retry_response
      else respond (codes "invalid document_id") 400))

unfoldable pub response_for_insert_conflict : Error → NewShareFields → Program (Option Response)
unfolding conflict_of
response_for_insert_conflict error fields =
    if is_unique_violation error none || is_foreign_key_violation error
    then (query (select_share fields.share_id_hash) >>= λ existing.
        conflict_of error existing fields)
    else throws error

unfoldable pub insert_share_batch : NewShareFields → ℕ → ℕ → Statement (Unit {0})
insert_share_batch fields key_now now db =
    then_statement (insert_key share_key fields.key_wrapped key_now db) (λ key.
      insert_share fields.share_id_hash fields.document_id fields.object_path_hash key
        fields.owner_blob now)

unfoldable pub insert_new_share : NewShareFields → ℕ → ℕ → Program (Option Response)
insert_new_share fields key_now now =
    catch (query (insert_share_batch fields key_now now) >> returns none)
      (λ error. response_for_insert_conflict error fields)

unfoldable pub register_share : NewShareFields → ℕ → ℕ → Option Share → Program (Option Response)
register_share fields key_now now none = insert_new_share fields key_now now
register_share fields key_now now (some existing) =
    respond_to_existing_share existing fields.document_id fields.object_path_hash
      fields.share_id_hash

-- The body of a POST with its two blobs decoded.
pub record Registration : Type 0 where
  pub share : ShareBody
  pub key_wrapped : Bytes
  pub owner_blob : Bytes

unfoldable pub parse_registration : Fields → Checked Registration
parse_registration body =
    let missing = respond (codes "missing or invalid share fields") 400 in
    let malformed = respond (codes "malformed key_wrapped/owner_blob") 400 in
    Http.◌>>=◌ (or_reject (parse_share_body body) missing) λ share.
      Http.◌>>=◌ (or_reject (as_string (field "key_wrapped" body)) missing) λ key.
        Http.◌>>=◌ (or_reject (as_string (field "owner_blob" body)) missing) λ blob.
          Http.◌>>=◌ (or_reject (base64_decode key) malformed) λ key_wrapped.
            Http.◌>>=◌ (or_reject (base64_decode blob) malformed) λ owner_blob.
              accepted
                (record { share = share; key_wrapped = key_wrapped; owner_blob = owner_blob })

-- Where a share's row and its object stand.
pub record Target : Type 0 where
  pub share_id_hash : Bytes
  pub document_id : ℤ
  pub object_path : Text
  pub object_path_hash : Bytes

delete_row : Bool → Target → Program Response
delete_row false target = returns (respond (codes "R2 deletion failed, retry") 503)
delete_row true target = query (delete_share target.share_id_hash) >> returns (respond_empty 204)

-- `deletes` is the R2 call: whether it succeeds, and the objects that it leaves, which a call that
-- fails may have changed or not.
unfoldable pub remove_object : (List Text → Bool × List Text) → Target → Program Response
unfolding delete_row
remove_object deletes target =
    atomically (λ w. record w { objects = (deletes w.objects).1 })
      (λ w. delete_row (deletes w.objects).0 target)

-- The R2 call inside its `try`: a missing binding is caught too.
unfoldable pub delete_object : Bool → (List Text → Bool × List Text) → Target → Program Response
unfolding remove_object
delete_object has_bucket deletes target =
    if has_bucket
    then remove_object deletes target
    else returns (respond (codes "R2 deletion failed, retry") 503)

unfoldable pub revoke_active : Bool → (List Text → Bool × List Text) → Target → Program Response
unfolding delete_object
revoke_active has_bucket deletes target = do
  changes ← query (mark_deleting target.share_id_hash)
  if changes == 0
      then returns (respond (codes "share is not active") 409)
      else delete_object has_bucket deletes target

unfoldable pub revoke_row :
    Bool → (List Text → Bool × List Text) → Target → Option Share → Program Response
unfolding revoke_active
revoke_row has_bucket deletes target none = returns (respond_empty 204)
revoke_row has_bucket deletes target (some row) =
    if same_material row target.document_id target.object_path_hash
    then if is_active row.state
      then revoke_active has_bucket deletes target
      else returns (respond (codes "share is not active") 409)
    else returns (respond (codes "document_id/share_path does not match this share") 400)

module _ (platform : Platform) where
  unfoldable pub target_of : Text → ShareBody → Target
  target_of db_prefix share =
      let path = shared_object_path db_prefix share.share_path in
      record {
        share_id_hash = platform.sha256 share.share_id;
        document_id = share.document_id;
        object_path = path;
        object_path_hash = platform.sha256 (utf8 path);
      }

  unfoldable pub new_share_fields : Text → Registration → NewShareFields
  unfolding target_of
  new_share_fields db_prefix r =
      let target = target_of db_prefix r.share in
      record {
        share_id_hash = target.share_id_hash;
        document_id = target.document_id;
        object_path_hash = target.object_path_hash;
        key_wrapped = r.key_wrapped;
        owner_blob = r.owner_blob;
      }

  -- `salt` and `nonce` are the random values of the grant.
  grant_response : Env → Text → Bytes → Bytes → Bytes → Program Response
  grant_response env path hash salt nonce = elim (base64_decode env.share_grant_key) [
    | none ↦ throws (plain (codes "InvalidCharacterError"))
    | some key ↦ returns (
        respond_json (
          obj (
            entry "registered" (bool true) (
              entry "grant" (str (base64_url_encode (seal_grant platform path hash key salt nonce)))
                end))))
  ]

  after_registration : Env → Text → Bytes → Bytes → Bytes → Option Response → Program Response
  unfolding grant_response
  after_registration env path hash salt nonce (some conflict) = returns conflict
  after_registration env path hash salt nonce none = grant_response env path hash salt nonce

  post_shares : Env → Text → Checked Registration → ℕ → ℕ → Bytes → Bytes → Program Response
  unfolding after_registration register_share new_share_fields target_of
  post_shares env db_prefix (rejected r) key_now now salt nonce = returns r
  post_shares env db_prefix (accepted r) key_now now salt nonce = do
    let fields = new_share_fields db_prefix r
    existing ← query (select_share fields.share_id_hash)
    conflict ← register_share fields key_now now existing
    after_registration env (shared_object_path db_prefix r.share.share_path) fields.share_id_hash
        salt nonce conflict

  unfoldable pub handle_post_shares : Env → Text → Fields → ℕ → ℕ → Bytes → Bytes → Program Response
  unfolding post_shares parse_registration
  handle_post_shares env db_prefix body key_now now salt nonce =
      post_shares env db_prefix (parse_registration body) key_now now salt nonce

  delete_shares :
      Env → (Text → List Text → Bool × List Text) → Text → Option ShareBody → Program Response
  unfolding revoke_row target_of
  delete_shares env r2_delete db_prefix none =
      returns (respond (codes "missing or invalid share fields") 400)
  delete_shares env r2_delete db_prefix (some share) = do
    let target = target_of db_prefix share
    row ← query (select_share target.share_id_hash)
    revoke_row env.has_bucket (r2_delete target.object_path) target row

  -- `r2_delete` is `BUCKET.delete(path)`: the objects after it, `none` where it fails.
  unfoldable pub handle_delete_shares :
      Env → (Text → List Text → Bool × List Text) → Text → Fields → Program Response
  unfolding delete_shares parse_share_body
  handle_delete_shares env r2_delete db_prefix body =
      delete_shares env r2_delete db_prefix (parse_share_body body)
