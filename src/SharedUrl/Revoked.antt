-- ===== src/SharedUrl/Revoked.antt =====
-- worker/sharedUrlEndpoint.ts after worker/sharesEndpoint.ts: a revoked share is redeemed no more.
use txt.Prelude.{
  Bool, ℕ, ◌≡◌, refl, sym, subst, ◌∙◌, ap, ◌⊎◌, inl, inr, Option, none, some, List, Text, Bytes,
  true, utf8,
}
use txt.Base64.{base64_decode}
use txt.Json.{Number, Fields}
use txt.Errors.{Try, value, raise}
use txt.Effects.{World, Returns, run, Program, returns, ◌>>=◌, ◌>>◌, catch}
use txt.Effects.Runs.{Returns-map}
use txt.Http.{Response, Env}
use txt.Platform.{Platform}
use txt.ShareGrant.{open_grant}
use txt.Database.{Share, is_active}
use txt.Database.Shares.{select_active_share}
use txt.Database.Ownership.{IsOwned}
use txt.Shares.{ShareBody, parse_share_body, target_of, same_material, handle_delete_shares}
use txt.Shares.Revocation.{row_of, active_row, Revoked, handle_delete_shares-Revoked}
use txt.SharedUrl.{
  Redemption, parse_redemption, handle_post_shared_url, redeem, recover, resolve_object_path,
  require_path, opened_path, require_active_share, require_match, malformed_capability, not_active,
}

-- Refused: the status is 400 or 404, and nothing changes.
abbrev pub Refused : World → Response → World → Type 0
Refused w response after = ((response.status ≡ 400) ⊎ (response.status ≡ 404)) × (after ≡ w)

module _ (platform : Platform) (env : Env) where
  opened_path-cases :
      (key : Option Bytes) (r : Redemption)
      → (opened_path platform key r ≡ raise malformed_capability)
        ⊎ ((path : Text) × (opened_path platform key r ≡ value path))
  unfolding opened_path
  opened_path-cases none r = inl refl
  opened_path-cases (some key) r =
      opened (open_grant platform r.grant_bytes (platform.sha256 r.share_id) key) refl
    where
      opened :
          (t : Try Text)
          → open_grant platform r.grant_bytes (platform.sha256 r.share_id) key ≡ t
          → (opened_path platform (some key) r ≡ raise malformed_capability)
            ⊎ ((path : Text) × (opened_path platform (some key) r ≡ value path))
      opened (value path) e = inr (path, rw (opened_path, e) refl)
      opened (raise error) e = inl (rw (opened_path, e) refl)

  require_match-Refused :
      (w : World) (found : Option Share) (hash : Bytes) (path : Text)
      (next : Text → Program Response)
      → found ≡ none
      → Returns
          (Refused w)
          (run (catch ((require_match found hash >> returns path) >>= next) recover) w)
  unfolding require_match recover not_active
  require_match-Refused w found hash path next e = rw e (inr refl, refl)

  require_path-Refused :
      (hash : Bytes) (w : World) (opened : Try Text) (next : Text → Program Response)
      → (opened ≡ raise malformed_capability) ⊎ ((path : Text) × (opened ≡ value path))
      → active_row hash w ≡ none
      → Returns (Refused w) (run (catch (require_path platform hash opened >>= next) recover) w)
  unfolding require_path require_active_share select_active_share require_match recover
      malformed_capability not_active
  require_path-Refused hash w opened next (inl e) dead = rw e (inl refl, refl)
  require_path-Refused hash w opened next (inr (path, e)) dead =
      rw e
        (require_match-Refused w (active_row hash w) (platform.sha256 (utf8 path)) path next dead)

  -- Every well-formed redemption of a share that has no active row is refused with 400 or 404, and
  -- changes nothing.
  handle_post_shared_url-Refused :
      (declared : Number) (chunks : List Bytes) (now : ℕ) (r : Redemption) (w : World)
      → parse_redemption platform declared chunks ≡ value r
      → active_row (platform.sha256 r.share_id) w ≡ none
      → Returns (Refused w) (run (handle_post_shared_url platform env declared chunks now) w)
  unfolding handle_post_shared_url redeem resolve_object_path
  handle_post_shared_url-Refused declared chunks now r w e dead =
      subst (λ p. Returns (Refused w) (run (catch (redeem platform env now p) recover) w)) (sym e)
        (require_path-Refused (platform.sha256 r.share_id) w
          (opened_path platform (base64_decode env.share_grant_key) r) _
          (opened_path-cases (base64_decode env.share_grant_key) r) dead)

-- After every well-formed DELETE of an active share, whether or not its object could be deleted, any
-- redemption of the share's capability that is well-formed is refused with 400 or 404.
pub handle_delete_shares-Refused :
    (platform : Platform) (env : Env) (r2_delete : Text → List Text → Bool × List Text)
    (db_prefix : Text) (body : Fields) (share : ShareBody) (row : Share) (declared : Number)
    (chunks : List Bytes) (now : ℕ) (r : Redemption) (w : World)
    → parse_share_body body ≡ some share
    → IsOwned w.db
    → row_of (platform.sha256 share.share_id) w ≡ some row
    → same_material row share.document_id (target_of platform db_prefix share).object_path_hash
      ≡ true
    → is_active row.state ≡ true
    → parse_redemption platform declared chunks ≡ value r
    → r.share_id ≡ share.share_id
    → Returns
        (λ response after.
          ((response.status ≡ 204) ⊎ (response.status ≡ 503))
          × Returns
              (Refused after)
              (run (handle_post_shared_url platform env declared chunks now) after))
        (run (handle_delete_shares platform env r2_delete db_prefix body) w)
unfolding target_of
handle_delete_shares-Refused platform env r2_delete db_prefix body share row declared chunks now r w
      e v found material alive parsed same_id =
    Returns-map _ _ (run (handle_delete_shares platform env r2_delete db_prefix body) w)
      (λ response after revoked. (
        statuses response after revoked,
        handle_post_shared_url-Refused platform env declared chunks now r after parsed
            (ap (λ id. active_row (platform.sha256 id) after) same_id ∙ revoked.0),
      ))
      (handle_delete_shares-Revoked platform env r2_delete db_prefix body share row w e v found
        material alive)
  where
    statuses :
        (response : Response) (after : World)
        → Revoked
            (r2_delete (target_of platform db_prefix share).object_path)
            (target_of platform db_prefix share)
            w
            response
            after
        → (response.status ≡ 204) ⊎ (response.status ≡ 503)
    statuses response after (dead, owned, inl done) = inl done.0
    statuses response after (dead, owned, inr kept) = inr kept.0
