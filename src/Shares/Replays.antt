-- ===== src/Shares/Replays.antt =====
-- worker/sharesEndpoint.ts: the registration of a share that is already there.
use txt.Prelude.{
  ℕ, ◌≡◌, refl, sym, subst, ◌⊎◌, inl, inr, Option, none, some, List, [], ◌∷◌, Text, Bytes, Bool,
  true, false, not, ◌&&◌, find, same, Bool-cases, arith, if◌then◌else◌,
}
use txt.Base64.{base64_decode, base64_url_encode}
use txt.Json.{Fields, obj, entry, bool, str, end}
use txt.Effects.{World, Returns, run, returns, ◌>>=◌}
use txt.Http.{Response, Env, accepted, respond_json}
use txt.Platform.{Platform}
use txt.Database.{Share, is_active, active}
use txt.Database.Shares.{find_share, activate, set_state, select_share}
use txt.ShareGrant.{seal_grant}
use txt.Shares.Revocation.{row_of}
use txt.Shares.{
  Registration, Target, same_material, parse_registration, target_of, post_shares,
  handle_post_shares, register_share, respond_to_existing_share, reactivate_if_needed,
  after_registration, grant_response, new_share_fields, active_or_gone, retry_response,
  shared_object_path,
}

-- A row that is not active.
abbrev stale : Bytes → Share → Bool
stale hash s = same s.share_id_hash hash && not (is_active s.state)

-- The world in which the rows of a hash that are not active have become so, and nothing else has changed.
abbrev pub activated_in : Bytes → World → World
activated_in hash w = record w {
  db = record w.db { shares = set_state (stale hash) active w.db.shares };
}

-- After the UPDATE the row of a hash is active.
activated :
    (hash : Bytes) (row : Share) (ss : List Share)
    → find (λ s. same s.share_id_hash hash) ss ≡ some row
    → active_or_gone (find (λ s. same s.share_id_hash hash) (set_state (stale hash) active ss))
      ≡ true
unfolding active_or_gone is_active
activated hash row [] h = cc
activated hash row (s ∷ ss) h = ground (arith, activated hash row ss)

module _ (platform : Platform) (env : Env) where
  -- The response that carries a grant.
  abbrev pub granted : Text → Bytes → Bytes → Bytes → Bytes → Response
  granted path hash key salt nonce = respond_json (
      obj (
        entry "registered" (bool true) (
          entry "grant" (str (base64_url_encode (seal_grant platform path hash key salt nonce)))
            end)))

  grant_response_lem :
      (path : Text) (hash key salt nonce : Bytes)
      → base64_decode env.share_grant_key ≡ some key
      → grant_response platform env path hash salt nonce
        ≡ returns (granted path hash key salt nonce)
  unfolding grant_response
  grant_response_lem path hash key salt nonce e = rw (grant_response, e) refl

  -- What the registration of a share that has a row does.
  abbrev pub Registered : Target → Share → Bytes → Bytes → Bytes → World → Response → World → Type 0
  Registered target row key salt nonce w response after =
      ((same_material row target.document_id target.object_path_hash ≡ false)
        × (response.status ≡ 409)
        × (after ≡ w))
      ⊎ ((same_material row target.document_id target.object_path_hash ≡ true)
          × (response ≡ granted target.object_path target.share_id_hash key salt nonce)
          × (active_or_gone (row_of target.share_id_hash after) ≡ true)
          × (((is_active row.state ≡ true) × (after ≡ w))
              ⊎ ((is_active row.state ≡ false) × (after ≡ activated_in target.share_id_hash w))))

  reactivated :
      (target : Target) (row : Share) (key salt nonce : Bytes) (w : World)
      → base64_decode env.share_grant_key ≡ some key
      → row_of target.share_id_hash w ≡ some row
      → same_material row target.document_id target.object_path_hash ≡ true
      → is_active row.state ≡ false
      → Returns (Registered target row key salt nonce w) (
          run
            ((reactivate_if_needed target.share_id_hash row.state >>= λ live.
                returns (if live then none else some retry_response))
              >>= after_registration platform env target.object_path target.share_id_hash salt
                  nonce)
            w)
  unfolding reactivate_if_needed after_registration activate select_share find_share
  reactivated target row key salt nonce w k found material dead = rw dead (
      finished _ (activated target.share_id_hash row w.db.shares found)
        (activated_in target.share_id_hash w)
        (inr
          (material, refl, activated target.share_id_hash row w.db.shares found, inr (dead, refl))))
    where
      finished :
          (live : Bool)
          → live ≡ true
          → (after : World)
          → Registered target row key salt nonce w
              (granted target.object_path target.share_id_hash key salt nonce)
              after
          → Returns (Registered target row key salt nonce w) (
              run
                (returns (if live then none else some retry_response)
                  >>= after_registration platform env target.object_path target.share_id_hash salt
                      nonce)
                after)
      finished live e after h =
          rw (e, grant_response_lem target.object_path target.share_id_hash key salt nonce k) h

  live_row :
      (target : Target) (row : Share) (key salt nonce : Bytes) (w : World)
      → base64_decode env.share_grant_key ≡ some key
      → row_of target.share_id_hash w ≡ some row
      → same_material row target.document_id target.object_path_hash ≡ true
      → is_active row.state ≡ true
      → Returns (Registered target row key salt nonce w) (
          run
            ((reactivate_if_needed target.share_id_hash row.state >>= λ live.
                returns (if live then none else some retry_response))
              >>= after_registration platform env target.object_path target.share_id_hash salt
                  nonce)
            w)
  unfolding reactivate_if_needed after_registration
  live_row target row key salt nonce w k found material alive = rw alive (
      rw (grant_response_lem target.object_path target.share_id_hash key salt nonce k)
        (inr (material, refl, live_found, inl (alive, refl))))
    where
      live_found : active_or_gone (row_of target.share_id_hash w) ≡ true
      live_found = rw (found, active_or_gone) alive

  existing-Registered :
      (target : Target) (row : Share) (key salt nonce : Bytes) (w : World)
      → base64_decode env.share_grant_key ≡ some key
      → row_of target.share_id_hash w ≡ some row
      → Returns (Registered target row key salt nonce w) (
          run
            (respond_to_existing_share row target.document_id target.object_path_hash
                target.share_id_hash
              >>= after_registration platform env target.object_path target.share_id_hash salt
                  nonce)
            w)
  unfolding respond_to_existing_share after_registration
  existing-Registered target row key salt nonce w k found =
      elim (Bool-cases (same_material row target.document_id target.object_path_hash)) [
        | inr other ↦ rw other (inl (other, refl, refl))
        | inl material ↦ elim (Bool-cases row_live) [
          | inl alive ↦ rw material (live_row target row key salt nonce w k found material alive)
          | inr dead ↦ rw material (reactivated target row key salt nonce w k found material dead)
        ]
      ]
    where
      row_live : Bool
      row_live = is_active row.state

  registered :
      (db_prefix : Text) (r : Registration) (row : Share) (key_now now : ℕ) (key salt nonce : Bytes)
      (w : World) (existing : Option Share)
      → existing ≡ some row
      → base64_decode env.share_grant_key ≡ some key
      → row_of (target_of platform db_prefix r.share).share_id_hash w ≡ some row
      → Returns (Registered (target_of platform db_prefix r.share) row key salt nonce w) (
          run
            (register_share (new_share_fields platform db_prefix r) key_now now existing
              >>= after_registration platform env
                  (shared_object_path db_prefix r.share.share_path)
                  (target_of platform db_prefix r.share).share_id_hash
                  salt
                  nonce)
            w)
  unfolding register_share new_share_fields target_of after_registration
  registered db_prefix r row key_now now key salt nonce w existing e k found =
      rw e (existing-Registered (target_of platform db_prefix r.share) row key salt nonce w k found)

  -- Every well-formed registration of a share whose hash has a row ends in a response. Where the row
  -- is of another document or path, the status is 409 and nothing changes. Otherwise the response
  -- carries a fresh grant and the row is active: nothing changes where it was so before, and else
  -- nothing but the state of the rows of that hash. The key of the grants is valid base64.
  pub handle_post_shares-Registered :
      (db_prefix : Text) (body : Fields) (r : Registration) (row : Share) (key_now now : ℕ)
      (key salt nonce : Bytes) (w : World)
      → parse_registration body ≡ accepted r
      → base64_decode env.share_grant_key ≡ some key
      → row_of (target_of platform db_prefix r.share).share_id_hash w ≡ some row
      → Returns
          (Registered (target_of platform db_prefix r.share) row key salt nonce w)
          (run (handle_post_shares platform env db_prefix body key_now now salt nonce) w)
  unfolding handle_post_shares post_shares select_share find_share new_share_fields target_of
      after_registration
  handle_post_shares-Registered db_prefix body r row key_now now key salt nonce w e k found =
      subst
        (λ p.
          Returns (Registered (target_of platform db_prefix r.share) row key salt nonce w)
            (run (post_shares platform env db_prefix p key_now now salt nonce) w))
        (sym e)
        (registered db_prefix r row key_now now key salt nonce w
          (row_of (target_of platform db_prefix r.share).share_id_hash w) found k found)
