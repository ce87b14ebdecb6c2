-- ===== src/Shares/Revocation.antt =====
-- worker/sharesEndpoint.ts: a revocation, on every branch, and what a redemption finds after it.
use txt.Prelude.{
  ℕ, ◌≡◌, refl, sym, subst, ◌∙◌, ◌⊎◌, inl, inr, Option, none, some, List, Text, Bytes, ◌==◌, Bool,
  true, false, find, same, Bool-cases, if◌then◌else◌, keep, length, codes,
}
use txt.Json.{Fields}
use txt.Effects.{World, Reply, ok, Returns, run, returns, ◌>>=◌, ◌>>◌, commit, answer}
use txt.Effects.Runs.{Returns-map}
use txt.Http.{Response, Env, respond, respond_empty}
use txt.Platform.{Platform}
use txt.Database.{Database, Share, is_active, deleting}
use txt.Database.Shares.{find_share, mark_deleting, delete_share, set_state, select_share}
use txt.Database.Ownership.{IsOwned}
use txt.Database.ShareKeys.{
  live, none-live, live-rows, mark_deleting-IsOwned, mark_deleting_lem, delete_share-cases,
}
use txt.Shares.{
  Target, ShareBody, same_material, remove_object, delete_row, delete_object, revoke_active,
  revoke_row, target_of, delete_shares, handle_delete_shares, parse_share_body,
}

-- The row of a share, and its active row.
abbrev pub row_of : Bytes → World → Option Share
row_of hash w = find (λ s. same s.share_id_hash hash) w.db.shares

abbrev pub active_row : Bytes → World → Option Share
active_row hash w = find (live hash) w.db.shares

-- An active share of the very document and path: it is active no more, and either its object and its
-- row are gone, or the R2 call was not made or failed, and the objects are as that left them.
abbrev pub Revoked : (List Text → Bool × List Text) → Target → World → Response → World → Type 0
Revoked deletes target w response after =
    (active_row target.share_id_hash after ≡ none)
    × IsOwned after.db
    × (((response.status ≡ 204)
          × (row_of target.share_id_hash after ≡ none)
          × (deletes w.objects ≡ (true, after.objects)))
        ⊎ ((response.status ≡ 503)
            × ((after.objects ≡ w.objects) ⊎ (deletes w.objects ≡ (false, after.objects)))))

deleted_row :
    (deletes : List Text → Bool × List Text) (target : Target) (w : World) (db after : Database)
    (objects : List Text) (r : Reply (Unit {0}))
    → r ≡ ok tt after
    → IsOwned after
    → find (λ s. same s.share_id_hash target.share_id_hash) after.shares ≡ none
    → deletes w.objects ≡ (true, objects)
    → Returns (Revoked deletes target w) (
        run
          (answer r >> returns (respond_empty 204))
          (commit (record { db = db; objects = objects }) r))
deleted_row deletes target w db after objects r e v gone d =
    rw e (none-live target.share_id_hash after.shares gone, v, inl (refl, gone, d))

after_object :
    (deletes : List Text → Bool × List Text) (target : Target) (w : World) (db : Database)
    (done : Bool) (objects : List Text)
    → deletes w.objects ≡ (done, objects)
    → IsOwned db
    → find (live target.share_id_hash) db.shares ≡ none
    → Returns
        (Revoked deletes target w)
        (run (delete_row done target) (record { db = db; objects = objects }))
unfolding delete_row
after_object deletes target w db false objects d v dead = (dead, v, inr (refl, inr d))
after_object deletes target w db true objects d v dead =
    let (after, done, owned, gone) = delete_share-cases target.share_id_hash db v in
    deleted_row deletes target w db after objects (delete_share target.share_id_hash db) done owned
      gone d

object_deleted :
    (has_bucket : Bool) (deletes : List Text → Bool × List Text) (target : Target) (w : World)
    (db : Database)
    → IsOwned db
    → find (live target.share_id_hash) db.shares ≡ none
    → Returns
        (Revoked deletes target w)
        (run (delete_object has_bucket deletes target) (record w { db = db }))
unfolding delete_object remove_object
object_deleted true deletes target w db v dead =
    after_object deletes target w db (deletes w.objects).0 (deletes w.objects).1 refl v dead
object_deleted false deletes target w db v dead = (dead, v, inr (refl, inl refl))

revoke_active-Revoked :
    (has_bucket : Bool) (deletes : List Text → Bool × List Text) (target : Target) (row : Share)
    (w : World)
    → IsOwned w.db
    → row_of target.share_id_hash w ≡ some row
    → is_active row.state ≡ true
    → Returns (Revoked deletes target w) (run (revoke_active has_bucket deletes target) w)
unfolding revoke_active
revoke_active-Revoked has_bucket deletes target row w v found is_live =
    marked (mark_deleting target.share_id_hash w.db) (mark_deleting_lem target.share_id_hash w.db).0
  where
    after : Database
    after = record w.db { shares = set_state (live target.share_id_hash) deleting w.db.shares }

    marked :
        (r : Reply ℕ)
        → r ≡ ok (length (keep (live target.share_id_hash) w.db.shares)) after
        → Returns (Revoked deletes target w) (
            run
              (answer r >>= (λ changes.
                if changes == 0
                then returns (respond (codes "share is not active") 409)
                else delete_object has_bucket deletes target))
              (commit w r))
    marked r e =
        rw (e, live-rows target.share_id_hash row w.db.shares found is_live)
          (object_deleted has_bucket deletes target w after
            (mark_deleting-IsOwned target.share_id_hash w.db v)
            (mark_deleting_lem target.share_id_hash w.db).1)

-- What a revocation does: a share that is not there is answered 204, one of another document or path
-- 400, one that is not active 409, all without a change; an active one is revoked.
abbrev pub Answered : (List Text → Bool × List Text) → Target → World → Response → World → Type 0
Answered deletes target w response after =
    ((row_of target.share_id_hash w ≡ none) × (response.status ≡ 204) × (after ≡ w))
    ⊎ ((row : Share) × (row_of target.share_id_hash w ≡ some row)
        × (((same_material row target.document_id target.object_path_hash ≡ false)
              × (response.status ≡ 400)
              × (after ≡ w))
            ⊎ ((is_active row.state ≡ false) × (response.status ≡ 409) × (after ≡ w))
            ⊎ Revoked deletes target w response after))

revoke_row-Answered :
    (has_bucket : Bool) (deletes : List Text → Bool × List Text) (target : Target)
    (found : Option Share) (w : World)
    → IsOwned w.db
    → row_of target.share_id_hash w ≡ found
    → Returns (Answered deletes target w) (run (revoke_row has_bucket deletes target found) w)
unfolding revoke_row
revoke_row-Answered has_bucket deletes target none w v e = inl (e, refl, refl)
revoke_row-Answered has_bucket deletes target (some row) w v e =
    elim (Bool-cases (same_material row target.document_id target.object_path_hash)) [
      | inr other ↦ rw other (inr (row, e, inl (other, refl, refl)))
      | inl same_target ↦ elim (Bool-cases (is_active row.state)) [
        | inr dead ↦ rw (same_target, dead) (inr (row, e, inr (inl (dead, refl, refl))))
        | inl alive ↦
            rw (same_target, alive)
              (Returns-map _ _ (run (revoke_active has_bucket deletes target) w)
                (λ response after revoked. inr (row, e, inr (inr revoked)))
                (revoke_active-Revoked has_bucket deletes target row w v e alive))
      ]
    ]

-- Every well-formed DELETE of a share ends in a response, in one of five ways. Where no row has the
-- share's hash, the status is 204; where the row is of another document or path, 400; where it is
-- not active, 409; the world is then as it was. Otherwise the share has no active row any more and
-- each key of the store still belongs to one row: with 204 the object is deleted and the row gone,
-- and with 503 the objects are as they were or as the R2 call that failed left them.
pub handle_delete_shares-Answered :
    (platform : Platform) (env : Env) (r2_delete : Text → List Text → Bool × List Text)
    (db_prefix : Text) (body : Fields) (share : ShareBody) (w : World)
    → parse_share_body body ≡ some share
    → IsOwned w.db
    → Returns
        (Answered
          (r2_delete (target_of platform db_prefix share).object_path)
          (target_of platform db_prefix share)
          w)
        (run (handle_delete_shares platform env r2_delete db_prefix body) w)
unfolding handle_delete_shares
handle_delete_shares-Answered platform env r2_delete db_prefix body share w e v =
    subst
      (λ s.
        Returns (Answered (r2_delete target.object_path) target w)
          (run (delete_shares platform env r2_delete db_prefix s) w))
      (sym e)
      (unfold delete_shares select_share find_share in
        revoke_row-Answered env.has_bucket (r2_delete target.object_path) target
          (row_of target.share_id_hash w) w v refl)
  where
    target : Target
    target = target_of platform db_prefix share

-- The DELETE of an active share of the document and path.
pub handle_delete_shares-Revoked :
    (platform : Platform) (env : Env) (r2_delete : Text → List Text → Bool × List Text)
    (db_prefix : Text) (body : Fields) (share : ShareBody) (row : Share) (w : World)
    → parse_share_body body ≡ some share
    → IsOwned w.db
    → row_of (target_of platform db_prefix share).share_id_hash w ≡ some row
    → same_material row
        (target_of platform db_prefix share).document_id
        (target_of platform db_prefix share).object_path_hash
      ≡ true
    → is_active row.state ≡ true
    → Returns
        (Revoked
          (r2_delete (target_of platform db_prefix share).object_path)
          (target_of platform db_prefix share)
          w)
        (run (handle_delete_shares platform env r2_delete db_prefix body) w)
handle_delete_shares-Revoked platform env r2_delete db_prefix body share row w e v found material
      alive =
    Returns-map _ _ (run (handle_delete_shares platform env r2_delete db_prefix body) w)
      (λ response after answered. only response after answered)
      (handle_delete_shares-Answered platform env r2_delete db_prefix body share w e v)
  where
    target : Target
    target = target_of platform db_prefix share

    deletes : List Text → Bool × List Text
    deletes = r2_delete target.object_path

    same_row : (other : Share) → row_of target.share_id_hash w ≡ some other → row ≡ other
    same_row other f = let g = sym found ∙ f in cc

    no_row : row_of target.share_id_hash w ≡ none → ⊥
    no_row missing = cc

    not_different :
        (other : Share)
        → row ≡ other
        → same_material other target.document_id target.object_path_hash ≡ false
        → ⊥
    not_different other same_row different = cc

    not_dead : (other : Share) → row ≡ other → is_active other.state ≡ false → ⊥
    not_dead other same_row dead = cc

    only :
        (response : Response) (after : World)
        → Answered deletes target w response after
        → Revoked deletes target w response after
    only response after (inl (missing, status, same_world)) = absurd (no_row missing)
    only response after (inr (other, f, inl (different, status, same_world))) =
        absurd (not_different other (same_row other f) different)
    only response after (inr (other, f, inr (inl (dead, status, same_world)))) =
        absurd (not_dead other (same_row other f) dead)
    only response after (inr (other, f, inr (inr revoked))) = revoked
