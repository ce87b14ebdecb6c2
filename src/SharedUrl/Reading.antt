-- ===== src/SharedUrl/Reading.antt =====
-- worker/sharedUrlEndpoint.ts: a redemption only reads, whatever becomes of it.
use txt.Prelude.{ℕ, refl, Option, none, some, Text, Bytes, List, Bool-cases, inl, inr}
use txt.Json.{Number}
use txt.Errors.{
  Error, Try, value, raise, plain, access_verification, ticket_verification, proof_verification,
  proof_required, redemption,
}
use txt.Effects.Reading.{IsReadOnly, bind-IsReadOnly, catch-IsReadOnly}
use txt.Http.{Env}
use txt.Http.Reading.{require_var-IsReadOnly}
use txt.Database.{Share}
use txt.Database.Shares.{select_active_share}
use txt.Platform.{Platform}
use txt.R2Credentials.Reading.{create_mint_credential-IsReadOnly}
use txt.Shares.{same_base64}
use txt.SharedUrl.{
  handle_post_shared_url, redeem, recover, resolve_object_path, require_path, require_active_share,
  require_match, presign_object_get, mint_object_credential, Redemption,
}

recover-IsReadOnly : (e : Error) → IsReadOnly (recover e)
unfolding recover
recover-IsReadOnly (plain m) = tt
recover-IsReadOnly (access_verification m) = tt
recover-IsReadOnly (ticket_verification m) = tt
recover-IsReadOnly (proof_verification m) = tt
recover-IsReadOnly (proof_required s m) = tt
recover-IsReadOnly (redemption s m) = tt

require_match-IsReadOnly : (row : Option Share) (hash : Bytes) → IsReadOnly (require_match row hash)
unfolding require_match
require_match-IsReadOnly none hash = tt
require_match-IsReadOnly (some row) hash =
    elim (Bool-cases (same_base64 row.object_path_hash hash)) [ inl e ↦ rw e tt | inr e ↦ rw e tt ]

module _ (platform : Platform) (env : Env) where
  require_active_share-IsReadOnly :
      (hash : Bytes) (path : Text) → IsReadOnly (require_active_share platform hash path)
  unfolding require_active_share select_active_share
  require_active_share-IsReadOnly hash path = (λ w. refl, λ w. require_match-IsReadOnly _ _)

  require_path-IsReadOnly :
      (hash : Bytes) (path : Try Text) → IsReadOnly (require_path platform hash path)
  unfolding require_path
  require_path-IsReadOnly hash (raise e) = tt
  require_path-IsReadOnly hash (value path) =
      bind-IsReadOnly (require_active_share platform hash path) _
        (require_active_share-IsReadOnly hash path) (λ u. tt)

  presign_object_get-IsReadOnly : (path : Text) → IsReadOnly (presign_object_get platform env path)
  unfolding presign_object_get mint_object_credential
  presign_object_get-IsReadOnly path =
      bind-IsReadOnly _ _
        (catch-IsReadOnly _ _ (create_mint_credential-IsReadOnly platform env _ _ _) (λ e. tt))
        (λ credential.
          bind-IsReadOnly _ _ (require_var-IsReadOnly _ _)
            (λ account. bind-IsReadOnly _ _ (require_var-IsReadOnly _ _) (λ bucket. tt)))

  redeem-IsReadOnly : (now : ℕ) (r : Try Redemption) → IsReadOnly (redeem platform env now r)
  unfolding redeem resolve_object_path
  redeem-IsReadOnly now (raise e) = tt
  redeem-IsReadOnly now (value r) =
      bind-IsReadOnly _ _ (require_path-IsReadOnly _ _)
        (λ path. bind-IsReadOnly _ _ (presign_object_get-IsReadOnly path) (λ url. tt))

  pub handle_post_shared_url-IsReadOnly :
      (declared : Number) (chunks : List Bytes) (now : ℕ)
      → IsReadOnly (handle_post_shared_url platform env declared chunks now)
  unfolding handle_post_shared_url
  handle_post_shared_url-IsReadOnly declared chunks now =
      catch-IsReadOnly _ _ (redeem-IsReadOnly now _) recover-IsReadOnly
