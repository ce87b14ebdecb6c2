-- ===== src/Owner/Reading.antt =====
-- worker/ownerEndpoint.ts and worker/libraryEndpoint.ts: both handlers only read.
use txt.Prelude.{ℕ, refl, Option, none, some, Text, Bytes, Option-cases, inl, inr}
use txt.Base64.{base64_decode}
use txt.Effects.Reading.{IsReadOnly}
use txt.Http.{Env}
use txt.Platform.{Platform}
use txt.Database.{Owner}
use txt.Owner.{
  select_owner, owner_response, handle_get_owner, library_batch, select_catalog, handle_get_library,
}
use txt.Documents.{select_recent_access}
use txt.Database.Bookmarks.{select_summary}

owner_response-IsReadOnly :
    (platform : Platform) (env : Env) (email : Text) (jti : Bytes) (now : ℕ) (row : Option Owner)
    → IsReadOnly (owner_response platform env email jti now row)
unfolding owner_response select_owner
owner_response-IsReadOnly platform env email jti now none = (λ w. refl, λ w. tt)
owner_response-IsReadOnly platform env email jti now (some row) =
    elim (Option-cases (base64_decode env.ticket_signing_key)) [
      | inl e ↦ rw (IsReadOnly, owner_response, e) tt
      | inr (key, e) ↦ rw (IsReadOnly, owner_response, e) tt
    ]

pub handle_get_owner-IsReadOnly :
    (platform : Platform) (env : Env) (email : Text) (jti : Bytes) (now : ℕ)
    → IsReadOnly (handle_get_owner platform env email jti now)
unfolding handle_get_owner select_owner
handle_get_owner-IsReadOnly platform env email jti now =
    (λ w. refl, λ w. owner_response-IsReadOnly platform env email jti now _)

pub handle_get_library-IsReadOnly : IsReadOnly handle_get_library
unfolding handle_get_library library_batch select_recent_access select_catalog select_summary
handle_get_library-IsReadOnly = (λ w. refl, λ w. tt)
