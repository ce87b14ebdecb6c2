-- ===== src/Api.antt =====
-- worker/api.ts: the table of the /v1 routes, the match of a path, the authorization and the dispatch.
pub mod Guards
use txt.Prelude.{
  ℕ, ◌/◌, ◌==◌, not, Bool, true, false, Option, none, some, List, [], ◌∷◌, ◌++◌, Text, Bytes,
  String, codes, same, starts_with, split_on, length, if◌then◌else◌,
}
use txt.Access.{VerifyAccessJwtOptions, verify_access_jwt}
use txt.Bookmarks.{
  handle_get_bookmarks, handle_get_bookmarks_summary, handle_post_bookmark, handle_delete_bookmark,
}
use txt.Documents.{handle_get_document, handle_get_document_content, handle_patch_document_access}
use txt.Effects.{Program, returns, throws, ◌>>=◌, ◌>>◌}
use txt.Errors.{Error, plain, proof_required, Try, value, raise}
use txt.Http.{Request, Response, respond, respond_json, Body, empty, Env, require_var}
use txt.Json.{Number, int, ℤ, pos, Value, str, obj, Fields, end, entry, field, as_string}
use txt.Owner.{handle_get_owner, handle_get_library}
use txt.Platform.{Platform}
use txt.R2Credentials.{handle_post_r2_credentials, create_mint_credential}
use txt.RequireProof.{ProofContext, require_proof, header}
use txt.SharedUrl.{handle_post_shared_url}
use txt.Shares.{handle_get_shares, handle_post_shares, handle_delete_shares}

-- The handlers of the table.
pub data Endpoint : Type 0 where
  health access_check get_owner get_document get_library patch_document_access get_document_content
        get_bookmarks post_bookmark get_bookmarks_summary delete_bookmark post_r2_credentials
        get_shares post_shares delete_shares post_shared_url :
      Endpoint

pub record Route : Type 0 where
  pub handler : Endpoint
  pub public : Bool
  pub requires_proof : Bool

abbrev pub read : Endpoint → Route
read handler = record { handler = handler; public = false; requires_proof = false }

abbrev pub proved : Endpoint → Route
proved handler = record { handler = handler; public = false; requires_proof = true }

abbrev pub open_to_all : Endpoint → Route
open_to_all handler = record { handler = handler; public = true; requires_proof = false }

abbrev pub Methods : Type 0
Methods = List (Text × Route)

-- ROUTES, in the order in which they are registered.
unfoldable pub routes : List (Text × Methods)
routes =
    (codes "/v1/health", (codes "GET", read health) ∷ [])
    ∷ (codes "/v1/access-check", (codes "GET", read access_check) ∷ [])
    ∷ (codes "/v1/owner", (codes "GET", read get_owner) ∷ [])
    ∷ (codes "/v1/documents/:id", (codes "GET", read get_document) ∷ [])
    ∷ (codes "/v1/library", (codes "GET", read get_library) ∷ [])
    ∷ (codes "/v1/documents/:id/access", (codes "PATCH", proved patch_document_access) ∷ [])
    ∷ (codes "/v1/documents/:id/content", (codes "GET", read get_document_content) ∷ [])
    ∷ (
      codes "/v1/bookmarks",
      (codes "GET", read get_bookmarks) ∷ (codes "POST", proved post_bookmark) ∷ [],
    )
    ∷ (codes "/v1/bookmarks/summary", (codes "GET", read get_bookmarks_summary) ∷ [])
    ∷ (codes "/v1/bookmarks/:id", (codes "DELETE", proved delete_bookmark) ∷ [])
    ∷ (codes "/v1/r2-credentials", (codes "POST", proved post_r2_credentials) ∷ [])
    ∷ (
      codes "/v1/shares",
      (codes "GET", read get_shares)
          ∷ (codes "POST", proved post_shares)
          ∷ (codes "DELETE", proved delete_shares)
          ∷ [],
    )
    ∷ (codes "/v1/shared-url", (codes "POST", open_to_all post_shared_url) ∷ [])
    ∷ []

abbrev pub Params : Type 0
Params = List (Text × Text)

-- One segment against one part of a pattern; a part that begins with a colon is captured.
match_part : Text → Text → Option Params
match_part [] segment = if same [] segment then some [] else none
match_part (c ∷ cs) segment =
    if c == b':' then some ((cs, segment) ∷ []) else if same (c ∷ cs) segment then some [] else none

join_params : Option Params → Option Params → Option Params
join_params (some a) (some b) = some (a ++ b)
join_params _ _ = none

-- The parts one by one; `none` where the numbers of parts differ.
unfoldable pub match_parts : List Text → List Text → Option Params
unfolding match_part join_params
match_parts [] [] = some []
match_parts [] (p ∷ ps) = none
match_parts (s ∷ ss) [] = none
match_parts (s ∷ ss) (p ∷ ps) = join_params (match_part p s) (match_parts ss ps)

unfoldable pub match_pattern : Text → Text → Option Params
match_pattern pathname pattern = match_parts (split_on b'/' pathname) (split_on b'/' pattern)

unfoldable pub find_route_in : Text → List (Text × Methods) → Option (Methods × Params)
find_route_in pathname [] = none
find_route_in pathname ((pattern, methods) ∷ rest) = elim (match_pattern pathname pattern) [
  | some params ↦ some (methods, params)
  | none ↦ find_route_in pathname rest
]

unfoldable pub find_route : Text → Option (Methods × Params)
unfolding find_route_in
find_route pathname = find_route_in pathname routes

unfoldable pub lookup {ℓ} : {A : Type ℓ} → Text → List (Text × A) → Option A
lookup name [] = none
lookup name ((n, v) ∷ more) = if same n name then some v else lookup name more

-- What a handler takes from the runtime while it runs.
pub record Inputs : Type 0 where
  -- The clock: in milliseconds at two readings, and in seconds.
  pub first_ms : ℕ
  pub second_ms : ℕ
  pub seconds : ℕ
  -- Random bytes: a ticket's id, a grant's salt and its nonce.
  pub jti : Bytes
  pub salt : Bytes
  pub nonce : Bytes
  -- `Number` of the Content-Length header.
  pub content_length : Number
  -- The JWKS of the team's domain, from the cache or by a fetch.
  pub jwks : Try Value
  -- `BUCKET.delete(path)`.
  pub r2_delete : Text → List Text → Bool × List Text

pub record RequestContext : Type 0 where
  pub email : Text
  pub params : Params
  pub proof : ProofContext

text_or_empty : Option Text → Text
text_or_empty none = []
text_or_empty (some text) = text

id_param : Params → Text
unfolding text_or_empty
id_param params = text_or_empty (lookup (codes "id") params)

not_empty : Option Text → Option Text
not_empty none = none
not_empty (some []) = none
not_empty (some (c ∷ cs)) = some (c ∷ cs)

skips_access : Option Text → Bool
skips_access none = false
skips_access (some setting) = same setting (codes "true")

-- The claim that the handlers read.
email_of : Fields → Text
unfolding text_or_empty
email_of claims = text_or_empty (as_string (field "email" claims))

module _ (platform : Platform) (env : Env) (inputs : Inputs) where
  handle : Endpoint → Request → RequestContext → Program Response
  unfolding id_param
  handle health request ctx = returns (respond_json (obj (entry "status" (str (codes "ok")) end)))
  handle access_check request ctx =
      returns (record { status = 302; headers = (codes "Location", codes "/") ∷ []; body = empty })
  handle get_owner request ctx = handle_get_owner platform env ctx.email inputs.jti inputs.seconds
  handle get_document request ctx = handle_get_document platform (id_param ctx.params)
  handle get_library request ctx = handle_get_library
  handle patch_document_access request ctx =
      handle_patch_document_access platform (id_param ctx.params) ctx.proof.body_json
        inputs.first_ms
  handle get_document_content request ctx =
      handle_get_document_content platform (id_param ctx.params)
  handle get_bookmarks request ctx =
      handle_get_bookmarks platform (lookup (codes "document_id") request.query)
  handle post_bookmark request ctx =
      handle_post_bookmark ctx.proof.body_json inputs.first_ms inputs.second_ms
  handle get_bookmarks_summary request ctx = handle_get_bookmarks_summary
  handle delete_bookmark request ctx = handle_delete_bookmark platform (id_param ctx.params)
  handle post_r2_credentials request ctx =
      handle_post_r2_credentials env ctx.proof.db_prefix (create_mint_credential platform env)
        inputs.seconds
  handle get_shares request ctx = handle_get_shares
  handle post_shares request ctx =
      handle_post_shares platform env ctx.proof.db_prefix ctx.proof.body_json inputs.first_ms
        inputs.second_ms inputs.salt inputs.nonce
  handle delete_shares request ctx =
      handle_delete_shares platform env inputs.r2_delete ctx.proof.db_prefix ctx.proof.body_json
  handle post_shared_url request ctx =
      handle_post_shared_url platform env inputs.content_length request.chunks inputs.seconds

  -- requireVar outside a program, as in requireAccess.
  require_access_options : Text → Program VerifyAccessJwtOptions
  require_access_options token = do
    team_domain ← require_var env.cf_access_team_domain (codes "CF_ACCESS_TEAM_DOMAIN")
    audience ← require_var env.cf_access_aud (codes "CF_ACCESS_AUD")
    owner_email ← require_var env.owner_email (codes "OWNER_EMAIL")
    returns (record {
      token = token;
      audience = audience;
      issuer = codes "https://" ++ team_domain;
      owner_email = owner_email;
    })

  verified : Program VerifyAccessJwtOptions → Option Text
  unfolding email_of
  verified (returns options) =
      elim (verify_access_jwt platform options inputs.jwks inputs.seconds) [
        | value claims ↦ some (email_of claims)
        | raise e ↦ none
      ]
  verified m = none

  -- requireAccess inside the `try` of resolveAccess: `none` is the null of any failure.
  require_access : Option Text → Option Text
  unfolding verified require_access_options
  require_access none = none
  require_access (some token) = verified (require_access_options token)

  -- The owner's email of a request that Access let through; `none` is null.
  unfoldable pub resolve_access : Request → Program (Option Text)
  unfolding require_access not_empty skips_access
  resolve_access request =
      if skips_access env.skip_access_check
      then (require_var env.owner_email (codes "OWNER_EMAIL") >>= λ email. returns (some email))
      else returns
          (require_access (not_empty (header (codes "Cf-Access-Jwt-Assertion") request.headers)))

  abbrev no_proof : ProofContext
  no_proof = record { body_json = end; user_handle = []; db_prefix = [] }

  proof_or_response : Try ProofContext → (ProofContext → Program Response) → Program Response
  proof_or_response (value proof) next = next proof
  proof_or_response (raise (proof_required status message)) next = returns (respond message status)
  proof_or_response (raise e) next = throws e

  access_or_401 : Option Text → (Text → Program Response) → Program Response
  access_or_401 none next = returns (respond (codes "Unauthorized") 401)
  access_or_401 (some email) next = next email

  with_proof : Route → Request → (ProofContext → Program Response) → Program Response
  unfolding proof_or_response
  with_proof route request next =
      if route.requires_proof
      then proof_or_response (require_proof platform request env inputs.seconds) next
      else next no_proof

  -- `authorize`, and the handler of an authorized request.
  unfoldable pub authorized : Route → Request → Params → Program Response
  unfolding with_proof access_or_401 handle
  authorized route request params =
      (if route.public then returns (some []) else resolve_access request) >>= λ access.
      access_or_401 access λ email. with_proof route request λ proof.
        handle route.handler request (record { email = email; params = params; proof = proof })

  dispatch : Option (Methods × Params) → Request → Program Response
  unfolding authorized
  dispatch none request = returns (respond (codes "Not Found") 404)
  dispatch (some (methods, params)) request = elim (lookup request.method methods) [
    | none ↦ returns (respond (codes "Method Not Allowed") 405)
    | some route ↦ authorized route request params
  ]

  unfoldable pub handle_api : Request → Program Response
  unfolding dispatch
  handle_api request = dispatch (find_route request.path) request
