-- ===== src/Api/Guards.antt =====
-- worker/api.ts: no request changes the world without Access and a proof.
use txt.Prelude.{
  ◌≡◌, refl, sym, subst, ◌⊎◌, inl, inr, Option, none, some, List, [], ◌∷◌, Text, Bool, true, false,
  All, Bool-cases, Option-cases, codes, arith,
}
use txt.Errors.{
  Error, Try, value, raise, plain, access_verification, ticket_verification, proof_verification,
  proof_required, redemption,
}
use txt.Effects.{Program, returns, throws, ◌>>=◌}
use txt.Effects.Reading.{IsReadOnly}
use txt.Http.{Request, Response, Env}
use txt.Http.Reading.{require_var-cases}
use txt.Platform.{Platform}
use txt.RequireProof.{ProofContext, require_proof, header}
use txt.Documents.Reading.{handle_get_document-IsReadOnly, handle_get_document_content-IsReadOnly}
use txt.Bookmarks.Reading.{handle_get_bookmarks-IsReadOnly, handle_get_bookmarks_summary-IsReadOnly}
use txt.Owner.Reading.{handle_get_owner-IsReadOnly, handle_get_library-IsReadOnly}
use txt.Shares.Reading.{handle_get_shares-IsReadOnly}
use txt.SharedUrl.Reading.{handle_post_shared_url-IsReadOnly}
use txt.Api.{
  Endpoint, health, access_check, get_owner, get_document, get_library, patch_document_access,
  get_document_content, get_bookmarks, post_bookmark, get_bookmarks_summary, delete_bookmark,
  post_r2_credentials, get_shares, post_shares, delete_shares, post_shared_url, Route, Methods,
  Params, routes, find_route_in, find_route, lookup, Inputs, RequestContext, handle, resolve_access,
  authorized, dispatch, handle_api, skips_access, with_proof, proof_or_response, access_or_401,
  require_access, not_empty,
}

-- The handlers that only read.
reads : Endpoint → Bool
reads patch_document_access = false
reads post_bookmark = false
reads delete_bookmark = false
reads post_r2_credentials = false
reads post_shares = false
reads delete_shares = false
reads _ = true

-- A route that asks for a proof, or whose handler only reads.
abbrev IsGated : Route → Type 0
IsGated route =
    ((route.requires_proof ≡ true) × (route.public ≡ false)) ⊎ (reads route.handler ≡ true)

AllGated : Methods → Type 0
AllGated = All (λ m. IsGated m.1)

routes-AllGated : All (λ r. AllGated r.1) routes
unfolding routes reads AllGated
routes-AllGated = ground arith

find_route_in-AllGated :
    (path : Text) (table : List (Text × Methods)) (methods : Methods) (params : Params)
    → All (λ r. AllGated r.1) table
    → find_route_in path table ≡ some (methods, params)
    → AllGated methods
unfolding find_route_in
find_route_in-AllGated path [] methods params h e = cc
find_route_in-AllGated path ((pattern, found) ∷ rest) methods params h e =
    ground (arith, find_route_in-AllGated path rest methods params h.1)

lookup-IsGated :
    (name : Text) (methods : Methods) (route : Route)
    → AllGated methods
    → lookup name methods ≡ some route
    → IsGated route
unfolding lookup AllGated
lookup-IsGated name [] route h e = cc
lookup-IsGated name ((n, r) ∷ more) route h e = ground (arith, lookup-IsGated name more route h.1)

find_route-AllGated :
    (path : Text) (methods : Methods) (params : Params)
    → find_route path ≡ some (methods, params)
    → AllGated methods
unfolding find_route
find_route-AllGated path methods params e =
    find_route_in-AllGated path routes methods params routes-AllGated e

module _ (platform : Platform) (env : Env) (inputs : Inputs) where
  handle-IsReadOnly :
      (endpoint : Endpoint) (request : Request) (ctx : RequestContext)
      → reads endpoint ≡ true
      → IsReadOnly (handle platform env inputs endpoint request ctx)
  unfolding handle reads
  handle-IsReadOnly health request ctx h = tt
  handle-IsReadOnly access_check request ctx h = tt
  handle-IsReadOnly get_owner request ctx h = handle_get_owner-IsReadOnly _ _ _ _ _
  handle-IsReadOnly get_document request ctx h = handle_get_document-IsReadOnly _ _
  handle-IsReadOnly get_library request ctx h = handle_get_library-IsReadOnly
  handle-IsReadOnly get_document_content request ctx h = handle_get_document_content-IsReadOnly _ _
  handle-IsReadOnly get_bookmarks request ctx h = handle_get_bookmarks-IsReadOnly _ _
  handle-IsReadOnly get_bookmarks_summary request ctx h = handle_get_bookmarks_summary-IsReadOnly
  handle-IsReadOnly get_shares request ctx h = handle_get_shares-IsReadOnly
  handle-IsReadOnly post_shared_url request ctx h = handle_post_shared_url-IsReadOnly _ _ _ _ _
  handle-IsReadOnly patch_document_access request ctx h = cc
  handle-IsReadOnly post_bookmark request ctx h = cc
  handle-IsReadOnly delete_bookmark request ctx h = cc
  handle-IsReadOnly post_r2_credentials request ctx h = cc
  handle-IsReadOnly post_shares request ctx h = cc
  handle-IsReadOnly delete_shares request ctx h = cc

  -- The check of Access ends at once, in an answer or in an exception.
  resolve_access-cases :
      (request : Request)
      → ((email : Option Text) × (resolve_access platform env inputs request ≡ returns email))
        ⊎ ((e : Error) × (resolve_access platform env inputs request ≡ throws e))
  unfolding resolve_access
  resolve_access-cases request = elim (Bool-cases (skips_access env.skip_access_check)) [
    | inr e ↦ inl (
      require_access platform env inputs
          (not_empty (header (codes "Cf-Access-Jwt-Assertion") request.headers)),
      rw e refl,
    )
    | inl e ↦ elim (require_var-cases env.owner_email (codes "OWNER_EMAIL")) [
      | inl (text, found) ↦ inl (some text, rw (e, found) refl)
      | inr (error, missing) ↦ inr (error, rw (e, missing) refl)
    ]
  ]

  abbrev pub Passed : Request → Type 0
  Passed request =
      (email : Text) × (proof : ProofContext) × (resolve_access platform env inputs request
        ≡ returns (some email))
      × (require_proof platform request env inputs.seconds ≡ value proof)

  abbrev pub IsGuarded : Request → Program Response → Type 0
  IsGuarded request m = IsReadOnly m ⊎ Passed request

  proof_or_response-IsReadOnly :
      (e : Error) (next : ProofContext → Program Response)
      → IsReadOnly (proof_or_response platform env inputs (raise e) next)
  unfolding proof_or_response
  proof_or_response-IsReadOnly (plain m) next = tt
  proof_or_response-IsReadOnly (access_verification m) next = tt
  proof_or_response-IsReadOnly (ticket_verification m) next = tt
  proof_or_response-IsReadOnly (proof_verification m) next = tt
  proof_or_response-IsReadOnly (proof_required s m) next = tt
  proof_or_response-IsReadOnly (redemption s m) next = tt

  proved-IsGuarded :
      (request : Request) (email : Text) (next : ProofContext → Program Response)
      → resolve_access platform env inputs request ≡ returns (some email)
      → (proof : Try ProofContext) → require_proof platform request env inputs.seconds ≡ proof
      → IsGuarded request (proof_or_response platform env inputs proof next)
  proved-IsGuarded request email next a (value proof) e = inr (email, proof, a, e)
  proved-IsGuarded request email next a (raise error) e =
      inl (proof_or_response-IsReadOnly error next)

  next_handler : Route → Request → Params → Text → ProofContext → Program Response
  next_handler route request params email proof =
      handle platform env inputs route.handler request
        (record { email = email; params = params; proof = proof })

  with_proof-IsReadOnly :
      (route : Route) (request : Request) (next : ProofContext → Program Response)
      → ((proof : ProofContext) → IsReadOnly (next proof))
      → IsReadOnly (with_proof platform env inputs route request next)
  unfolding with_proof
  with_proof-IsReadOnly route request next h = elim (Bool-cases route.requires_proof) [
    | inr e ↦ rw e (h _)
    | inl e ↦ rw e (checked (require_proof platform request env inputs.seconds))
  ]
    where
      checked :
          (proof : Try ProofContext) → IsReadOnly (proof_or_response platform env inputs proof next)
      checked (value proof) = h proof
      checked (raise error) = proof_or_response-IsReadOnly error next

  abbrev after_access : Route → Request → Params → Option Text → Program Response
  after_access route request params access = access_or_401 platform env inputs access (λ email.
      with_proof platform env inputs route request (next_handler route request params email))

  after_access-IsReadOnly :
      (route : Route) (request : Request) (params : Params) (access : Option Text)
      → reads route.handler ≡ true
      → IsReadOnly (after_access route request params access)
  unfolding access_or_401 next_handler
  after_access-IsReadOnly route request params none h = tt
  after_access-IsReadOnly route request params (some email) h =
      with_proof-IsReadOnly route request (next_handler route request params email)
        (λ proof. handle-IsReadOnly route.handler request _ h)

  after_access-IsGuarded :
      (route : Route) (request : Request) (params : Params) (access : Option Text)
      → resolve_access platform env inputs request ≡ returns access
      → route.requires_proof ≡ true
      → IsGuarded request (after_access route request params access)
  unfolding access_or_401 with_proof next_handler
  after_access-IsGuarded route request params none a h = inl tt
  after_access-IsGuarded route request params (some email) a h = rw h (
      proved-IsGuarded request email (next_handler route request params email) a
        (require_proof platform request env inputs.seconds) refl)

  bound_to :
      {A B : Type 0} (Q : Program B → Type 0) (m n : Program A) (k : A → Program B)
      → m ≡ n
      → Q (n >>= k)
      → Q (m >>= k)
  bound_to Q m n k e q = subst (λ p. Q (p >>= k)) (sym e) q

  closed-IsGuarded :
      (route : Route) (request : Request) (params : Params)
      → IsGated route
      → IsGuarded request
          (resolve_access platform env inputs request >>= after_access route request params)
  closed-IsGuarded route request params gated = elim (resolve_access-cases request) [
    | inr (error, a) ↦
        bound_to (IsGuarded request) _ _ (after_access route request params) a (inl tt)
    | inl (access, a) ↦
        bound_to (IsGuarded request) _ _ (after_access route request params) a (elim gated [
          | inl (proof, closed) ↦ after_access-IsGuarded route request params access a proof
          | inr reader ↦ inl (after_access-IsReadOnly route request params access reader)
        ])
  ]

  open-IsGuarded :
      (route : Route) (request : Request) (params : Params)
      → IsGated route
      → route.public ≡ true
      → IsGuarded request (after_access route request params (some []))
  open-IsGuarded route request params (inl (proof, closed)) public = cc
  open-IsGuarded route request params (inr reader) public =
      inl (after_access-IsReadOnly route request params (some []) reader)

  authorized-IsGuarded :
      (route : Route) (request : Request) (params : Params)
      → IsGated route
      → IsGuarded request (authorized platform env inputs route request params)
  unfolding authorized next_handler
  authorized-IsGuarded route request params gated = elim (Bool-cases route.public) [
    | inl public ↦ rw public (open-IsGuarded route request params gated public)
    | inr private ↦ rw private (closed-IsGuarded route request params gated)
  ]

  dispatch-IsGuarded :
      (request : Request) (found : Option (Methods × Params))
      → ((methods : Methods) (params : Params) → found ≡ some (methods, params) → AllGated methods)
      → IsGuarded request (dispatch platform env inputs found request)
  unfolding dispatch
  dispatch-IsGuarded request none h = inl tt
  dispatch-IsGuarded request (some (methods, params)) h =
      elim (Option-cases (lookup request.method methods)) [
        | inl missing ↦ rw (dispatch, missing) (inl tt)
        | inr (route, e) ↦
            rw (dispatch, e)
              (authorized-IsGuarded route request params
                (lookup-IsGated request.method methods route (h methods params refl) e))
      ]

  -- Every request, whatever its path, its method and its headers, either only reads, at each step and
  -- whatever other requests do, or has passed both the check of Access and the proof of possession.
  pub handle_api-IsGuarded :
      (request : Request) → IsGuarded request (handle_api platform env inputs request)
  unfolding handle_api
  handle_api-IsGuarded request =
      dispatch-IsGuarded request (find_route request.path) (find_route-AllGated request.path)
