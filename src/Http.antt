-- ===== src/Http.antt =====
-- Responses, requests and the configuration that every handler is given, and worker/requireVar.ts.
pub mod Reading
use txt.Prelude.{
  ℕ, List, [], ◌∷◌, ◌++◌, Bool, true, false, Option, none, some, Text, Bytes, String, codes,
  starts_with, if◌then◌else◌,
}
use txt.Json.{Value}
use txt.Errors.{Error, plain}
use txt.Effects.{Program, returns, throws}

pub data Body : Type 0 where
  empty : Body
  text : Text → Body
  json : Value → Body

pub record Response : Type 0 where
  pub status : ℕ
  pub headers : List (Text × Text)
  pub body : Body

-- `new Response(message, { status })`.
abbrev pub respond : Text → ℕ → Response
respond message status = record { status = status; headers = []; body = text message }

-- `new Response(null, { status })`.
abbrev pub respond_empty : ℕ → Response
respond_empty status = record { status = status; headers = []; body = empty }

-- `Response.json(value)`.
abbrev pub respond_json : Value → Response
respond_json value = record { status = 200; headers = []; body = json value }

pub record Request : Type 0 where
  pub method : Text
  pub path : Text
  pub query : List (Text × Text)
  pub headers : List (Text × Text)
  pub chunks : List Bytes

-- The bindings, variables and secrets of the worker; `none` is `undefined`.
pub record Env : Type 0 where
  pub ticket_signing_key : Text
  pub share_grant_key : Text
  pub cf_account_id : Option Text
  pub r2_parent_access_key_id : Option Text
  pub r2_parent_secret_access_key : Option Text
  pub bucket_name : Option Text
  pub cf_access_team_domain : Option Text
  pub cf_access_aud : Option Text
  pub owner_email : Option Text
  pub skip_access_check : Option Text
  pub has_bucket : Bool

not_configured : Text → Error
not_configured name = plain (name ++ codes " is not configured")

configured : Text → Text → Program Text
unfolding not_configured
configured [] name = throws (not_configured name)
configured (c ∷ cs) name =
    if starts_with (c ∷ cs) (codes "replace-me-")
    then throws (not_configured name)
    else returns (c ∷ cs)

unfoldable pub require_var : Option Text → Text → Program Text
unfolding not_configured configured
require_var none name = throws (not_configured name)
require_var (some value) name = configured value name

unfoldable pub require_binding : Bool → Text → Program (Unit {0})
unfolding not_configured
require_binding present name = if present then returns tt else throws (not_configured name)

-- A value that an early return may replace by a response.
pub data Checked {ℓ} (A : Type ℓ) : Type ℓ where
  rejected : Response → Checked A
  accepted : A → Checked A

infixl 5 ◌>>=◌
abbrev pub ◌>>=◌ {ℓ κ} : {A : Type ℓ} {B : Type κ} → Checked A → (A → Checked B) → Checked B
rejected r >>= f = rejected r
accepted a >>= f = f a

-- `if (value === null) return response`.
abbrev pub or_reject {ℓ} : {A : Type ℓ} → Option A → Response → Checked A
or_reject none r = rejected r
or_reject (some a) r = accepted a
