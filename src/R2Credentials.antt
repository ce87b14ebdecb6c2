-- ===== src/R2Credentials.antt =====
-- worker/r2CredentialsEndpoint.ts: the credentials that the worker signs locally, and the pair that
-- it gives to the owner's browser.
pub mod Reading
use txt.Prelude.{
  ℕ, zero, suc, ◌+◌, ◌-◌, ◌*◌, ◌/◌, ◌%◌, ltb, Bool, Option, none, some, List, [], ◌∷◌, ◌++◌, map,
  Text, Bytes, codes, utf8, if◌then◌else◌,
}
use txt.Base64.{base64_encode}
use txt.Json.{ℤ, pos, Value, str, arr, obj, Fields, end, entry, nat, items_of}
use txt.Errors.{Error}
use txt.Effects.{Program, returns, throws, ◌>>=◌, ◌>>◌, catch}
use txt.Http.{Response, respond, respond_json, Env, require_var}
use txt.Platform.{Platform}

abbrev pub browser_credential_ttl_seconds : ℕ
browser_credential_ttl_seconds = 15 * 60

pub data Permission : Type 0 where
  object_read_write object_read_only : Permission

pub record MintCredentialScope : Type 0 where
  pub prefixes : Option (List Text)
  pub objects : Option (List Text)

pub record TempR2Credential : Type 0 where
  pub access_key_id : Text
  pub secret_access_key : Text
  pub session_token : Text

abbrev pub MintCredential : Type 0
MintCredential = Permission → MintCredentialScope → ℕ → Program TempR2Credential

pub record R2ParentVars : Type 0 where
  pub account_id : Text
  pub parent_access_key_id : Text
  pub parent_secret_access_key : Text
  pub bucket : Text

unfoldable pub require_r2_vars : Env → Program R2ParentVars
require_r2_vars env = do
  account_id ← require_var env.cf_account_id (codes "CF_ACCOUNT_ID")
  key_id ← require_var env.r2_parent_access_key_id (codes "R2_PARENT_ACCESS_KEY_ID")
  secret ← require_var env.r2_parent_secret_access_key (codes "R2_PARENT_SECRET_ACCESS_KEY")
  bucket ← require_var env.bucket_name (codes "BUCKET_NAME")
  returns (record {
    account_id = account_id;
    parent_access_key_id = key_id;
    parent_secret_access_key = secret;
    bucket = bucket;
  })

permission_name : Permission → Text
permission_name object_read_write = codes "object-read-write"
permission_name object_read_only = codes "object-read-only"

text_items : Option (List Text) → Value
text_items none = arr (items_of [])
text_items (some texts) = arr (items_of (map str texts))

path_claims : MintCredentialScope → Fields
unfolding text_items
path_claims scope =
    entry "paths"
      (obj (
        entry "prefixPaths" (text_items scope.prefixes)
          (entry "objectPaths" (text_items scope.objects) end)))
      end

scoped_claims : Option (List Text) → Option (List Text) → MintCredentialScope → Fields
unfolding path_claims
scoped_claims none none scope = end
scoped_claims _ _ scope = path_claims scope

unfoldable pub build_jwt_claims : Text → Permission → MintCredentialScope → Fields
unfolding scoped_claims permission_name
build_jwt_claims bucket permission scope = entry "bucket" (str bucket) (
    entry "scope" (str (permission_name permission))
      (scoped_claims scope.prefixes scope.objects scope))

hex_digit : ℕ → ℕ
hex_digit n = if ltb n 10 then b'0' + n else 87 + n

-- Two digits for each octet.
unfoldable pub hex : Bytes → Text
unfolding hex_digit
hex [] = []
hex (b ∷ bs) = hex_digit (b / 16) ∷ hex_digit (b % 16) ∷ hex bs

module _ (platform : Platform) where
  sha256_hex : Text → Text
  unfolding hex
  sha256_hex value = hex (platform.sha256 (utf8 value))

  unfoldable pub sign_scoped_jwt : R2ParentVars → Permission → MintCredentialScope → ℕ → Text
  sign_scoped_jwt vars permission scope ttl =
      platform.sign_jwt (build_jwt_claims vars.bucket permission scope) vars.account_id
        vars.parent_access_key_id (vars.account_id ++ codes ".r2.cloudflarestorage.com") ttl
        (utf8 vars.parent_secret_access_key)

  unfoldable pub sign_temp_credential : Env → MintCredential
  unfolding sha256_hex
  sign_temp_credential env permission scope ttl = do
    vars ← require_r2_vars env
    let jwt = sign_scoped_jwt vars permission scope ttl
    returns (record {
      access_key_id = vars.parent_access_key_id;
      secret_access_key = sha256_hex jwt;
      session_token = base64_encode (codes "jwt/" ++ jwt);
    })

  unfoldable pub create_mint_credential : Env → MintCredential
  create_mint_credential env = sign_temp_credential env

unfoldable pub documents_scope : Text → MintCredentialScope
documents_scope db_prefix = record {
  prefixes = some ((db_prefix ++ codes "/documents/") ∷ (db_prefix ++ codes "/shared/") ∷ []);
  objects = none;
}

unfoldable pub catalog_scope : Text → MintCredentialScope
catalog_scope db_prefix = record {
  prefixes = some ((db_prefix ++ codes "/catalog/") ∷ []);
  objects = none;
}

unfoldable pub credential_json : TempR2Credential → Value
credential_json c = obj (
    entry "access_key_id" (str c.access_key_id) (
      entry "secret_access_key" (str c.secret_access_key)
        (entry "session_token" (str c.session_token) end)))

-- Both credentials, or `none` where one of them could not be minted.
unfoldable pub mint_both :
    MintCredential → Text → Program (Option (TempR2Credential × TempR2Credential))
mint_both mint db_prefix =
    catch
      (mint object_read_write (documents_scope db_prefix) browser_credential_ttl_seconds
        >>= λ documents.
            mint object_read_only (catalog_scope db_prefix) browser_credential_ttl_seconds
            >>= λ catalog. returns (some (documents, catalog)))
      (λ error. returns none)

credentials_response : Env → ℕ → Option (TempR2Credential × TempR2Credential) → Program Response
unfolding credential_json
credentials_response env now none = returns (respond (codes "failed to mint R2 credentials") 500)
credentials_response env now (some (documents, catalog)) = do
  account_id ← require_var env.cf_account_id (codes "CF_ACCOUNT_ID")
  bucket ← require_var env.bucket_name (codes "BUCKET_NAME")
  returns (
      respond_json (
        obj (
          entry "endpoint"
            (str (codes "https://" ++ account_id ++ codes ".r2.cloudflarestorage.com"))
            (entry "bucket" (str bucket) (
              entry "expires_at" (nat (now + browser_credential_ttl_seconds)) (
                entry "documents" (credential_json documents)
                  (entry "catalog" (credential_json catalog) end)))))))

-- `now` is the clock in seconds.
unfoldable pub handle_post_r2_credentials : Env → Text → MintCredential → ℕ → Program Response
unfolding mint_both credentials_response
handle_post_r2_credentials env db_prefix mint now = do
  minted ← mint_both mint db_prefix
  credentials_response env now minted
