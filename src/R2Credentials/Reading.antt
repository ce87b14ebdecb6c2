-- ===== src/R2Credentials/Reading.antt =====
-- worker/r2CredentialsEndpoint.ts: minting is local and changes nothing.
use txt.Prelude.{ℕ}
use txt.Effects.Reading.{IsReadOnly, bind-IsReadOnly}
use txt.Http.{Env}
use txt.Http.Reading.{require_var-IsReadOnly}
use txt.Platform.{Platform}
use txt.R2Credentials.{
  Permission, MintCredentialScope, create_mint_credential, sign_temp_credential, require_r2_vars,
}

require_r2_vars-IsReadOnly : (env : Env) → IsReadOnly (require_r2_vars env)
unfolding require_r2_vars
require_r2_vars-IsReadOnly env = bind-IsReadOnly _ _ (require_var-IsReadOnly _ _) (λ account.
    bind-IsReadOnly _ _ (require_var-IsReadOnly _ _) (λ id.
      bind-IsReadOnly _ _ (require_var-IsReadOnly _ _)
        (λ secret. bind-IsReadOnly _ _ (require_var-IsReadOnly _ _) (λ bucket. tt))))

pub create_mint_credential-IsReadOnly :
    (platform : Platform) (env : Env) (permission : Permission) (scope : MintCredentialScope)
    (ttl : ℕ)
    → IsReadOnly (create_mint_credential platform env permission scope ttl)
unfolding create_mint_credential sign_temp_credential
create_mint_credential-IsReadOnly platform env permission scope ttl =
    bind-IsReadOnly _ _ (require_r2_vars-IsReadOnly env) (λ vars. tt)
