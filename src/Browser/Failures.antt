-- ===== src/Browser/Failures.antt =====
-- What the browser's code throws, by class, and ui/src/data/networkRequest.ts's `isNetworkError`.
use txt.Prelude.{Bool, true, false, ◌||◌, Text, codes, includes, same, ascii_lower}

pub data Class : Type 0 where
  plain_error type_error network_timeout access_required version_conflict : Class
  r2_authorization r2_conflict not_an_error : Class

pub record Failure : Type 0 where
  pub class : Class
  pub name : Text
  pub message : Text

-- `new Error(message)`.
abbrev pub error : Text → Failure
error message = record { class = plain_error; name = codes "Error"; message = message }

abbrev pub timed_out : Failure
timed_out = record {
  class = network_timeout;
  name = codes "Error";
  message = codes "network request timed out";
}

abbrev pub access_is_required : Failure
access_is_required = record {
  class = access_required;
  name = codes "AccessRequiredError";
  message = codes "Cloudflare Access session required";
}

abbrev pub version_conflicts : Failure
version_conflicts = record {
  class = version_conflict;
  name = codes "AccessVersionConflictError";
  message = codes "access_version conflict";
}

unfoldable pub names_network : Text → Bool
unfolding ascii_lower includes
names_network message =
    let text = ascii_lower message in
    includes text (codes "fetch")
    || includes text (codes "network")
    || includes text (codes "load failed")
    || includes text (codes "offline")

aborts : Text → Bool
aborts name = same name (codes "AbortError") || same name (codes "TimeoutError")

network_class : Class → Text → Text → Bool
unfolding names_network aborts
network_class network_timeout name message = true
network_class not_an_error name message = false
network_class type_error name message = aborts name || names_network message
network_class _ name message = aborts name

unfoldable pub is_network_error : Failure → Bool
unfolding network_class
is_network_error e = network_class e.class e.name e.message

-- A settled promise.
pub data Settled {ℓ} (A : Type ℓ) : Type ℓ where
  fulfilled : A → Settled A
  rejected : Failure → Settled A

infixl 5 ◌>>=◌
abbrev pub ◌>>=◌ {ℓ κ} : {A : Type ℓ} {B : Type κ} → Settled A → (A → Settled B) → Settled B
fulfilled a >>= f = f a
rejected e >>= f = rejected e
