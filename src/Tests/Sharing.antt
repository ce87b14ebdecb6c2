-- ===== src/Tests/Sharing.antt =====
-- Tests of the revocation of a share and of the redemption after it.
use txt.Prelude.{
  Bool, true, false, ◌≡◌, refl, ◌⊎◌, true, some, List, [], ◌∷◌, codes, Text, replicate, none, same,
}
use txt.Json.{
  Value, obj, str, Fields, entry, end, nat, pos, int, field, as_integer, as_string, eq_int, exceeds,
  as_object,
}
use txt.Base64.{base64_url_decode, base64_encode, base64_decode}
use txt.Effects.{run, Returns}
use txt.Http.{Env}
use txt.Platform.{Platform}
use txt.ShareGrant.{is_valid_share_path}
use txt.Database.{is_active}
use txt.Shares.{
  same_material, ShareBody, parse_share_body, handle_delete_shares, target_of, Registration,
  parse_registration, handle_post_shares,
}
use txt.Shares.Replays.{Registered, handle_post_shares-Registered}
use txt.Shares.Revocation.{Answered, handle_delete_shares-Answered}
use txt.SharedUrl.{
  read_bounded_body, decode_redemption, Redemption, parse_redemption, handle_post_shared_url,
}
use txt.SharedUrl.Revoked.{Refused, handle_delete_shares-Refused}
use txt.Tests.Data.{platform_with, world, share, db-IsOwned}

abbrev pub env : Env
env = record {
  ticket_signing_key = codes "a2V5";
  share_grant_key = codes "a2V5";
  cf_account_id = some (codes "account");
  r2_parent_access_key_id = some (codes "id");
  r2_parent_secret_access_key = some (codes "secret");
  bucket_name = some (codes "bucket");
  cf_access_team_domain = none;
  cf_access_aud = none;
  owner_email = some (codes "owner@example.com");
  skip_access_check = some (codes "true");
  has_bucket = true;
}

-- 32 zeros in URL-safe base64.
abbrev share_id_text : Text
share_id_text = replicate 43 b'A'

abbrev share_body : Fields
share_body =
    entry "document_id" (nat 7)
      (entry "share_id" (str share_id_text) (entry "share_path" (str (replicate 52 b'0')) end))

abbrev parsed_share : ShareBody
parsed_share = record {
  document_id = pos 7;
  share_id = replicate 32 0;
  share_path = replicate 52 b'0';
}

abbrev redemption_json : Value
redemption_json = obj (entry "share_id" (str share_id_text) (entry "grant" (str (codes "AQ")) end))

abbrev platform : Platform
platform = platform_with (λ text. some redemption_json)

-- An R2 call that fails.
abbrev failing : Text → List Text → Bool × List Text
failing path objects = (false, objects)

share_parsed : parse_share_body share_body ≡ some parsed_share
unfolding parse_share_body field as_integer as_string base64_url_decode is_valid_share_path
share_parsed = refl

handle_delete_shares-Answered_example :
    Returns
      (Answered
        (failing (target_of platform (codes "p") parsed_share).object_path)
        (target_of platform (codes "p") parsed_share)
        world)
      (run (handle_delete_shares platform env failing (codes "p") share_body) world)
handle_delete_shares-Answered_example =
    handle_delete_shares-Answered platform env failing (codes "p") share_body parsed_share world
      share_parsed db-IsOwned

abbrev parsed_redemption : Redemption
parsed_redemption = record { share_id = replicate 32 0; grant_bytes = 1 ∷ [] }

handle_delete_shares-Refused_example :
    Returns
      (λ response after.
        ((response.status ≡ 204) ⊎ (response.status ≡ 503))
        × Returns
            (Refused after)
            (run (handle_post_shared_url platform env (int (pos 0)) [] 100) after))
      (run (handle_delete_shares platform env failing (codes "p") share_body) world)
unfolding target_of parse_redemption same same_material eq_int base64_encode is_active
    read_bounded_body exceeds as_object as_string field decode_redemption base64_url_decode
handle_delete_shares-Refused_example =
    handle_delete_shares-Refused platform env failing (codes "p") share_body parsed_share share
      (int (pos 0)) [] 100 parsed_redemption world share_parsed db-IsOwned refl refl refl refl refl

abbrev registration_body : Fields
registration_body =
    entry "key_wrapped" (str (codes "AQ==")) (entry "owner_blob" (str (codes "AQ==")) share_body)

abbrev parsed_registration : Registration
parsed_registration = record { share = parsed_share; key_wrapped = 1 ∷ []; owner_blob = 1 ∷ [] }

handle_post_shares-Registered_example :
    Returns
      (Registered platform env
        (target_of platform (codes "p") parsed_share)
        share
        (codes "key")
        (replicate 32 1)
        (replicate 12 2)
        world)
      (run
        (handle_post_shares platform env
          (codes "p")
          registration_body
          100
          101
          (replicate 32 1)
          (replicate 12 2))
        world)
unfolding parse_registration parse_share_body field as_integer as_string base64_url_decode
    is_valid_share_path base64_decode target_of same
handle_post_shares-Registered_example =
    handle_post_shares-Registered platform env (codes "p") registration_body parsed_registration
      share 100 101 (codes "key") (replicate 32 1) (replicate 12 2) world refl refl refl
