-- ===== src/Tests/Data.antt =====
-- A small platform and a small database for the tests.
use txt.Prelude.{true, Option, none, some, [], ◌∷◌, ◌++◌, drop, replicate, arith, Text, codes}
use txt.Json.{int, pos, Value, end}
use txt.Platform.{Platform}
use txt.Database.{Database, Document, Share, content_key, share_key, active}
use txt.Database.Keys.{referenced}
use txt.Database.Ownership.{IsOwned, key_ids}
use txt.Database.DocumentLaws.{HasDistinctIds, document_ids}
use txt.Database.BookmarkKeys.{IsCapped}
use txt.Effects.{World}

-- Digests of 32 zeros, a signer of three octets, a cipher that puts 16 zeros before the text.
abbrev pub platform_with : (Text → Option Value) → Platform
platform_with json_parse = record {
  number_of = λ text. int (pos 7);
  json_parse = json_parse;
  json_stringify = λ v. codes "{}";
  text_decode = λ bytes. bytes;
  sha256 = λ bytes. replicate 32 0;
  hmac = λ key bytes. 1 ∷ 2 ∷ 3 ∷ [];
  rsa_verify = λ key signature bytes. some true;
  p521_verify = λ key signature bytes. some true;
  hkdf = λ key salt info. key;
  gcm_encrypt = λ key nonce ad text. replicate 16 0 ++ text;
  gcm_decrypt = λ key nonce ad text. some (drop 16 text);
  sign_jwt = λ claims subject issuer audience ttl secret. codes "jwt";
  aws_presign = λ url key secret token ttl. url;
}

abbrev pub platform : Platform
platform = platform_with (λ text. some (Value.obj end))

abbrev pub document : Document
document = record {
  id = 7;
  created_at = 1;
  content_key_id = 1;
  content_blob = 1 ∷ [];
  access_key_id = none;
  access_blob = none;
  access_version = 0;
}

abbrev pub share : Share
share = record {
  share_id_hash = replicate 32 0;
  document_id = 7;
  object_path_hash = replicate 32 0;
  key_id = 2;
  owner_blob = 9 ∷ [];
  state = active;
  created_at = 5;
}

abbrev pub db : Database
db = record {
  owner = none;
  key_store =
      record { id = 2; purpose = share_key; wrapped_key = 2 ∷ []; created_at = 1 }
      ∷ record { id = 1; purpose = content_key; wrapped_key = 1 ∷ []; created_at = 1 }
      ∷ [];
  catalog = none;
  documents = document ∷ [];
  bookmarks = [];
  shares = share ∷ [];
  next_key = 3;
  next_bookmark = 1;
}

abbrev pub world : World
world = record { db = db; objects = codes "object" ∷ [] }

pub db-IsOwned : IsOwned db
unfolding key_ids referenced
db-IsOwned = record {
  owned = λ k. omega arith;
  once = λ k. ground arith;
  fresh = λ k h. ground arith;
}

pub db-HasDistinctIds : HasDistinctIds db
unfolding document_ids
db-HasDistinctIds = record { distinct = λ id. ground arith }

pub db-IsCapped : IsCapped db
db-IsCapped = record { capped = λ doc. omega arith }
