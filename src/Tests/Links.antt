-- ===== src/Tests/Links.antt =====
-- Tests of the link of a share.
use txt.Prelude.{
  true, ℕ, zero, suc, ◌-◌, ◌==◌, ◌≡◌, refl, ap, some, List, [], ◌∷◌, Text, codes, length, replicate,
  All-replicate, IsByte, arith, if◌then◌else◌,
}
use txt.Base64.{base64_url_encode}
use txt.Browser.ShareLinks.{
  SearchParams, ShareMaterial, base64_url, is_base64_url, parse_shared_reference, share_url_hash,
}
use txt.Browser.ShareLinks.Opening.{
  is_base64_url-base64_url_encode, first_value, parse_shared_reference-share_url_hash,
}

-- Parameters as texts: their count, then each name and each value with a zero at its end.
unfoldable spelled : Text → Text → Text
spelled [] rest = 0 ∷ rest
spelled (c ∷ cs) rest = suc c ∷ spelled cs rest

unfoldable spelled_pairs : List (Text × Text) → Text
unfolding spelled
spelled_pairs [] = []
spelled_pairs ((key, text) ∷ pairs) = spelled key (spelled text (spelled_pairs pairs))

unfoldable until_zero : Text → Text × Text
until_zero [] = ([], [])
until_zero (c ∷ cs) =
    let (read, rest) = until_zero cs in if c == 0 then ([], cs) else ((c - 1) ∷ read, rest)

unfoldable pairs_of : ℕ → Text → List (Text × Text)
unfolding until_zero
pairs_of zero text = []
pairs_of (suc n) text =
    let (key, more) = until_zero text in
    let (read, rest) = until_zero more in (key, read) ∷ pairs_of n rest

unfoldable pairs_in : Text → List (Text × Text)
unfolding pairs_of
pairs_in [] = []
pairs_in (n ∷ text) = pairs_of n text

abbrev params : SearchParams
params = record {
  get = λ text name. first_value name (pairs_in text);
  to_text = λ pairs. length pairs ∷ spelled_pairs pairs;
}

until_zero-spelled : (text rest : Text) → until_zero (spelled text rest) ≡ (text, rest)
unfolding until_zero spelled
until_zero-spelled [] rest = refl
until_zero-spelled (c ∷ cs) rest = rw (until_zero-spelled cs rest) (ground arith)

pairs_of-spelled_pairs :
    (pairs : List (Text × Text)) → pairs_of (length pairs) (spelled_pairs pairs) ≡ pairs
unfolding pairs_of spelled_pairs
pairs_of-spelled_pairs [] = refl
pairs_of-spelled_pairs ((key, text) ∷ pairs) =
    rw
      (
        until_zero-spelled key (spelled text (spelled_pairs pairs)),
        until_zero-spelled text (spelled_pairs pairs),
        pairs_of-spelled_pairs pairs,
      )
      refl

first_is_read :
    (pairs : List (Text × Text)) (name : Text)
    → params.get (params.to_text pairs) name ≡ first_value name pairs
unfolding pairs_in
first_is_read pairs name = ap (first_value name) (pairs_of-spelled_pairs pairs)

abbrev share : ShareMaterial
share = record {
  share_id = replicate 32 255;
  content_key = replicate 128 7;
  share_path = codes "path";
}

parse_shared_reference-share_url_hash_example :
    parse_shared_reference params (share_url_hash params share (codes "a_grant-1"))
    ≡ some (record {
      id = base64_url (replicate 32 255);
      content_key = replicate 128 7;
      grant = codes "a_grant-1";
    })
parse_shared_reference-share_url_hash_example =
    parse_shared_reference-share_url_hash params share (codes "a_grant-1") first_is_read refl refl
      (All-replicate IsByte 32 255 (omega arith)) (All-replicate IsByte 128 7 (omega arith))
      (unfold is_base64_url in refl) (omega arith)

is_base64_url-base64_url_encode_example :
    is_base64_url (base64_url_encode (251 ∷ 255 ∷ 190 ∷ 7 ∷ [])) ≡ true
is_base64_url-base64_url_encode_example =
    is_base64_url-base64_url_encode (251 ∷ 255 ∷ 190 ∷ 7 ∷ []) (omega arith)
