-- ===== src/SharedUrl/Bounds.antt =====
-- worker/sharedUrlEndpoint.ts: the bounded read of a request's body.
use txt.Prelude.{
  ℕ, ◌+◌, ◌≤◌, ltb, ◌≡◌, refl, subst, Bool, true, false, ◌||◌, List, [], ◌∷◌, ◌++◌, append-nil,
  append_assoc, Bytes, length, length-append, if◌then◌else◌, arith,
}
use txt.Base64.{concat}
use txt.Json.{Number, exceeds}
use txt.Errors.{value, raise, ◌>>=◌}
use txt.SharedUrl.{read_chunks, read_bounded_body, too_large}

-- The loop stops at the first chunk that takes the length over the limit, which is when the whole is
-- over it.
read_chunks_lem :
    (limit : ℕ) (body chunks : List Bytes) (total : ℕ)
    → total ≤ limit
    → read_chunks limit body total chunks ≡ (
        if ltb limit (total + length (concat body))
        then raise too_large
        else value (chunks ++ body))
unfolding read_chunks concat
read_chunks_lem limit [] chunks total h = rw append-nil (ground arith)
read_chunks_lem limit (chunk ∷ more) chunks total h = ground (
  arith,
  length-append chunk (concat more),
  append_assoc chunks (chunk ∷ []) more,
  read_chunks_lem limit more (chunks ++ chunk ∷ []) (total + length chunk),
)

-- Every body is read in full, chunk after chunk, exactly where neither its declared length nor its
-- length is over the limit, and is refused as too large where one of them is.
pub read_bounded_body_lem :
    (limit : ℕ) (declared : Number) (body : List Bytes)
    → read_bounded_body limit declared body ≡ (
        if exceeds declared limit || ltb limit (length (concat body))
        then raise too_large
        else value (concat body))
unfolding read_bounded_body
read_bounded_body_lem limit declared body =
    rw read_all (cases (exceeds declared limit) (ltb limit (length (concat body))))
  where
    read_all :
        read_chunks limit body 0 []
        ≡ (if ltb limit (length (concat body)) then raise too_large else value body)
    read_all =
        subst
          (λ n. read_chunks limit body 0 [] ≡ (if ltb limit n then raise too_large else value body))
          (omega arith) (read_chunks_lem limit body [] 0 (omega arith))

    cases :
        (a b : Bool)
        → (if a
            then raise too_large
            else (if b then raise too_large else value body) >>= λ chunks. value (concat chunks))
          ≡ (if a || b then raise too_large else value (concat body))
    cases true b = refl
    cases false true = refl
    cases false false = refl
