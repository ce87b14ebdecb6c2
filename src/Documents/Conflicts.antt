-- ===== src/Documents/Conflicts.antt =====
-- worker/documentsEndpoint.ts: of two writes at the same version, the second is refused.
use txt.Prelude.{
  ℕ, ◌+◌, ◌≤◌, ◌≡◌, refl, sym, ◌∙◌, subst, List, [], ◌∷◌, map, ◌==◌, true, false, any, arith, Text,
}
use txt.Json.{Fields}
use txt.Effects.{World, Outcome, returned, Returns, run}
use txt.Effects.Runs.{Returns-map}
use txt.Http.{Response, accepted}
use txt.Platform.{Platform}
use txt.Database.{Document}
use txt.Database.Ownership.{IsOwned, count}
use txt.Database.DocumentLaws.{HasDistinctIds, document_ids}
use txt.Documents.{AccessWrite, clear, first, update, parse_patch, handle_patch_document_access}
use txt.Documents.Ownership.{handle_patch_document_access-IsOwned}
use txt.Documents.Views.{
  AccessView, view, views, applies, written, write_views, write_status, write_views-none,
}
use txt.Documents.Refinement.{handle_patch_document_access-Refines}

view_ids : List AccessView → List ℕ
view_ids = map (λ v. v.id)

view_ids-views : (ds : List Document) → view_ids (map view ds) ≡ document_ids ds
unfolding view_ids document_ids
view_ids-views [] = refl
view_ids-views (d ∷ ds) = λ i. d.id ∷ view_ids-views ds i

applies-count :
    (id version : ℕ) (write : AccessWrite) (vs : List AccessView)
    → any (applies id version write) vs ≡ true
    → 1 ≤ count id (view_ids vs)
unfolding view_ids
applies-count id version write [] h = cc
applies-count id version write (v ∷ vs) h = ground (arith, applies-count id version write vs)

absent-applies :
    (id version : ℕ) (a b : AccessWrite) (vs : List AccessView)
    → count id (view_ids vs) ≡ 0
    → any (applies id version b) (write_views id version a vs) ≡ false
unfolding view_ids
absent-applies id version a b [] h = refl
absent-applies id version a b (v ∷ vs) h = ground (arith, absent-applies id version a b vs)

written-version : (write : AccessWrite) (v : AccessView) → (written write v).version ≡ v.version + 1
written-version clear v = refl
written-version (first blob wrapped) v = refl
written-version (update blob) v = refl

-- A write moves the one document of its id past the version.
applied_once :
    (id version : ℕ) (a b : AccessWrite) (vs : List AccessView)
    → count id (view_ids vs) ≤ 1
    → any (applies id version a) vs ≡ true
    → any (applies id version b) (write_views id version a vs) ≡ false
unfolding view_ids
applied_once id version a b [] u h = refl
applied_once id version a b (v ∷ vs) u h = ground (
  arith,
  applied_once id version a b vs,
  absent-applies id version a b vs,
  applies-count id version a vs,
  written-version a v,
)

written-id : (write : AccessWrite) (v : AccessView) → (written write v).id ≡ v.id
written-id clear v = refl
written-id (first blob wrapped) v = refl
written-id (update blob) v = refl

still_there :
    (id version : ℕ) (a : AccessWrite) (vs : List AccessView)
    → any (applies id version a) vs ≡ true
    → any (λ v. v.id == id) (write_views id version a vs) ≡ true
still_there id version a [] h = cc
still_there id version a (v ∷ vs) h = ground (arith, still_there id version a vs, written-id a v)

status_200 :
    (id version : ℕ) (write : AccessWrite) (vs : List AccessView)
    → write_status id version write vs ≡ 200
    → any (applies id version write) vs ≡ true
status_200 id version write vs h = ground arith

-- What a program that is known to have returned establishes.
returned_value :
    {A : Type 0} (P : A → World → Type 0) (o : Outcome A × World) (a : A) (w : World)
    → o ≡ (returned a, w)
    → Returns P o
    → P a w
returned_value P o a w e h = subst (Returns P) e h

-- After a PATCH that wrote a document at a version, any other PATCH of the document at the same
-- version, the same write again included, is answered 412 and changes no document's state: of two
-- clients that start from one version, one wins and the other learns of it.
pub handle_patch_document_access-IsExclusive :
    (platform : Platform) (id_a id_b : Text) (body_a body_b : Fields) (id version now_a now_b : ℕ)
    (a b : AccessWrite) (w after : World) (response : Response)
    → parse_patch (platform.number_of id_a) body_a ≡ accepted (id, version, a)
    → parse_patch (platform.number_of id_b) body_b ≡ accepted (id, version, b)
    → IsOwned w.db
    → HasDistinctIds w.db
    → run (handle_patch_document_access platform id_a body_a now_a) w ≡ (returned response, after)
    → response.status ≡ 200
    → Returns
        (λ refused end. (refused.status ≡ 412) × (views end.db ≡ views after.db))
        (run (handle_patch_document_access platform id_b body_b now_b) after)
handle_patch_document_access-IsExclusive platform id_a id_b body_a body_b id version now_a now_b a b
      w after response ea eb v u ran ok_status =
    Returns-map _ _ (run (handle_patch_document_access platform id_b body_b now_b) after)
      (λ refused end (status, same).
        (status ∙ refused_status, same ∙ write_views-none id version b (views after.db) no_match))
      (handle_patch_document_access-Refines platform id_b body_b id version b now_b after eb
        owned_after)
  where
    first_run :
        (response.status ≡ write_status id version a (views w.db))
        × (views after.db ≡ write_views id version a (views w.db))
    first_run =
        returned_value _ _ response after ran
          (handle_patch_document_access-Refines platform id_a body_a id version a now_a w ea v)

    owned_after : IsOwned after.db
    owned_after =
        returned_value _ _ response after ran
          (handle_patch_document_access-IsOwned platform id_a body_a now_a w v u)

    hit : any (applies id version a) (views w.db) ≡ true
    hit = status_200 id version a (views w.db) (sym first_run.0 ∙ ok_status)

    no_match : any (applies id version b) (views after.db) ≡ false
    no_match = rw first_run.1 (
        applied_once id version a b (views w.db)
          (rw (view_ids-views w.db.documents) (u.distinct id)) hit)

    refused_status : write_status id version b (views after.db) ≡ 412
    refused_status = rw (no_match, first_run.1, still_there id version a (views w.db) hit) refl
