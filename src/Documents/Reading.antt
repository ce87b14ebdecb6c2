-- ===== src/Documents/Reading.antt =====
-- worker/documentsEndpoint.ts: the two GET handlers of a document only read.
use txt.Prelude.{ℕ, refl, Text}
use txt.Effects.Reading.{IsReadOnly}
use txt.Http.{Checked, rejected, accepted}
use txt.Platform.{Platform}
use txt.Documents.{
  get_document, get_content, select_document, select_content, document_id, handle_get_document,
  handle_get_document_content,
}

get_document-IsReadOnly : (id : Checked ℕ) → IsReadOnly (get_document id)
unfolding get_document select_document
get_document-IsReadOnly (rejected r) = tt
get_document-IsReadOnly (accepted id) = (λ w. refl, λ w. tt)

get_content-IsReadOnly : (id : Checked ℕ) → IsReadOnly (get_content id)
unfolding get_content select_content
get_content-IsReadOnly (rejected r) = tt
get_content-IsReadOnly (accepted id) = (λ w. refl, λ w. tt)

pub handle_get_document-IsReadOnly :
    (platform : Platform) (id_param : Text) → IsReadOnly (handle_get_document platform id_param)
unfolding handle_get_document
handle_get_document-IsReadOnly platform id_param =
    get_document-IsReadOnly (document_id (platform.number_of id_param))

pub handle_get_document_content-IsReadOnly :
    (platform : Platform) (id_param : Text)
    → IsReadOnly (handle_get_document_content platform id_param)
unfolding handle_get_document_content
handle_get_document_content-IsReadOnly platform id_param =
    get_content-IsReadOnly (document_id (platform.number_of id_param))
