-- ===== src/Bookmarks/Reading.antt =====
-- worker/bookmarksEndpoint.ts: the two GET handlers only read.
use txt.Prelude.{ℕ, refl, Option, Text}
use txt.Effects.Reading.{IsReadOnly}
use txt.Http.{Checked, rejected, accepted}
use txt.Platform.{Platform}
use txt.Database.Bookmarks.{select_bookmarks, select_summary}
use txt.Bookmarks.{get_bookmarks, handle_get_bookmarks, handle_get_bookmarks_summary}

get_bookmarks-IsReadOnly : (id : Checked ℕ) → IsReadOnly (get_bookmarks id)
unfolding get_bookmarks select_bookmarks
get_bookmarks-IsReadOnly (rejected r) = tt
get_bookmarks-IsReadOnly (accepted id) = (λ w. refl, λ w. tt)

pub handle_get_bookmarks-IsReadOnly :
    (platform : Platform) (param : Option Text) → IsReadOnly (handle_get_bookmarks platform param)
unfolding handle_get_bookmarks
handle_get_bookmarks-IsReadOnly platform param = get_bookmarks-IsReadOnly _

pub handle_get_bookmarks_summary-IsReadOnly : IsReadOnly handle_get_bookmarks_summary
unfolding handle_get_bookmarks_summary select_summary
handle_get_bookmarks_summary-IsReadOnly = (λ w. refl, λ w. tt)
