-- ===== src/Shares/Reading.antt =====
-- worker/sharesEndpoint.ts: the listing only reads.
use txt.Prelude.{refl}
use txt.Effects.Reading.{IsReadOnly}
use txt.Database.Shares.{select_shares}
use txt.Shares.{handle_get_shares}

pub handle_get_shares-IsReadOnly : IsReadOnly handle_get_shares
unfolding handle_get_shares select_shares
handle_get_shares-IsReadOnly = (λ w. refl, λ w. tt)
