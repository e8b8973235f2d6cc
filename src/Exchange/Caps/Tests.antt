-- ===== src/Exchange/Caps/Tests.antt =====
-- Concrete runs of crates/exchange/src/caps.rs.
use mooncat.Prelude.{◌≡◌, refl, List, [], ◌∷◌, none, some, arith}
use mooncat.Domain.Ids.{spot, linear_perp}
use mooncat.Exchange.Error.{unsupported}
use mooncat.Exchange.Caps.{
  contains, union, require, names, shown, is_empty, flag, no_caps, amend_in_place, limit, fok,
  all_known, binance_spot, binance_usdm,
}
use mooncat.Exchange.Caps.Granted.{Change, grant, revoke, changed_all, require-changed_all}

-- Spot does not amend, and says so; the perpetuals do.
amend_run :
    (require binance_spot amend_in_place "amend_order" spot ≡ some (unsupported "amend_order" spot))
    × (require binance_usdm amend_in_place "amend_order" linear_perp ≡ none)
unfolding require contains binance_spot binance_usdm union
amend_run = (refl, refl)

shown_run : shown (union limit fok) ≡ "limit | fok"
unfolding shown is_empty names contains union
shown_run = refl

-- Two flags never share a bit: the mask is that of 29 ones.
no_collision : all_known.mask ≡ 536870911
unfolding all_known union
no_collision = refl

abbrev declared : List Change
declared = grant 10 ∷ grant 3 ∷ revoke 10 ∷ grant 28 ∷ []

require-changed_all_example :
    require (changed_all no_caps declared) (flag 10) "amend_order" spot
    ≡ some (unsupported "amend_order" spot)
require-changed_all_example =
    require-changed_all 10 declared "amend_order" spot (omega arith)
      (omega arith, (omega arith, (omega arith, (omega arith, tt))))
