-- ===== src/Wire/Session/Tests.antt =====
-- Concrete runs of a session (crates/wire/src/session.rs).
use mooncat.Prelude.{◌≡◌, ◌↔◌, refl, true, false, List, [], ◌∷◌}
use mooncat.Prelude.Int.{pos}
use mooncat.Domain.Time.{from_millis}
use mooncat.Domain.Event.{Event, account, balances, is_private}
use mooncat.Domain.Tests.{D}
use mooncat.Wire.Message.{ClientMsg, hello, ping}
use mooncat.Wire.Session.{Auth, new, verify, wants, differences}
use mooncat.Wire.Session.Privacy.{verify_iff, Presented, run, wants_private_iff}

abbrev secret : Auth
secret = record { token = 104 ∷ 111 ∷ 114 ∷ 115 ∷ 101 ∷ [] }

verify_run : verify secret (104 ∷ 111 ∷ 114 ∷ 115 ∷ 101 ∷ []) ≡ true
unfolding verify differences
verify_run = refl

verify_wrong_run : verify secret (104 ∷ 111 ∷ 114 ∷ 115 ∷ 102 ∷ []) ≡ false
unfolding verify differences
verify_wrong_run = refl

verify_iff_example :
    (verify secret (104 ∷ 111 ∷ 114 ∷ 115 ∷ 102 ∷ []) ≡ true)
    ↔ (secret.token ≡ 104 ∷ 111 ∷ 114 ∷ 115 ∷ 102 ∷ [])
verify_iff_example = verify_iff secret (104 ∷ 111 ∷ 114 ∷ 115 ∷ 102 ∷ [])

abbrev balance_event : Event D
balance_event = record { at = from_millis (pos 1); payload = account (balances []) }

-- A wrong token, then the right one with an old protocol, then a ping.
abbrev guesses : List ClientMsg
guesses = hello 2 (104 ∷ []) ∷ hello 1 secret.token ∷ ping 7 ∷ []

wants_private_iff_example :
    (wants D (run D secret new guesses) balance_event ≡ true) ↔ Presented secret guesses
wants_private_iff_example =
    wants_private_iff D secret guesses balance_event (unfold is_private in refl)
