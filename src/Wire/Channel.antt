-- ===== src/Wire/Channel.antt =====
-- `Channel` of crates/wire/src/envelope.rs: a channel number, with what the protocol fixes for it.
use mooncat.Prelude.{ℕ, Bool, not, ◌||◌, leb, ◌==◌, if◌then◌else◌}

pub record Channel : Type 0 where
  pub number : ℕ

abbrev pub control : Channel
control = record { number = 0 }

abbrev pub account : Channel
account = record { number = 1 }

abbrev pub command : Channel
command = record { number = 2 }

abbrev pub book : Channel
book = record { number = 3 }

abbrev pub tape : Channel
tape = record { number = 4 }

abbrev pub candles : Channel
candles = record { number = 5 }

abbrev pub reference : Channel
reference = record { number = 6 }

abbrev pub settings : Channel
settings = record { number = 7 }

abbrev pub strategy : Channel
strategy = record { number = 8 }

abbrev pub report : Channel
report = record { number = 9 }

abbrev pub alerts : Channel
alerts = record { number = 10 }

abbrev pub arb : Channel
arb = record { number = 11 }

abbrev pub highest_known : ℕ
highest_known = 11

unfoldable pub is_known : Channel → Bool
is_known c = leb c.number highest_known

-- Writer priority class, 0 being the most urgent.
unfoldable pub class : Channel → ℕ
class c =
    if c.number == 0
    then 0
    else if c.number == 1 || c.number == 2
    then 1
    else if c.number == 3
    then 2
    else if c.number == 4 || c.number == 5 || c.number == 11
    then 3
    else 4

-- Whether a gap in the channel can be replayed after a reconnect.
unfoldable pub resumable : Channel → Bool
resumable c = not (c.number == 0 || c.number == 3 || c.number == 11 || c.number == 9)
