-- ===== src/Domain/Registry.antt =====
-- crates/domain/src/registry.rs: short identifiers for instruments, within one epoch. A `SymbolId` is a
-- number below 2^32.
pub mod Permanent
use mooncat.Prelude.{
  ℕ, zero, suc, ◌+◌, ◌%◌, ◌≡◌, Bool, true, false, List, [], ◌∷◌, ◌++◌, Option, none, some, String,
  ◌==◌, if◌then◌else◌, length, get_elem?, u32_mod,
}
use mooncat.Prelude.Assoc.{get, put, string_eq}
use mooncat.Domain.Ids.{Symbol, key}

-- `Result<&Symbol, ResolveError>`.
pub data Resolution : Type 0 where
  found : Symbol → Resolution
  foreign_epoch : ℕ → ℕ → ℕ → Resolution
  unknown : ℕ → Resolution

-- The index into `symbols` is the id.
pub record SymbolRegistry : Type 0 where
  pub epoch : ℕ
  pub symbols : List Symbol
  pub by_key : List (String × ℕ)

unfoldable pub new : ℕ → SymbolRegistry
new epoch = record { epoch = epoch; symbols = []; by_key = [] }

abbrev pub intern_found : SymbolRegistry → Symbol → Option ℕ → SymbolRegistry × ℕ
intern_found r s (some id) = (r, id)
intern_found r s none = (
  record r {
    symbols = r.symbols ++ s ∷ [];
    by_key = put r.by_key (key s) (length r.symbols % u32_mod);
  },
  length r.symbols % u32_mod,
)

-- Id for a symbol, assigning one if it has none.
unfoldable pub intern : SymbolRegistry → Symbol → SymbolRegistry × ℕ
intern r s = intern_found r s (get r.by_key (key s))

-- Id for a symbol, without assigning one.
unfoldable pub lookup : SymbolRegistry → Symbol → Option ℕ
lookup r s = get r.by_key (key s)

abbrev pub known_or : Option Symbol → ℕ → Resolution
known_or none id = unknown id
known_or (some s) id = found s

-- Resolve an id issued under `their_epoch`.
unfoldable pub resolve : SymbolRegistry → ℕ → ℕ → Resolution
resolve r id their_epoch =
    if their_epoch == r.epoch
    then known_or (get_elem? r.symbols id) id
    else foreign_epoch id their_epoch r.epoch

abbrev pub numbered_from : ℕ → List Symbol → List (Symbol × ℕ)
numbered_from n [] = []
numbered_from n (s ∷ ss) = (s, n) ∷ numbered_from (suc n) ss

-- Everything issued so far.
unfoldable pub assignments : SymbolRegistry → List (Symbol × ℕ)
assignments r = numbered_from 0 r.symbols
