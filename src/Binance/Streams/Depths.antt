-- ===== src/Binance/Streams/Depths.antt =====
-- `legal_depth_limit` of crates/binance/src/endpoints.rs.
use mooncat.Prelude.{ℕ, ◌≤◌, ◌≡◌, ◌⊎◌, true, List, arith, All, any_of, ◌==◌}
use mooncat.Binance.Streams.{limits, legal_depth_limit}

-- The least of some depths, in ascending order, that is not below a request.
abbrev pub Least : ℕ → ℕ → List ℕ → Type 0
Least requested l ls = All (λ m. requested ≤ m → l ≤ m) ls

-- The depth that is asked of the venue is one that it serves: the least that is not below the request,
-- or its greatest if all are.
pub legal_depth_limit-Least :
    (requested : ℕ)
    → ((requested ≤ legal_depth_limit requested) ⊎ (legal_depth_limit requested ≡ 5000))
      × (any_of (λ m. m == legal_depth_limit requested) limits ≡ true)
      × Least requested (legal_depth_limit requested) limits
unfolding legal_depth_limit
legal_depth_limit-Least requested = ground arith
