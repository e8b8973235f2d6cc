-- ===== src/Core/Config/Guarded.antt =====
-- What `Config::load` of crates/core/src/config.rs lets the core start with.
use mooncat.Prelude.{
  ◌≤◌, ◌≡◌, refl, subst, true, false, not, ◌&&◌, List, [], ◌∷◌, Option, none, some, inl, inr,
  String, arith, map, ltb, ltb-false→le, Bool-cases,
}
use mooncat.Core.Config.{
  Loaded, good, bad, Host, Tls, Config, FileConfig, then_do, none_in, no_tls, validate, missing_tls,
  gathered, assemble, byte_len, min_token_len, with_tickers, with_token, checked, token_of, bind_of,
  metrics_bind_of, tickers_of,
}

module _ (H : Host) where
  -- The files that a configuration with TLS names exist.
  abbrev pub HasFiles : Option Tls → Type 0
  HasFiles none = Unit
  HasFiles (some t) = (H.exists t.cert ≡ true) × (H.exists t.key ≡ true)

  -- What must hold before a socket is opened.
  pub record Guarded (c : Config H) : Type 0 where
    pub markets : none_in c.markets ≡ false
    pub tickers : none_in c.tickers ≡ false
    pub token : min_token_len ≤ byte_len c.token
    pub encrypted : H.is_loopback c.bind ≡ false → no_tls c.tls ≡ false
    pub files : HasFiles c.tls

  -- A value came of both steps.
  of_then {ℓ κ} :
      {A : Type ℓ} {B : Type κ} (x : Loaded A) (f : A → Loaded B) (b : B)
      → then_do x f ≡ good b
      → (a : A) × (x ≡ good a) × (f a ≡ good b)
  of_then (bad e) f b h = absurd (cc)
  of_then (good a) f b h = (a, refl, h)

  of_good : (c d : Config H) → good c ≡ good d → c ≡ d
  of_good c d h = cc

  missing_tls-HasFiles : (o : Option Tls) → missing_tls H o ≡ none → HasFiles o
  missing_tls-HasFiles none h = tt
  missing_tls-HasFiles (some t) h = ground arith

  validate-files :
      (c : Config H) (source : Option String)
      → validate H c source ≡ none
      → (none_in c.markets ≡ false)
        × (H.is_loopback c.bind ≡ false → no_tls c.tls ≡ false)
        × HasFiles c.tls
  unfolding validate
  validate-files c source h = elim (Bool-cases (none_in c.markets)) [
    | inl e ↦ absurd (let k = rw e at h in cc)
    | inr e ↦ elim (Bool-cases (not (H.is_loopback c.bind) && no_tls c.tls)) [
      | inl f ↦ absurd (let k = rw (e, f) at h in cc)
      | inr f ↦ (e, λ l. ground (arith, f, l), missing_tls-HasFiles c.tls (rw (e, f) at h))
    ]
  ]

  none_in-map : {A B : Type 0} (f : A → B) (xs : List A) → none_in (map f xs) ≡ none_in xs
  none_in-map f [] = refl
  none_in-map f (x ∷ xs) = refl

  -- What is gathered has a token and tickers.
  abbrev Gathered : Config H → Type 0
  Gathered c = (none_in c.tickers ≡ false) × (min_token_len ≤ byte_len c.token)

  with_tickers-Gathered :
      (file : FileConfig H) (tickers : List String) (token : String) (bind : H.Addr)
      (metrics_bind : Option H.Addr) (c : Config H)
      → ltb (byte_len token) min_token_len ≡ false
      → with_tickers H file tickers token bind metrics_bind ≡ good c
      → Gathered c
  with_tickers-Gathered file [] token bind metrics_bind c l h = absurd (cc)
  with_tickers-Gathered file (t ∷ ts) token bind metrics_bind c l h =
      subst Gathered (of_good _ c h) (refl, ltb-false→le (byte_len token) min_token_len l)

  with_token-Gathered :
      (file : FileConfig H) (args : List String) (token : String) (c : Config H)
      → with_token H file args token ≡ good c
      → Gathered c
  with_token-Gathered file args token c h = elim (Bool-cases (ltb (byte_len token) min_token_len)) [
    | inl short ↦ absurd (let k = rw short at h in cc)
    | inr long ↦
        let (bind, p, q) = of_then (bind_of H file.bind) _ c (rw long at h) in
        let (metrics_bind, r, e) = of_then (metrics_bind_of H file.metrics_bind) _ c q in
        with_tickers-Gathered file (tickers_of H args file.tickers) token bind metrics_bind c long e
  ]

  gathered-Gathered :
      (file : FileConfig H) (args : List String) (c : Config H)
      → gathered H file args ≡ good c
      → Gathered c
  unfolding gathered
  gathered-Gathered file args c h =
      let (token, p, q) = of_then (token_of H file.token (H.env "MOON_TOKEN")) _ c h in
      with_token-Gathered file args token c q

  -- A configuration that the core starts with serves markets and tickers, asks for a token of at least
  -- sixteen bytes, and has TLS unless it is bound to loopback; the files that TLS names are there.
  pub assemble-Guarded :
      (file : FileConfig H) (source : Option String) (args : List String) (c : Config H)
      → assemble H file source args ≡ good c
      → Guarded c
  unfolding assemble
  assemble-Guarded file source args c h =
      let (d, p, q) = of_then (gathered H file args) _ c h in
      of_checked d (validate H d source) refl p q
    where
      of_checked :
          (d : Config H) (o : Option String)
          → validate H d source ≡ o
          → gathered H file args ≡ good d
          → checked H d o ≡ good c
          → Guarded c
      of_checked d none v p q =
          let (m, e, f) = validate-files d source v in
          let (t, k) = gathered-Gathered file args d p in
          subst Guarded (of_good d c q)
            (record { markets = m; tickers = t; token = k; encrypted = e; files = f })
      of_checked d (some e) v p q = absurd (cc)
