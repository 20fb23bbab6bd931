-- ===== src/Commands/Config/Bounds.antt =====
-- What the checks of cmd/api/main.go leave of the configuration.
use wavelen.Prelude.{
  ℕ, suc, ◌≤◌, ℤ, pos, lez, pos_of_not_lt, pos_of_not_le, Bytes, codes, Bool, true, false, ◌||◌, [],
  ◌==◌, bytes_eq, ==_iff, Result, ok, err, and_then, on_err, Result-cases, Bool-cases, ◌≡◌, ◌⊎◌,
  inl, inr, refl, ap, sym, subst, leb, leb→le, ◌∙◌, arith,
}
use wavelen.Errors.{Error, config}
use wavelen.Http.Static.{dev}
use wavelen.Commands.Dsn.{Environment, url_of, dsn}
use wavelen.Commands.Config.{
  Libraries, ServerConfig, HandlerConfig, Tracer, WebFs, embedded, from_disk, refuse_if,
  int_from_env, duration_from_env, server_config, handler_config, tracer_config, web_fs,
  pool_config, Started, prepare,
}

-- A value with a property, or a configuration error.
module _ {A : Type 0} where
  abbrev pub Checked : (A → Type 0) → Result Error A → Type 0
  Checked P r = ((a : A) × (r ≡ ok a) × P a) ⊎ (r ≡ err config)

  Checked-map :
      (P Q : A → Type 0) (r : Result Error A) → ((a : A) → P a → Q a) → Checked P r → Checked Q r
  Checked-map P Q r f (inl (a, e, p)) = inl (a, e, f a p)
  Checked-map P Q r f (inr e) = inr e

  accepted : (P : A → Type 0) (a : A) → P a → Checked P (ok a)
  accepted P a p = inl (a, refl, p)

module _ {A B : Type 0} where
  Checked-and_then :
      (P : A → Type 0) (Q : B → Type 0) (r : Result Error A) (f : A → Result Error B)
      → Checked P r
      → ((a : A) → P a → Checked Q (f a))
      → Checked Q (and_then r f)
  Checked-and_then P Q r f (inl (a, e, p)) k = subst (λ x. Checked Q (and_then x f)) (sym e) (k a p)
  Checked-and_then P Q r f (inr e) k = inr (ap (λ x. and_then x f) e)

refuse_if-Checked : (b : Bool) → Checked (λ _. b ≡ false) (refuse_if b)
unfolding refuse_if
refuse_if-Checked true = inr refl
refuse_if-Checked false = inl (tt, refl, refl)

abbrev Any : ℤ → Type 0
Any z = Unit {0}

-- At least m.
abbrev pub AtLeast : ℕ → ℤ → Type 0
AtLeast m z = (n : ℕ) × (z ≡ pos n) × (m ≤ n)

-- From m to k.
abbrev pub Between : ℕ → ℕ → ℤ → Type 0
Between m k z = (n : ℕ) × (z ≡ pos n) × (m ≤ n) × (n ≤ k)

Between-of : (m k : ℕ) (z : ℤ) → AtLeast m z → lez z (pos k) ≡ true → Between m k z
Between-of m k z (n, e, le) h = (n, e, le, leb→le n k (ap (λ y. lez y (pos k)) (sym e) ∙ h))

below : (k n : ℕ) → leb k n ≡ false → suc n ≤ k
below k n h = ground arith

Between-below : (m k : ℕ) (z : ℤ) → AtLeast m z → lez (pos (suc k)) z ≡ false → Between m k z
Between-below m k z (n, e, le) h =
    (n, e, le, omega (arith, below (suc k) n (ap (λ y. lez (pos (suc k)) y) (sym e) ∙ h)))

abbrev pub IsServerConfig : ServerConfig → Type 0
IsServerConfig c = Between 1 65535 c.port × AtLeast 1 c.shutdown_timeout

abbrev pub IsHandlerConfig : HandlerConfig → Type 0
IsHandlerConfig c =
    AtLeast 1 c.user_color_quota
    × AtLeast 1 c.user_collection_quota
    × AtLeast 1 c.auth_token_ttl
    × AtLeast 0 c.auth_concur_limit
    × Between 0 4999999999 c.auth_concur_wait

abbrev pub IsTracer : Tracer → Type 0
IsTracer t = AtLeast 0 t.slow_query × AtLeast 0 t.slow_acquire

module _ (libs : Libraries) (env : Environment) where
  int_from_env-Checked : (name : Bytes) (def : ℤ) → Checked Any (int_from_env libs env name def)
  unfolding int_from_env
  int_from_env-Checked name def = elim (Bool-cases (env name == [])) [
    | inl unset ↦ inl (def, rw unset refl, tt)
    | inr given ↦ elim (Result-cases (libs.atoi (env name))) [
      | inl (z, e) ↦ inl (z, rw (given, e) refl, tt)
      | inr (t, e) ↦ inr (rw (given, e) refl)
    ]
  ]

  duration_from_env-Checked :
      (name : Bytes) (def : ℤ) → Checked Any (duration_from_env libs env name def)
  unfolding duration_from_env
  duration_from_env-Checked name def = elim (Bool-cases (env name == [])) [
    | inl unset ↦ inl (def, rw unset refl, tt)
    | inr given ↦ elim (Result-cases (libs.parse_duration (env name))) [
      | inl (z, e) ↦ inl (z, rw (given, e) refl, tt)
      | inr (t, e) ↦ inr (rw (given, e) refl)
    ]
  ]

  server_config-Checked : Checked IsServerConfig (server_config libs env)
  unfolding server_config
  server_config-Checked = Checked-and_then Any _ _ _ (int_from_env-Checked _ _) λ port _.
      Checked-and_then Any _ _ _ (duration_from_env-Checked _ _) λ timeout _.
        Checked-and_then _ _ _ _ (refuse_if-Checked _) λ _ p.
          Checked-and_then _ _ _ _ (refuse_if-Checked _) λ _ t. accepted _ _ (
            Between-of 1 65535 port (pos_of_not_le 0 port (ground arith)) (ground arith),
            pos_of_not_le 0 timeout t,
          )

  tracer_config-Checked : Checked IsTracer (tracer_config libs env)
  unfolding tracer_config
  tracer_config-Checked = Checked-and_then Any _ _ _ (duration_from_env-Checked _ _) λ query _.
      Checked-and_then _ _ _ _ (refuse_if-Checked _) λ _ q.
        Checked-and_then Any _ _ _ (duration_from_env-Checked _ _) λ acquire _.
          Checked-and_then _ _ _ _ (refuse_if-Checked _)
            λ _ a. accepted _ _ (pos_of_not_lt 0 query q, pos_of_not_lt 0 acquire a)

  handler_config-Checked : Checked IsHandlerConfig (handler_config libs env)
  unfolding handler_config
  handler_config-Checked = Checked-and_then Any _ _ _ (int_from_env-Checked _ _) λ colors _.
      Checked-and_then _ _ _ _ (refuse_if-Checked _) λ _ c.
        Checked-and_then Any _ _ _ (int_from_env-Checked _ _) λ collections _.
          Checked-and_then _ _ _ _ (refuse_if-Checked _) λ _ k.
            Checked-and_then Any _ _ _ (duration_from_env-Checked _ _) λ ttl _.
              Checked-and_then _ _ _ _ (refuse_if-Checked _) λ _ t.
                Checked-and_then Any _ _ _ (int_from_env-Checked _ _) λ limit _.
                  Checked-and_then _ _ _ _ (refuse_if-Checked _) λ _ l.
                    Checked-and_then Any _ _ _ (duration_from_env-Checked _ _) λ wait _.
                      Checked-and_then _ _ _ _ (refuse_if-Checked _) λ _ w. accepted _ _ (
                        pos_of_not_le 0 colors c,
                        pos_of_not_le 0 collections k,
                        pos_of_not_le 0 ttl t,
                        pos_of_not_lt 0 limit l,
                        Between-below 0 4999999999 wait (pos_of_not_lt 0 wait (ground arith))
                            (ground arith),
                      )

  -- Files from the disk are for a development build only.
  abbrev pub IsWebFs : Bytes → WebFs → Type 0
  IsWebFs build embedded = Unit {0}
  IsWebFs build (from_disk dir) = (build ≡ dev) × (libs.has_index dir ≡ true)

  web_fs-Checked : (build : Bytes) → Checked (IsWebFs build) (web_fs libs env build)
  unfolding web_fs
  web_fs-Checked build = elim (Bool-cases (env (codes "WEB_DIR") == [])) [
    | inl unset ↦ inl (embedded, rw unset refl, tt)
    | inr given ↦ elim (Bool-cases (build == dev)) [
      | inr release ↦ inr (rw (given, release) refl)
      | inl development ↦ elim (Bool-cases (libs.has_index (env (codes "WEB_DIR")))) [
        | inl there ↦ inl (
          from_disk (env (codes "WEB_DIR")),
          rw (given, development, there) refl,
          ((==_iff build dev).0 development, there),
        )
        | inr missing ↦ inr (rw (given, development, missing) refl)
      ]
    ]
  ]

  -- The credentials of the database are set.
  abbrev pub HasCredentials : Type 0
  HasCredentials =
      ((env (codes "POSTGRES_USER") == []) ≡ false)
      × ((env (codes "POSTGRES_PASSWORD") == []) ≡ false)

  dsn-Checked :
      Checked (λ url. HasCredentials) (on_err (λ e. config) (dsn libs.urls env (codes "postgres")))
  unfolding dsn
  dsn-Checked =
      elim (Bool-cases
        (env (codes "POSTGRES_USER") == [] || env (codes "POSTGRES_PASSWORD") == [])) [
          | inl missing ↦ inr (rw missing refl)
          | inr set ↦ inl (
            libs.urls.render (url_of libs.urls env (codes "postgres")),
            rw set refl,
            (ground arith, ground arith),
          )
        ]

  parsed-Checked :
      (url : Bytes) → Checked (λ _. Unit {0}) (on_err (λ text. config) (libs.parse_pool_config url))
  parsed-Checked url = elim (Result-cases (libs.parse_pool_config url)) [
    | inl (u, e) ↦ inl (u, rw e refl, tt)
    | inr (t, e) ↦ inr (rw e refl)
  ]

  pool_config-Checked : Checked (λ t. IsTracer t × HasCredentials) (pool_config libs env)
  unfolding pool_config
  pool_config-Checked = Checked-and_then _ _ _ _ dsn-Checked λ url credentials.
      Checked-and_then _ _ _ _ (parsed-Checked url)
        λ _ _. Checked-map IsTracer _ _ (λ t p. (p, credentials)) tracer_config-Checked

  -- A start that is ready: every setting is in its bounds.
  abbrev pub IsReady : Bytes → Started libs env → Type 0
  IsReady build s =
      IsServerConfig s.server
      × IsHandlerConfig s.handlers
      × IsWebFs build s.files
      × IsTracer s.tracer
      × HasCredentials

  -- Whatever the environment holds, the start ends with a configuration error, or the server is
  -- started with a port from 1 to 65535, positive quotas and lifetimes, a limit and thresholds that
  -- are not negative, a wait below 5 seconds, files from the disk only in a development build, and
  -- the credentials of the database.
  pub prepare-IsReady : (build : Bytes) → Checked (IsReady build) (prepare libs env build)
  unfolding prepare
  prepare-IsReady build = Checked-and_then _ _ _ _ server_config-Checked λ server s.
      Checked-and_then _ _ _ _ handler_config-Checked λ handlers h.
        Checked-and_then _ _ _ _ (web_fs-Checked build) λ files f.
          Checked-and_then _ _ _ _ pool_config-Checked λ tracer t. accepted _ _ (s, h, f, t.0, t.1)
