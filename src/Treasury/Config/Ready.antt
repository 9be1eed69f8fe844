-- ===== src/Treasury/Config/Ready.antt =====
-- What a configuration without errors promises, and the ranges of every configuration that is read.
use dailydraft_fun.Prelude.{
  ℕ, ◌≤◌, ◌<◌, ◌≡◌, ◌≢◌, refl, ap, ◌∙◌, Bool, true, false, not, Option, none, some, List, [], ◌∷◌,
  arith, ◌==◌,
}
use dailydraft_fun.Js.Text.{Text, text, text_eq_iff}
use dailydraft_fun.Treasury.Types.{Config}
use dailydraft_fun.Treasury.Config.{
  Environment, bounded_integer, read_config, ConfigError, is_some_text, is_key, signer_differs,
  authority_shared, push_if, config_errors,
}

push_if-nil :
    (b : Bool) (e : ConfigError) (es : List ConfigError)
    → push_if b e es ≡ []
    → (b ≡ false) × (es ≡ [])
push_if-nil true e es h = cc
push_if-nil false e es h = (refl, h)

-- A house that may take exposure: enabled on devnet, one hot wallet that funds, an authority apart
-- from it, and limits that are set.
pub record IsReady (is_public_key : Text → Bool) (c : Config) : Type 0 where
  pub wallet : Text
  pub authority : Text
  pub token_account : Text
  pub mint : Text
  pub enabled : c.enabled ≡ true
  pub network : c.network ≡ some (text "solana-devnet")
  pub house_wallet : c.house_wallet ≡ some wallet
  pub funding_signer : c.funding_signer ≡ some wallet
  pub withdrawal_authority : c.withdrawal_authority ≡ some authority
  pub separated : authority ≢ wallet
  pub has_token_account : c.token_account ≡ some token_account
  pub has_mint : c.usdc_mint ≡ some mint
  pub keys :
      (is_public_key wallet ≡ true)
      × (is_public_key authority ≡ true)
      × (is_public_key token_account ≡ true)
      × (is_public_key mint ≡ true)
  pub exposure : 0 < c.max_total_exposure
  pub loss : 0 < c.daily_loss_limit
  pub liquidity : 0 < c.minimum_liquidity

is_key→some :
    (is_public_key : Text → Bool) (o : Option Text)
    → not (is_key is_public_key o) ≡ false
    → (t : Text) × (o ≡ some t) × (is_public_key t ≡ true) × (t ≢ [])
unfolding is_key
is_key→some k none h = cc
is_key→some k (some []) h = cc
is_key→some k (some (c ∷ t)) h = (c ∷ t, refl, ground arith, λ e. cc)

is_some_text→eq : (t : Text) (o : Option Text) → not (is_some_text t o) ≡ false → o ≡ some t
unfolding is_some_text
is_some_text→eq t none h = cc
is_some_text→eq t (some s) h = ground (arith, text_eq_iff s t)

same_signer :
    (house signer : Text)
    → house ≢ []
    → signer ≢ []
    → signer_differs (some house) (some signer) ≡ false
    → signer ≡ house
unfolding signer_differs
same_signer [] signer h k e = absurd (h refl)
same_signer (c ∷ house) [] h k e = absurd (k refl)
same_signer (c ∷ house) (d ∷ signer) h k e = ground (arith, text_eq_iff (c ∷ house) (d ∷ signer))

apart :
    (authority house : Text) (signer : Option Text)
    → authority ≢ []
    → authority_shared (some authority) (some house) signer ≡ false
    → authority ≢ house
unfolding authority_shared is_some_text
apart [] house signer h e = absurd (h refl)
apart (c ∷ authority) house signer h e = λ same. ground (arith, text_eq_iff house (c ∷ authority))

-- No error was pushed, so every test of the code came out false.
config_errors-nil :
    (k : Text → Bool) (c : Config)
    → config_errors k c ≡ []
    → (not c.enabled ≡ false)
      × (not (is_some_text (text "solana-devnet") c.network) ≡ false)
      × (not (is_key k c.house_wallet) ≡ false)
      × (not (is_key k c.funding_signer) ≡ false)
      × (not (is_key k c.withdrawal_authority) ≡ false)
      × (not (is_key k c.token_account) ≡ false)
      × (not (is_key k c.usdc_mint) ≡ false)
      × (signer_differs c.house_wallet c.funding_signer ≡ false)
      × (authority_shared c.withdrawal_authority c.house_wallet c.funding_signer ≡ false)
      × ((c.max_total_exposure == 0) ≡ false)
      × ((c.daily_loss_limit == 0) ≡ false)
      × ((c.minimum_liquidity == 0) ≡ false)
unfolding config_errors
config_errors-nil k c h =
    let (t₁, h₁) = push_if-nil _ _ _ h in
    let (t₂, h₂) = push_if-nil _ _ _ h₁ in
    let (t₃, h₃) = push_if-nil _ _ _ h₂ in
    let (t₄, h₄) = push_if-nil _ _ _ h₃ in
    let (t₅, h₅) = push_if-nil _ _ _ h₄ in
    let (t₆, h₆) = push_if-nil _ _ _ h₅ in
    let (t₇, h₇) = push_if-nil _ _ _ h₆ in
    let (t₈, h₈) = push_if-nil _ _ _ h₇ in
    let (t₉, h₉) = push_if-nil _ _ _ h₈ in
    let (t₁₀, h₁₀) = push_if-nil _ _ _ h₉ in
    let (t₁₁, h₁₁) = push_if-nil _ _ _ h₁₀ in
    (t₁, t₂, t₃, t₄, t₅, t₆, t₇, t₈, t₉, t₁₀, t₁₁, (push_if-nil _ _ _ h₁₁).0)

-- A configuration with no error is ready.
pub config_errors-IsReady :
    (is_public_key : Text → Bool) (c : Config)
    → config_errors is_public_key c ≡ []
    → IsReady is_public_key c
config_errors-IsReady k c h =
    let (
      enabled, network, house, signer, authority, account, mint, match, split, exposure, loss,
      liquidity,
    ) =
      config_errors-nil k c h in
    let (w, w_eq, w_key, w_some) = is_key→some k c.house_wallet house in
    let (s, s_eq, _, s_some) = is_key→some k c.funding_signer signer in
    let (a, a_eq, a_key, a_some) = is_key→some k c.withdrawal_authority authority in
    let (t, t_eq, t_key, _) = is_key→some k c.token_account account in
    let (m, m_eq, m_key, _) = is_key→some k c.usdc_mint mint in
    record {
      wallet = w;
      authority = a;
      token_account = t;
      mint = m;
      enabled = ground (arith, enabled);
      network = is_some_text→eq _ c.network network;
      house_wallet = w_eq;
      funding_signer = s_eq ∙ ap some (same_signer w s w_some s_some (rw (w_eq, s_eq) at match));
      withdrawal_authority = a_eq;
      separated = apart a w c.funding_signer a_some (rw (a_eq, w_eq) at split);
      has_token_account = t_eq;
      has_mint = m_eq;
      keys = (w_key, a_key, t_key, m_key);
      exposure = ground (arith, exposure);
      loss = ground (arith, loss);
      liquidity = ground (arith, liquidity);
    }

bounded_integer_range :
    (value : Option Text) (fallback minimum maximum : ℕ)
    → minimum ≤ fallback
    → fallback ≤ maximum
    → (minimum ≤ bounded_integer value fallback minimum maximum)
      × (bounded_integer value fallback minimum maximum ≤ maximum)
unfolding bounded_integer
bounded_integer_range none fallback minimum maximum h k = (h, k)
bounded_integer_range (some []) fallback minimum maximum h k = (h, k)
bounded_integer_range (some (c ∷ t)) fallback minimum maximum h k = ground arith

-- Whatever the environment holds, the counts and the age that are read lie in their ranges.
pub read_config_ranges :
    (env : Environment)
    → let c = read_config env in
      (1 ≤ c.max_active_per_wallet)
      × (c.max_active_per_wallet ≤ 20)
      × (1 ≤ c.max_concurrent_per_tier)
      × (c.max_concurrent_per_tier ≤ 100)
      × (30_000 ≤ c.snapshot_max_age_ms)
      × (c.snapshot_max_age_ms ≤ 3_600_000)
unfolding read_config
read_config_ranges env = omega (
  arith,
  bounded_integer_range env.max_active_per_wallet 1 1 20 (omega arith) (omega arith),
  bounded_integer_range env.max_concurrent_per_tier 1 1 100 (omega arith) (omega arith),
  bounded_integer_range env.snapshot_max_age_seconds 300 30 3_600 (omega arith) (omega arith),
)
