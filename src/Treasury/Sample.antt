-- ===== src/Treasury/Sample.antt =====
-- Concrete settings and tables of the treasury for the tests.
use dailydraft_fun.Prelude.{Bool, true, none, some, []}
use dailydraft_fun.Js.Text.{Text, text}
use dailydraft_fun.Treasury.Types.{Snapshot, Database}
use dailydraft_fun.Treasury.Config.{Environment}

abbrev pub any_key : Text → Bool
any_key _ = true

abbrev pub env : Environment
env = record {
  allowed_dispositions = some (text "hold, Buyback,hold");
  daily_loss_limit_usdc_micro = some (text "500");
  enabled = some (text "true");
  devnet_funding_signer = some (text "hot");
  devnet_wallet = some (text " hot");
  max_active_per_wallet = some (text "2");
  max_concurrent_per_tier = none;
  max_total_exposure_usdc_micro = some (text "300");
  min_liquidity_usdc_micro = some (text "50");
  network = some (text "solana-devnet");
  snapshot_max_age_seconds = some (text "7");
  devnet_usdc_token_account = some (text "account");
  devnet_usdc_mint = some (text "mint");
  devnet_withdrawal_authority = some (text "cold");
}

abbrev pub snapshot : Snapshot
snapshot = record {
  balance_amount = text "1000";
  balance_decimals = 6;
  delegate = text "hot";
  delegated_amount = text "300";
  mint = text "mint";
  network = text "DEVNET";
  token_account = text "account";
  verified_at = 1_000_000;
  wallet = text "cold";
}

abbrev pub no_rows : Database
no_rows = record {
  reservations = [];
  ledger = [];
  discrepancies = [];
  paused = none;
  snapshot = some snapshot;
  admissions = [];
}
