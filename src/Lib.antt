-- ===== src/Lib.antt =====
-- DailyDraft is a service for pack duels, crash rounds and fantasy contests that are settled in USDC with
-- six decimals on a Solana devnet. This library models the money rules of its API and the statuses of
-- its duels, which are written in TypeScript, and the rate limiter of its MCP server, and proves what they
-- promise. The other modules of the API call the rules inside database transactions.
--
-- Parts and files:
--   Js/         What the code uses of JavaScript: texts as lists of code points and the regular
--               expressions of apps/api/src/fantasy/fantasy-domain.ts (Text), BigInt and its printing
--               (Decimal, Signed), values of type unknown (Value), stableStringify of
--               apps/api/src/providers/valuation-policy.ts over a host that gives SHA-256,
--               JSON.stringify and localeCompare (Canonical), trim, split and toLowerCase (Trim).
--   Domain      Money of apps/api/src/domain.ts.
--   Fantasy/    apps/api/src/fantasy/fantasy-domain.ts (Domain) and fantasy-payout.ts beside it (Payout).
--               Payout/Rules is validateFantasyPayoutRuleSet, Payout/Holders is distributeToHolders,
--               Payout/Calculate is calculateFantasyPayouts, Payout/Report its result and its hash.
--               Scoring/ is fantasy-scoring.ts beside it: Scoring/Rules is
--               validateFantasyScoringRuleSet, Scoring/Calculate is calculateFantasyPlayerScore.
--   Crash/      apps/api/src/crash/crash-calculators.ts (Calculators) and crash-risk.policy.ts beside it
--               (Risk). Calculators/Rules is validateCrashCalculatorRuleSet, Calculators/Calculate is
--               calculateCrashPot and calculateCrashBust. Risk/Rules is validateCrashRiskRules,
--               Risk/Health is validateCrashRiskHealth, Risk/Admission is assertCanonicalAdmission,
--               Risk/Operations is reserveRound, applyTransition and releaseTerminal, on the tables that
--               Treasury/ declares. Risk/Budget is the contract of these tables, an abstract budget of
--               one number below a limit, for the calls of Treasury/ and of Risk/ in any order.
--               Serializable is runSerializable of crash-stage-state.ts beside them, the loop that
--               repeats a transaction.
--   Gacha/      apps/api/src/gacha/gacha-pull-odds.ts. PullOdds/Rules is validateGachaPullOddsRuleSet,
--               PullOdds/Fixture is createFixtureGachaPullOddsRuleSet, PullOdds/Select is
--               gachaPullOddsBandForRoll and gachaPullOddsBandForValue.
--   Treasury/   apps/api/src/treasury/house-treasury.policy.ts and the tables of
--               packages/db/prisma/schema.prisma that it uses. Limits is evaluateHouseExposureLimits,
--               Config is readHouseTreasuryConfig and houseTreasuryConfigurationErrors, Snapshot is
--               houseTreasurySnapshotIsUsable, Admission is the state of a tier that
--               recordHouseTierAdmissionState upserts, Reserve is reserveHouseExposure with its queries
--               and writes. The tables are a record of lists that each operation takes and returns.
--   Duels/      apps/api/src/duels/duel-state.ts (State): the transitions between the statuses of a duel;
--               and public-duel-leaderboard.ts beside it (Leaderboard). Leaderboard/Types has the duels
--               that count, Leaderboard/Table the loop over them, Leaderboard/Ranking the order of the
--               entries and buildPublicDuelLeaderboard, Leaderboard/Cache its cache of promises.
--   Mcp/        apps/mcp/src/rate-limit.ts: FixedWindowRateLimiter, whose calls of any keys are a
--               sequence.
--   Prelude/    Names and lemmas that the parts share; Prelude/Results is the outcome of code that may
--               throw, Prelude/Int the integers for BigInt differences.
-- The modules named Tests run the definitions at concrete inputs.
--
-- Conventions: a thrown error is a value, and a transaction that throws returns no tables, since the
-- database rolls it back. BigInt values are natural numbers or integers of any size, and the limits of
-- the code (u64, 96 bits, the largest safe integer) are tests as in the code. Every loop of the code runs
-- over a list, so every function is structurally recursive and none takes fuel, but two: the printing of a
-- number, whose fuel is one more than the number and is never used up, and the loop of runSerializable,
-- whose fuel is a number of attempts, three of which are enough. Times are milliseconds since 1970.
--
-- Not modelled: the advisory lock, which the model reads as transactions that follow one another; the
-- messages of errors; random identifiers, the clock and what the lookup before the lock saw, which are
-- arguments; the test of a Solana public key, the hash function, and Date.parse with toISOString,
-- localeCompare and encodeURIComponent, which are parameters; a decimal number of more than 15 digits
-- in an environment variable is compared as an exact integer; the leaderboard reads amounts in decimal
-- notation only; code points stand for UTF-16 units, which differ only outside the texts that the
-- patterns accept. The services around these rules, the parsing of the rate limit, the user interface
-- and the packages beside the API are not modelled.
pub mod Prelude
pub mod Js
pub mod Domain
pub mod Fantasy
pub mod Crash
pub mod Treasury
pub mod Gacha
pub mod Mcp
pub mod Duels
