-- ===== src/Crash/Serializable/Tests.antt =====
-- Runs of the loop around the transactions, and its theorem at a concrete input.
use dailydraft_fun.Prelude.{ℕ, ◌≡◌, refl, some, ◌==◌, if◌then◌else◌, Result, ok, err}
use dailydraft_fun.Js.Text.{text}
use dailydraft_fun.Js.Value.{Value, obj, field, end, str, get, is_text}
use dailydraft_fun.Treasury.Admission.{should_retry}
use dailydraft_fun.Crash.Serializable.{run_serializable}
use dailydraft_fun.Crash.Serializable.Attempts.{Ends, run_serializable-Ends}

-- The error of a write conflict.
abbrev p2034 : Value
p2034 = obj (field (text "code") (str (text "P2034")) end)

-- A transaction that succeeds at the third attempt, and one that never does.
abbrev flaky : ℕ → Result Value ℕ
flaky n = if n == 3 then ok 7 else err p2034

abbrev broken : ℕ → Result Value ℕ
broken n = err p2034

flaky-run : run_serializable flaky 3 1 ≡ some (ok 7)
unfolding run_serializable should_retry is_text get
flaky-run = refl

broken-run : run_serializable broken 3 1 ≡ some (err p2034)
unfolding run_serializable should_retry is_text get
broken-run = refl

run_serializable-Ends_example : Ends flaky 1 (run_serializable flaky 3 1)
run_serializable-Ends_example = run_serializable-Ends flaky
