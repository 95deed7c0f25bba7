-- ===== src/System/Main.antt =====
-- cmd/main.go: `Run`, and the status that the process exits with.
use gorder.Prelude.{ℕ, String, List, ◌≡◌, ◌↔◌, ◌≤◌, refl, ap, inl, inr, arith}
use gorder.Prelude.Result.{Status, done, failed, Status-cases}
use gorder.Config.{Config}
use gorder.System.Run.{Answers, Event, run}
use gorder.System.Success.{Succeeds, whole_run, run-done_iff}

-- `os.Exit(1)` after an error, else the end of `main`; the log line is left out.
abbrev pub exit_status : Status String → ℕ
exit_status done = 0
exit_status (failed _) = 1

unfoldable pub main : Answers → List Event × ℕ
main a = let (events, status) = run a in (events, exit_status status)

exit_status-zero : (s : Status String) → exit_status s ≡ 0 → s ≡ done
exit_status-zero done e = refl
exit_status-zero (failed x) e = absurd (omega arith)

-- The process exits with 0 exactly where the stages of `Run` succeed, whether or not the cache could be
-- populated, and a signal ends the wait; it then has waited for the consumer before it shut the server
-- down, and closed the reader, the pool and the context of the signals after that. In every other case
-- it exits with 1.
pub main-zero_iff :
    (a : Answers)
    → (((main a).1 ≡ 0) ↔ ((cfg : Config) × Succeeds a cfg × (main a ≡ (whole_run cfg, 0))))
      × ((main a).1 ≤ 1)
unfolding main
main-zero_iff a = (
  (
    λ zero_lem.
        let (cfg, h, e) = (run-done_iff a).0 (exit_status-zero (run a).1 zero_lem) in
        (cfg, h, ap (λ (x : List Event × Status String). (x.0, exit_status x.1)) e),
    λ (cfg, h, e). ap (λ (x : List Event × ℕ). x.1) e,
  ),
  elim (Status-cases (run a).1) [ inl e ↦ rw e (omega arith) | inr (x, e) ↦ rw e (omega arith) ],
)
