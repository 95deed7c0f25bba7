-- ===== src/Tests/System.antt =====
-- The running service over the database in memory, and one whole run of `Run`.
use gorder.Prelude.{◌≤◌, String, ◌≡◌, ◌⊎◌, ◌↔◌, refl, some}
use gorder.Prelude.Result.{ok, Status, done, failed}
use gorder.Metrics.{new_metrics}
use gorder.Cache.{Cache, new_cache}
use gorder.Preload.{populate}
use gorder.Config.{Config}
use gorder.Repository.Errors.{RepoError}
use gorder.Repository.Interface.{repository}
use gorder.Repository.Tables.{Tables}
use gorder.Handler.Orders.{App}
use gorder.Consumer.{handle_message}
use gorder.System.{Process, Reach}
use gorder.System.Handlers.{IsSound}
use gorder.System.Invariant.{started-IsSound}
use gorder.System.Run.{Answers, applied, signaled, run}
use gorder.System.Shutdown.{IsClosed, IsUnreachable, run-IsClosed}
use gorder.System.Success.{Succeeds, whole_run}
use gorder.System.Main.{main, main-zero_iff}
use gorder.Tests.Samples.{memory, memory_laws, empty_tables, plain_codec, plain_jwt, plain_bcrypt}
use gorder.Tests.Storage.{empty_tables-IsConsistent}
use gorder.Tests.Settings.{settings}

abbrev process : Process
process = record { codec = plain_codec; j = plain_jwt; b = plain_bcrypt; secret = "secret" }

started-IsSound_example :
    (c : Cache) × (status : Status RepoError) × (populate
        (repository memory)
        empty_tables
        (new_cache 2 (some new_metrics))
      ≡ some (c, status))
    × ((t : App Tables)
        → Reach memory process (record { db = empty_tables; cache = c }) t
        → IsSound memory memory_laws 2 t
          × ((msg : String)
              → (u : App Tables) × (handle_message (repository memory) plain_codec msg t ≡ some u)))
started-IsSound_example =
    started-IsSound memory memory_laws 2 process empty_tables new_metrics refl
      empty_tables-IsConsistent

abbrev answers : Answers
answers = record {
  load = ok settings;
  new_pool = λ _. done;
  ping = done;
  new_migrate = λ _. done;
  up = applied;
  populate = failed "timeout";
  new_rate = λ _. done;
  sub_fs = done;
  ending = signaled;
  shutdown = done;
}

run-IsClosed_example : IsClosed (run answers) ⊎ IsUnreachable answers
run-IsClosed_example = run-IsClosed answers

main-zero_iff_example :
    (((main answers).1 ≡ 0)
      ↔ ((cfg : Config) × Succeeds answers cfg × (main answers ≡ (whole_run cfg, 0))))
    × ((main answers).1 ≤ 1)
main-zero_iff_example = main-zero_iff answers
