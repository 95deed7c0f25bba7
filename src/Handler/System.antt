-- ===== src/Handler/System.antt =====
-- `LiveCheckHandle`, `ReadyCheckHandle` and `VersionHandle` of internal/handler/handler.go. The
-- check of Kafka is a parameter, as the storage is.
use gorder.Prelude.{String, ◌≡◌, refl, [], ◌∷◌, Bool, true, false, if◌then◌else◌}
use gorder.Prelude.Result.{Status, done, failed}
use gorder.Http.{Ctx, Body, status, fields, Effect, json, Handler, reply}
use gorder.Repository.Driver.{DbError}
use gorder.Repository.Interface.{Interface}
use gorder.Handler.Orders.{App}

-- what the two goroutines of `ReadyCheckHandle` share
pub record Health : Type 0 where
  pub healthy : Bool
  pub db_status : String
  pub consumer_status : String

abbrev pub all_well : Health
all_well = record { healthy = true; db_status = "OK"; consumer_status = "OK" }

pub data Finish : Type 0 where
  db_first : Finish
  consumer_first : Finish

abbrev pub check_db : Status DbError → Health → Health
check_db done h = h
check_db (failed _) h = record h { healthy = false; db_status = "DOWN" }

abbrev pub check_consumer : Status String → Health → Health
check_consumer done h = h
check_consumer (failed _) h = record h { healthy = false; consumer_status = "DOWN" }

-- `wg.Wait()`: the goroutines have finished, one before the other.
unfoldable pub wait : Finish → Status DbError → Status String → Health
wait db_first db consumer = check_consumer consumer (check_db db all_well)
wait consumer_first db consumer = check_db db (check_consumer consumer all_well)

abbrev pub report : String → Health → Body
report overall h =
    fields (("status", overall) ∷ ("db", h.db_status) ∷ ("kafka", h.consumer_status) ∷ [])

module _ {S : Type 0} where
  abbrev pub live_check_handle : Handler S
  live_check_handle ctx = reply (json 200 (status "UP"))

  abbrev pub version_handle : String → String → Handler S
  version_handle version commit ctx =
      reply (json 200 (fields (("version", version) ∷ ("commit", commit) ∷ [])))

module _ {Db : Type 0} (r : Interface Db) (check_health : Status String) (finish : Finish) where
  unfoldable pub ready_check_handle : Handler (App Db)
  ready_check_handle ctx s =
      let h = wait finish (r.check_health_db s.db) check_health in
      if h.healthy then reply (json 200 (report "UP" h)) s else reply (json 503 (report "DOWN" h)) s

-- The reply to the results of the two checks.
abbrev pub readiness : Status DbError → Status String → Effect
readiness done done = json 200 (report "UP" all_well)
readiness (failed _) done = json 503 (report "DOWN" (record all_well { db_status = "DOWN" }))
readiness done (failed _) = json 503 (report "DOWN" (record all_well { consumer_status = "DOWN" }))
readiness (failed _) (failed _) =
    json 503 (report "DOWN" (record all_well { db_status = "DOWN"; consumer_status = "DOWN" }))

module _ {Db : Type 0} (r : Interface Db) (check_health : Status String) where
  -- Whichever of the two checks finishes first, `ReadyCheckHandle` replies 200 exactly when both
  -- have succeeded and names those that have failed; nothing is changed.
  pub ready_check_handle-readiness :
      (finish : Finish) (ctx : Ctx) (s : App Db)
      → ready_check_handle r check_health finish ctx s
        ≡ reply (readiness (r.check_health_db s.db) check_health) s
  unfolding ready_check_handle wait
  ready_check_handle-readiness finish ctx s = go finish (r.check_health_db s.db) check_health
    where
      go :
          (f : Finish) (db : Status DbError) (consumer : Status String)
          → (if (wait f db consumer).healthy
              then reply (json 200 (report "UP" (wait f db consumer))) s
              else reply (json 503 (report "DOWN" (wait f db consumer))) s)
            ≡ reply (readiness db consumer) s
      go db_first done done = refl
      go db_first done (failed _) = refl
      go db_first (failed _) done = refl
      go db_first (failed _) (failed _) = refl
      go consumer_first done done = refl
      go consumer_first done (failed _) = refl
      go consumer_first (failed _) done = refl
      go consumer_first (failed _) (failed _) = refl
