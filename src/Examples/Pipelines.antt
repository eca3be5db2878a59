-- ===== src/Examples/Pipelines.antt =====
-- The supervisor, the watcher and the start of the program.
use mathlib.Core.List.{Memᴰ}
use nostradamus_api.Prelude.{String, ◌≡◌, refl, ◌⊎◌, ◌↔◌, true, false, List, [], ◌∷◌}
use nostradamus_api.Errors.{text, message}
use nostradamus_api.Go.Fallible.{err}
use nostradamus_api.Go.Http.{new_writer, document}
use nostradamus_api.Go.Json.{null}
use nostradamus_api.Prelude.{some}
use nostradamus_api.Utils.{error_body, data_body}
use nostradamus_api.Arroyo.Client.{post}
use nostradamus_api.Arroyo.Wire.{ConnectionProfile, ProfileCache, connection_table_json}
use nostradamus_api.Arroyo.Restart.{restart_pipeline}
use nostradamus_api.Arroyo.Restart.Laws.{Outcome, restart_pipeline-Outcome}
use nostradamus_api.Arroyo.Pipelines.{create_pipeline_internal, list_pipelines_reply}
use nostradamus_api.Arroyo.Pipelines.Laws.{list_pipelines_reply-err}
use nostradamus_api.Worker.{WatchedJob, has_failed, check_and_restart_pipelines}
use nostradamus_api.Worker.Laws.{Supervised, has_failed_iff, check_and_restart_pipelines-Supervised}
use nostradamus_api.Kafka.Flow.{
  kafka_request, create_table_step, create_pipeline_step, create_arroyo_flow,
}
use nostradamus_api.Arroyo.Tables.{create_connection_table}
use nostradamus_api.Kafka.Watcher.{Watcher, new_watcher, round, initial_topics, watch}
use nostradamus_api.World.{perform}
use nostradamus_api.Kafka.Complete.{Handled, round-Handled}
use nostradamus_api.Kafka.Requested.{Covered, watch-Covered}
use nostradamus_api.Kafka.Laws.{Flowed, create_arroyo_flow-ok}
use nostradamus_api.Main.{load_profiles}
use nostradamus_api.Main.Laws.{Lists, load_profiles-ok}
use nostradamus_api.Examples.Desk.{desk, start, arroyo}

check_and_restart_pipelines-Supervised_example :
    Supervised desk arroyo []
      (check_and_restart_pipelines desk arroyo start).1.log
      (check_and_restart_pipelines desk arroyo start).0
check_and_restart_pipelines-Supervised_example =
    check_and_restart_pipelines-Supervised desk arroyo start

restart_pipeline-Outcome_example :
    Outcome desk arroyo "pl_1" []
      (restart_pipeline desk arroyo "pl_1" start).1.log
      (restart_pipeline desk arroyo "pl_1" start).0
restart_pipeline-Outcome_example = restart_pipeline-Outcome desk arroyo "pl_1" start

abbrev failed_job : WatchedJob
failed_job = record { id = "job_1"; state = "Failed"; failed = "out of memory" }

has_failed_iff_example :
    (has_failed (failed_job ∷ []) ≡ true)
    ↔ ((j : WatchedJob) × Memᴰ j (failed_job ∷ []) × ((j.state ≡ "Stopped") ⊎ (j.state ≡ "Failed")))
has_failed_iff_example = has_failed_iff (failed_job ∷ [])

abbrev pub profiles : ProfileCache
profiles = record { kafka_profile_id = "k"; scylla_profile_id = "s" }

round-Handled_example :
    Handled desk arroyo profiles
      (round desk arroyo profiles [] start).0
      (round desk arroyo profiles [] start).1.log
      "temperatures_a"
unfolding perform
round-Handled_example =
    round-Handled desk arroyo profiles [] ("temperatures_a" ∷ "logs" ∷ []) start "temperatures_a"
      refl (Memᴰ.head refl)

watch-Covered_example :
    Covered desk arroyo profiles
      (initial_topics desk arroyo profiles start).0
      (watch desk arroyo profiles (false ∷ false ∷ true ∷ []) start)
watch-Covered_example =
    watch-Covered desk arroyo profiles (false ∷ false ∷ true ∷ []) start refl refl

abbrev watcher : Watcher
watcher = new_watcher ("kafka:9092" ∷ []) arroyo profiles

create_arroyo_flow-ok_example :
    Flowed desk arroyo profiles "ph_levels_a" []
      (create_arroyo_flow desk arroyo profiles "ph_levels_a" start).1.log
unfolding create_arroyo_flow create_table_step create_connection_table connection_table_json
    kafka_request create_pipeline_step create_pipeline_internal post
create_arroyo_flow-ok_example =
    create_arroyo_flow-ok desk arroyo profiles "ph_levels_a" start refl refl refl

list_pipelines_reply-err_example :
    ((list_pipelines_reply desk arroyo (err (text "EOF")) new_writer).sent
      ≡ some (500, ("Content-Type", "application/json") ∷ []))
    × ((list_pipelines_reply desk arroyo (err (text "EOF")) new_writer).body
        ≡ document (error_body "EOF") ∷ document (data_body null) ∷ [])
unfolding message
list_pipelines_reply-err_example = list_pipelines_reply-err desk arroyo (text "EOF") new_writer refl

abbrev nodes : String
nodes = "valkey:6379"

abbrev unset : String
unset = ""

abbrev listed : List ConnectionProfile
listed =
    record { id = "k"; name = "kafka"; connector = "kafka"; description = "" }
    ∷ record { id = "s"; name = "scylla"; connector = "scylla"; description = "" }
    ∷ []

load_profiles-ok_example :
    (Lists "kafka" profiles.kafka_profile_id listed × (¬ (profiles.kafka_profile_id ≡ "")))
    × (Lists "scylla" profiles.scylla_profile_id listed × (¬ (profiles.scylla_profile_id ≡ "")))
unfolding load_profiles
load_profiles-ok_example = load_profiles-ok listed profiles refl
