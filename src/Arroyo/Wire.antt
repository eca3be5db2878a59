-- ===== src/Arroyo/Wire.antt =====
-- internal/arroyo/types.go and the anonymous structs of its functions, with their JSON.
use nostradamus_api.Prelude.{String, Bool, Option, none, some, str_eq, if◌then◌else◌}
use nostradamus_api.Prelude.Int.{ℤ, pos}
use nostradamus_api.Types.{StateType, Pipeline, Job}
use nostradamus_api.Go.Fallible.{Result, ok}
use nostradamus_api.Go.Decode.{◌>>=◌, at}
use nostradamus_api.Go.Json.{
  Json, bool, int, str, arr, obj, nil, Fields, end, field, object, string_value, bool_value,
  int_value, int_pointer,
}

pub record ConnectionProfile : Type 0 where
  pub id : String
  pub name : String
  pub connector : String
  pub description : String

unfoldable pub decode_profile : Json → Result ConnectionProfile
decode_profile v = do
  fs ← object v
  id ← at string_value "id" fs
  name ← at string_value "name" fs
  connector ← at string_value "connector" fs
  description ← at string_value "description" fs
  ok (record { id = id; name = name; connector = connector; description = description })

pub record ConnectionTableResponse : Type 0 where
  pub id : String
  pub name : String

unfoldable pub decode_table : Json → Result ConnectionTableResponse
decode_table v = do
  fs ← object v
  id ← at string_value "id" fs
  name ← at string_value "name" fs
  ok (record { id = id; name = name })

pub record PipelineResponse : Type 0 where
  pub id : String
  pub name : String
  pub query : String

unfoldable pub decode_pipeline_response : Json → Result PipelineResponse
decode_pipeline_response v = do
  fs ← object v
  id ← at string_value "id" fs
  name ← at string_value "name" fs
  query ← at string_value "query" fs
  ok (record { id = id; name = name; query = query })

unfoldable pub pipeline_response_json : PipelineResponse → Json
pipeline_response_json p =
    obj (field "id" (str p.id) (field "name" (str p.name) (field "query" (str p.query) end)))

pub record ProfileCache : Type 0 where
  pub kafka_profile_id : String
  pub scylla_profile_id : String

pub record ConnectionTableRequest : Type 0 where
  pub name : String
  pub connector : String
  pub connection_profile : String
  -- config
  pub type_map : Fields
  pub topic : String
  pub auto_offset_reset : String
  pub config_format : Fields
  -- schema
  pub schema : Json

-- A string that `omitempty` leaves out.
abbrev pub nonempty : String → String → Fields → Fields
nonempty k s rest = if str_eq s "" then rest else field k (str s) rest

unfoldable pub connection_table_json : ConnectionTableRequest → Json
connection_table_json r = obj (
    field "name" (str r.name) (
      field "connector" (str r.connector) (
        field "connectionProfileId" (str r.connection_profile) (
          field "config"
            (obj (
              field "type" (obj r.type_map) (
                field "topic" (str r.topic) (
                  nonempty "autoOffsetReset" r.auto_offset_reset
                    (field "format" (obj r.config_format) end)))))
            (field "schema" r.schema end)))))

-- `types.Pipeline`
unfoldable pub decode_pipeline : Json → Result Pipeline
decode_pipeline v = do
  fs ← object v
  name ← at string_value "name" fs
  query ← at string_value "query" fs
  parallelism ← at int_pointer "parallelism" fs
  ok (record { name = name; query = query; parallelism = parallelism })

abbrev parallelism_field : Option ℤ → Fields
parallelism_field none = end
parallelism_field (some n) = field "parallelism" (int n) end

unfoldable pub pipeline_json : Pipeline → Json
pipeline_json p =
    obj (field "name" (str p.name) (nonempty "query" p.query (parallelism_field p.parallelism)))

-- What `RestartPipeline` posts: a struct, in the order of its fields.
unfoldable pub restart_payload : String → String → ℤ → Json
restart_payload name query parallelism = obj (
    field "name" (str name) (
      field "query" (str query) (
        field "parallelism" (int parallelism)
          (field "checkpointIntervalMicros" (int (pos 60000000)) (field "udfs" (arr nil) end)))))

-- What `CreatePipelineInternal` posts: a map, in the order of its keys.
unfoldable pub create_payload : String → String → ℤ → Json
create_payload name query parallelism = obj (
    field "checkpointIntervalMicros" (int (pos 60000000)) (
      field "name" (str name) (
        field "parallelism" (int parallelism)
          (field "query" (str query) (field "udfs" (arr nil) end)))))

-- An entry of the job list of `ListJobs`.
unfoldable pub decode_job : Json → Result Job
decode_job v = do
  fs ← object v
  id ← at string_value "id" fs
  state ← at string_value "state" fs
  start ← at int_value "startTime" fs
  ok (record { id = id; state = state; started_at = start })

unfoldable pub job_json : Job → Json
job_json j = obj (
    field "id" (str j.id) (field "state" (str j.state) (field "started_at" (int j.started_at) end)))

-- An entry of the job list of `GetJob`.
pub record PipelineJob : Type 0 where
  pub id : String
  pub state : StateType
  pub running_desired : Bool
  pub start_time : ℤ

unfoldable pub decode_pipeline_job : Json → Result PipelineJob
decode_pipeline_job v = do
  fs ← object v
  id ← at string_value "id" fs
  state ← at string_value "state" fs
  running ← at bool_value "runningDesired" fs
  start ← at int_value "startTime" fs
  ok (record { id = id; state = state; running_desired = running; start_time = start })

unfoldable pub pipeline_job_json : PipelineJob → Json
pipeline_job_json j = obj (
    field "id" (str j.id) (
      field "state" (str j.state) (
        field "runningDesired" (bool j.running_desired)
          (field "startTime" (int j.start_time) end))))
