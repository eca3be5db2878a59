-- ===== src/Kafka/Flow.antt =====
-- `isKafkaManagedTopic` (utils.go) and `createArroyoFlow` (watcher.go).
use nostradamus_api.Prelude.{
  String, ◌<>◌, Bool, true, false, List, [], ◌∷◌, starts_with, if◌then◌else◌,
}
use nostradamus_api.Prelude.Int.{pos}
use nostradamus_api.Errors.{Error, text, wrap, message, says_already_exists}
use nostradamus_api.Go.Fallible.{Result, ok, err, Fallible, ◌>>◌}
use nostradamus_api.Go.Json.{Json, str, arr, obj, nil, Fields, end, field}
use nostradamus_api.World.{World, State}
use nostradamus_api.Arroyo.Client.{ArroyoClient}
use nostradamus_api.Arroyo.Wire.{ConnectionTableRequest, ProfileCache}
use nostradamus_api.Arroyo.Tables.{create_connection_table}
use nostradamus_api.Arroyo.Pipelines.{create_pipeline_internal}

has_prefix_of : String → List String → Bool
has_prefix_of topic [] = false
has_prefix_of topic (prefix ∷ rest) = elim (starts_with topic prefix) [
  | true ↦ true
  | false ↦ has_prefix_of topic rest
]

-- `isKafkaManagedTopic`
unfoldable pub is_kafka_managed_topic : String → Bool
unfolding has_prefix_of
is_kafka_managed_topic topic =
    has_prefix_of topic ("temperatures_" ∷ "humidities_" ∷ "ph_levels_" ∷ [])

-- `arroyo.JSONSchema`
abbrev pub json_schema : String
json_schema =
    "{\n  \"type\": \"object\",\n  \"properties\": {\n"
    <> "    \"sensor_id\": { \"type\": \"string\", \"format\": \"uuid\" },\n"
    <> "    \"bucket_date\": { \"type\": \"string\", \"format\": \"date\" },\n"
    <> "    \"timestamp\": { \"type\": \"string\", \"format\": \"date-time\" },\n"
    <> "    \"value\": { \"type\": \"number\" }\n  },\n"
    <> "  \"required\": [\"sensor_id\", \"bucket_date\", \"timestamp\", \"value\"]\n}"

abbrev one : String → Json → Fields
one k v = field k v end

unfoldable pub kafka_request : ProfileCache → String → ConnectionTableRequest
kafka_request profiles topic = record {
  name = "kafka_" <> topic;
  connector = "kafka";
  connection_profile = profiles.kafka_profile_id;
  type_map = field "offset" (str "latest") (field "read_mode" (str "read_uncommitted") end);
  topic = topic;
  auto_offset_reset = "earliest";
  config_format = one "json" (obj end);
  schema = obj (
      field "fields" (arr nil) (
        field "badData" (obj (one "drop" (obj end))) (
          field "format" (obj (one "json" (obj end)))
            (field "definition" (obj (one "json_schema" (str json_schema))) end))));
}

-- The sink table of a topic: the `switch` over the prefixes, which falls back to a table of the
-- topic's own.
unfoldable pub scylla_name : String → String
scylla_name topic =
    if starts_with topic "temperatures_"
    then "scylla_temperatures"
    else if starts_with topic "humidities_"
    then "scylla_humidities"
    else if starts_with topic "ph_levels_"
    then "scylla_ph_levels"
    else "scylla_" <> topic

unfoldable pub flow_query : String → String
unfolding scylla_name
flow_query topic =
    "\nINSERT INTO " <> scylla_name topic <> "\nSELECT * FROM \"" <> ("kafka_" <> topic) <> "\";\n"

-- An error that says that the thing already exists is passed over; any other is turned into `failure`.
unfoldable pub tolerate : {A : Type 0} → (Error → Error) → Result A → Result (Unit {0})
tolerate failure (ok _) = ok tt
tolerate failure (err e) = if says_already_exists e then ok tt else err (failure e)

abbrev pub tolerating : {S A : Type 0} → (Error → Error) → Fallible S A → Fallible S (Unit {0})
tolerating failure m s = (tolerate failure (m s).0, (m s).1)

module _ (W : World) (ac : ArroyoClient) (profiles : ProfileCache) where
  unfoldable pub create_table_step : String → Fallible (State W) (Unit {0})
  unfolding tolerate
  create_table_step topic =
      tolerating (wrap "failed to create Kafka table: ")
        (create_connection_table W ac (kafka_request profiles topic))

  unfoldable pub create_pipeline_step : String → Fallible (State W) (Unit {0})
  unfolding tolerate message
  create_pipeline_step topic =
      tolerating (λ e. text ("pipeline creation failed for " <> topic <> ": " <> message e))
        (create_pipeline_internal W ac topic (flow_query topic) (pos 1))

  -- `createArroyoFlow`
  unfoldable pub create_arroyo_flow : String → Fallible (State W) (Unit {0})
  create_arroyo_flow topic = do create_table_step topic; create_pipeline_step topic
