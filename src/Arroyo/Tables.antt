-- ===== src/Arroyo/Tables.antt =====
-- `ListConnectionProfiles` (connection_profile.go) and `CreateConnectionTable` (connection_table.go).
use nostradamus_api.Prelude.{String, ◌<>◌, Option, some, List, ◌||◌, ◌==◌}
use nostradamus_api.Errors.{Error, text}
use nostradamus_api.Go.Decode.{require, data_field}
use nostradamus_api.Go.Fallible.{Fallible, lift, result_of_error, wrapping, ◌>>=◌, ◌>>◌}
use nostradamus_api.Go.Json.{marshal, slice_value}
use nostradamus_api.Go.Strconv.{decimal}
use nostradamus_api.World.{World, State, perform, decode_stream, unmarshal}
use nostradamus_api.World.Calls.{HttpResponse, send}
use nostradamus_api.Arroyo.Client.{ArroyoClient, get_request, json_request}
use nostradamus_api.Arroyo.Wire.{
  ConnectionProfile, decode_profile, ConnectionTableRequest, connection_table_json,
  ConnectionTableResponse, decode_table,
}

abbrev pub unexpected : HttpResponse → Error
unexpected resp = text ("unexpected " <> decimal resp.status_code <> ": " <> resp.body)

module _ (W : World) (ac : ArroyoClient) where
  unfoldable pub list_connection_profiles : Fallible (State W) (Option (List ConnectionProfile))
  unfolding perform decimal decode_profile
  list_connection_profiles = do
    resp ←
        wrapping "failed to reach Arroyo API: "
          (perform W (send (get_request ac "/api/v1/connection_profiles")))
    require (resp.status_code == 200) (unexpected resp)
    wrapping "decode profiles: "
        (lift (decode_stream W (data_field (slice_value decode_profile)) resp.body))

  unfoldable pub create_connection_table :
      ConnectionTableRequest → Fallible (State W) ConnectionTableResponse
  unfolding perform decimal marshal decode_table
  create_connection_table req = do
    let path : String = "/api/v1/connection_tables"
    doc ← wrapping "marshal: " (lift (marshal (connection_table_json req)))
    wrapping "build request: "
        (lift (result_of_error (World.url_error W ("http://" <> ac.base_url <> path))))
    resp ← wrapping "send request: " (perform W (send (json_request "POST" ac path (some doc))))
    require (resp.status_code == 200 || resp.status_code == 201) (unexpected resp)
    wrapping "decode: " (lift (unmarshal W decode_table resp.body))
