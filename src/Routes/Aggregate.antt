-- ===== src/Routes/Aggregate.antt =====
-- `aggregateHandler` (handlers.go).
pub mod Fold
pub mod Cached
pub mod Laws
use nostradamus_api.Prelude.{
  ℕ, String, ◌<>◌, Bool, ◌||◌, Option, none, some, List, [], ◌∷◌, str_eq, if◌then◌else◌,
}
use nostradamus_api.Prelude.Int.{ℤ, pos, ltb_ℤ}
use nostradamus_api.Errors.{message}
use nostradamus_api.Go.Decode
use nostradamus_api.Go.Fallible.{Result, ok, err}
use nostradamus_api.Go.Float64.{Float64}
use nostradamus_api.Go.Http.{Request, Writer, query_get}
use nostradamus_api.Go.Io.{Io}
use nostradamus_api.Go.Strconv.{atoi}
use nostradamus_api.Go.Time.{Time, before, format_date}
use nostradamus_api.Types.{Aggregate}
use nostradamus_api.Utils.{
  reply_json, reply_bad_request, reply_internal_server_error, reply_not_found, data_body,
}
use nostradamus_api.Wire.{aggregate_json, decode_aggregate}
use nostradamus_api.World.{World, State, perform, unmarshal}
use nostradamus_api.World.Calls.{now}
use nostradamus_api.Cache.Interface.{Cache}
use nostradamus_api.Db.Readings.{get_readings}
use nostradamus_api.Routes.App.{App}
use nostradamus_api.Routes.Aggregate.Fold.{aggregate}

abbrev pub five_minutes : ℕ
five_minutes = 300000000000

-- `fmt.Sprintf("agg:%s:%s:%s", sensorID, today, windowStr)`
unfoldable pub cache_key : String → Time → String → String
cache_key sensor_id time window = "agg:" <> sensor_id <> ":" <> format_date time <> ":" <> window

-- `sensorType` as a number from 0 to 2.
unfoldable pub valid_type : String → Option ℤ
valid_type s = elim (atoi s) [
  | err _ ↦ none
  | ok n ↦ if ltb_ℤ n (pos 0) || ltb_ℤ (pos 2) n then none else some n
]

module _ (W : World) where
  unfoldable pub reply_aggregate : Aggregate → Writer → Writer
  reply_aggregate agg w = reply_json 200 (data_body (aggregate_json W agg)) w

  -- What the cache has: `none` for an error and for an entry that cannot be decoded.
  unfoldable pub cached_aggregate : Result String → Option Aggregate
  cached_aggregate (err _) = none
  cached_aggregate (ok text) = elim (unmarshal W (decode_aggregate W) text) [
    | err _ ↦ none
    | ok agg ↦ some agg
  ]

module _ (W : World) (app : App W) where
  -- The part behind the cache: read, aggregate, cache, reply.
  unfoldable pub compute : String → String → ℤ → ℤ → Time → Writer → Io (State W) Writer
  compute key sensor_id type dur time w s =
      let (res, s₁) = get_readings W sensor_id type (before time dur) time s in
      elim res [
        | err e ↦ (reply_internal_server_error (message e) w, s₁)
        | ok readings ↦ elim (aggregate W time readings) [
          | none ↦ (reply_not_found "no readings found" w, s₁)
          | some agg ↦
              let (_, s₂) =
                Cache.store_aggregate app.cache key (aggregate_json W agg) five_minutes s₁ in
              (reply_aggregate W agg w, s₂)
        ]
      ]

  -- The part behind the checks of the parameters.
  unfoldable pub serve : String → ℤ → String → ℤ → Writer → Io (State W) Writer
  serve sensor_id type window dur w s =
      let (time, s₁) = perform W now s in
      let key : String = cache_key sensor_id time window in
      let (cached, s₂) = Cache.fetch_aggregate app.cache key s₁ in
      elim (cached_aggregate W cached) [
        | some agg ↦ (reply_aggregate W agg w, s₂)
        | none ↦ compute key sensor_id type dur time w s₂
      ]

  unfoldable pub aggregate_handler : Request → Writer → Io (State W) Writer
  aggregate_handler r w s =
      let sensor_id : String = query_get r "sensor_id" in
      let sensor_type : String = query_get r "sensor_type" in
      let window : String = query_get r "window" in
      if str_eq sensor_id "" || str_eq sensor_type "" || str_eq window ""
      then (reply_bad_request "missing query params" w, s)
      else elim (valid_type sensor_type) [
        | none ↦ (reply_bad_request "invalid sensor type" w, s)
        | some type ↦ elim (World.parse_duration W window) [
          | err _ ↦ (reply_bad_request "invalid window" w, s)
          | ok dur ↦ serve sensor_id type window dur w s
        ]
      ]
