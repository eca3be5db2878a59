-- ===== src/Routes/Latest.antt =====
-- `latestHandler` (handlers.go): the last five values of one sensor.
pub mod Laws
use nostradamus_api.Prelude.{
  String, ◌<>◌, Option, none, some, List, [], ◌∷◌, length, ltb, if◌then◌else◌,
}
use nostradamus_api.Prelude.Int.{pos}
use nostradamus_api.Errors.{Error, message}
use nostradamus_api.Go.Fallible.{Result, ok, err}
use nostradamus_api.Go.Http.{Request, Writer}
use nostradamus_api.Go.Io.{Io}
use nostradamus_api.Go.Json.{slice_elems, slice_json}
use nostradamus_api.Go.Time.{Time, format_date, midnight_text}
use nostradamus_api.Types.{Entry}
use nostradamus_api.Utils.{reply_json, error_body, data_body}
use nostradamus_api.Wire.{entry_json}
use nostradamus_api.World.{World, State, perform}
use nostradamus_api.World.Calls.{now}
use nostradamus_api.Cache.Interface.{Cache}
use nostradamus_api.Db.Sensors.{get_last5_values}
use nostradamus_api.Routes.App.{App}

abbrev pub fixed_sensor : String
fixed_sensor = "550e8400-e29b-41d4-a716-446655440000"

-- The key that is fetched: the date is formatted.
unfoldable pub fetch_key : Time → String
unfolding format_date
fetch_key today = "sensor" <> ":" <> fixed_sensor <> ":" <> format_date today

-- The key that is stored to: `today` itself is printed.
unfoldable pub store_key : Time → String
unfolding midnight_text
store_key today = "sensor" <> ":" <> fixed_sensor <> ":" <> midnight_text today

module _ (W : World) (app : App W) where
  -- The loop that stores the values one by one; errors are dropped.
  unfoldable pub store_entries : Time → List Entry → Io (State W) (Unit {0})
  store_entries today [] s = (tt, s)
  store_entries today (e ∷ es) s =
      store_entries today es (Cache.store app.cache (store_key today) e s).1

  unfoldable pub reply_entries : Option (List Entry) → Writer → Writer
  reply_entries res w = reply_json 200 (data_body (slice_json (entry_json W) res)) w

  abbrev failed : Error → Writer → Writer
  failed e w = reply_json 500 (error_body (message e)) w

  -- The branch for a stale cache.
  unfoldable pub refresh : Time → Writer → Io (State W) Writer
  refresh today w s =
      let (res, s₁) = get_last5_values W fixed_sensor (format_date today) s in
      elim res [
        | err e ↦ (failed e w, s₁)
        | ok found ↦ (reply_entries found w, (store_entries today (slice_elems found) s₁).1)
      ]

  unfoldable pub latest_handler : Request → Writer → Io (State W) Writer
  latest_handler r w s =
      let (time, s₁) = perform W now s in
      let today : Time = World.local_midnight W time in
      let (res, s₂) = Cache.fetch_last app.cache (fetch_key today) (pos 5) s₁ in
      elim res [
        | err e ↦ (failed e w, s₂)
        | ok found ↦
            if ltb (length (slice_elems found)) 5
            then refresh today w s₂
            else (reply_entries found w, s₂)
      ]
