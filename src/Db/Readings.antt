-- ===== src/Db/Readings.antt =====
-- internal/db/readings.go: the readings of a sensor between two times, one query for each day.
pub mod Laws
use nostradamus_api.Prelude.{
  ℕ, zero, suc, ◌+◌, ◌-◌, ◌/◌, String, ◌<>◌, List, [], ◌∷◌, ◌++◌, ltb, if◌then◌else◌,
}
use nostradamus_api.Prelude.Int.{ℤ, pos, negsuc}
use nostradamus_api.Errors.{Error, text}
use nostradamus_api.Go.Fallible.{
  Result, ok, err, Fallible, pure, fail, lift, run, wrapping, result_of_error, wrap_result, ◌>>=◌,
  ◌>>◌,
}
use nostradamus_api.Go.Float64.{Float64}
use nostradamus_api.Go.Time.{Time, day, midnight, format_date}
use nostradamus_api.World.{World, State, perform}
use nostradamus_api.World.Calls.{Uuid, Iter, iterate, values_between}

-- The table of a sensor type.
unfoldable pub table_of : ℤ → Result String
table_of (pos zero) = ok "temperatures"
table_of (pos (suc zero)) = ok "humidities"
table_of (pos (suc (suc zero))) = ok "ph_levels"
table_of _ = err (text "invalid sensor type")

-- One round for each day from `start` to `end`, and one for the last test.
abbrev pub bucket_fuel : Time → Time → ℕ
bucket_fuel start end = (end - start) / day + 2

module _ (W : World) where
  -- The query of one bucket.
  unfoldable pub read_bucket :
      String → Uuid → Time → Time → Time → Fallible (State W) (List Float64)
  unfolding perform
  read_bucket table sid from to date = do
    let bucket : String = format_date date
    iter ← run (perform W (iterate (values_between table sid bucket from to)))
    wrapping ("failed to query bucket " <> bucket <> ": ") (lift (result_of_error iter.close))
    pure iter.rows

  -- `for date := start; !date.After(end); date = date.Add(24 * time.Hour)`, on fuel; without fuel it
  -- stops as if the last day were done.
  unfoldable pub read_buckets :
      ℕ
      → String
      → Uuid
      → Time
      → Time
      → Time
      → Time
      → List Float64
      → Fallible (State W) (List Float64)
  read_buckets zero table sid from to date end readings s = (ok readings, s)
  read_buckets (suc fuel) table sid from to date end readings s =
      let rest = λ (vs : List Float64).
        read_buckets fuel table sid from to (date + day) end (readings ++ vs) in
      if ltb end date then (ok readings, s) else ◌>>=◌ (read_bucket table sid from to date) rest s

  -- `GetReadings`
  unfoldable pub get_readings : String → ℤ → Time → Time → Fallible (State W) (List Float64)
  unfolding midnight table_of
  get_readings sensor_id type from to = do
    sid ← wrapping "invalid sensor_id: " (lift (World.gocql_parse_uuid W sensor_id))
    table ← lift (table_of type)
    let start : Time = midnight from
    let end : Time = midnight to
    read_buckets (bucket_fuel start end) table sid from to start end []
