-- ===== src/Cache/Valkey.antt =====
-- internal/cache/valkey.go
use nostradamus_api.Prelude.{ℕ, suc, String, Option, none, some, List, [], ◌∷◌}
use nostradamus_api.Prelude.Int.{ℤ, pos, sub_ℕ, pos_part, neg_part, ◌*ℤ◌, wrap64}
use nostradamus_api.Errors.{text, wrap, redis_nil}
use nostradamus_api.Go.Fallible.{
  Result, ok, err, Fallible, pure, lift, run, check, wrapping, wrap_result, ◌>>=◌, ◌>>◌,
}
use nostradamus_api.Go.Decode
use nostradamus_api.Go.Json.{Json, marshal}
use nostradamus_api.Go.Time.{unix_milli, of_unix_nano}
use nostradamus_api.Types.{Entry}
use nostradamus_api.World.{World, State, perform}
use nostradamus_api.World.Calls.{
  Scored, z_add, expire, z_rev_range, redis_set, redis_get, redis_ping,
}
use nostradamus_api.Cache.Metrics.{record_hit, record_miss, record_write}

abbrev pub hour : ℕ
hour = 3600000000000

module _ (W : World) where
  -- `(*Valkey).Store`: the member is the value alone, its score the time in milliseconds.
  unfoldable pub store : String → Entry → Fallible (State W) (Unit {0})
  unfolding perform unix_milli
  store prefix entry = do
    check (perform W (z_add prefix (World.of_int W (unix_milli entry.timestamp)) entry.value))
    check (perform W (expire prefix hour))

  -- One member of the sorted set, as an entry.
  abbrev read_member : Option String → Result String
  read_member none = err (text "expected string, got another type")
  read_member (some s) = ok s

  unfoldable pub read_scored : Scored → Result Entry
  unfolding ◌*ℤ◌ wrap64 of_unix_nano
  read_scored e = Decode.◌>>=◌ (read_member e.member) λ s.
      Decode.◌>>=◌ (wrap_result "failed to parse value: " (World.parse_float W s)) λ val.
        ok (record {
          timestamp = of_unix_nano (wrap64 (World.to_int64 W e.score *ℤ pos 1000000));
          value = val;
        })

  -- The loop of `FetchLast`.
  unfoldable pub read_all : List Scored → Result (List Entry)
  unfolding read_scored
  read_all [] = ok []
  read_all (e ∷ es) =
      Decode.◌>>=◌ (read_scored e)
        λ entry. Decode.◌>>=◌ (read_all es) λ entries. ok (entry ∷ entries)

  -- `(*Valkey).FetchLast`. Its slice is never nil.
  unfoldable pub fetch_last : String → ℤ → Fallible (State W) (Option (List Entry))
  unfolding perform read_all
  fetch_last prefix n = do
    found ← perform W (z_rev_range prefix (pos 0) (sub_ℕ (pos_part n) (suc (neg_part n))))
    entries ← lift (read_all found)
    pure (some entries)

  -- `(*Valkey).StoreAggregate`
  unfoldable pub store_aggregate : String → Json → ℕ → Fallible (State W) (Unit {0})
  unfolding perform marshal record_write
  store_aggregate key value ttl = do
    doc ← wrapping "failed to marshal aggregate: " (lift (marshal value))
    wrapping "failed to store aggregate: "
        (check (perform W (redis_set key (World.json_text W doc) ttl)))
    run (record_write W "valkey")

  -- `(*Valkey).FetchAggregate`, behind the answer.
  unfoldable pub fetched : Result String → Fallible (State W) String
  unfolding record_hit record_miss
  fetched (ok val) s = (ok val, (record_hit W "valkey" s).1)
  fetched (err redis_nil) s = (err (text "cache miss"), (record_miss W "valkey" s).1)
  fetched (err e) s = (err (wrap "cache fetch: " e), s)

  unfoldable pub fetch_aggregate : String → Fallible (State W) String
  unfolding perform fetched
  fetch_aggregate key s = let (r, s') = perform W (redis_get key) s in fetched r s'

  unfoldable pub ping : Fallible (State W) (Unit {0})
  unfolding perform
  ping = check (perform W redis_ping)
