-- ===== src/World.antt =====
-- What stands outside the program, as one parameter: the services that it calls, which answer from
-- an unknown state of their own, and the functions of third-party packages and of the parts of the
-- standard library that are not modelled. Every call is logged with its answer, newest first.
pub mod Calls
pub mod Trace
pub mod Only
use nostradamus_api.Prelude.{String, Option, List, ◌∷◌}
use nostradamus_api.Prelude.Int.{ℤ}
use nostradamus_api.Errors.{Error}
use nostradamus_api.Go.Fallible.{Result}
use nostradamus_api.Go.Io.{Io}
use nostradamus_api.Go.Decode.{◌>>=◌}
use nostradamus_api.Go.Float64.{Float64}
use nostradamus_api.Go.Json.{Json}
use nostradamus_api.Go.Time.{Time}
use Calls.{Uuid, Call, Reply, Event, event}

pub record World : Type 1 where
  -- the state of the services, of the clock and of the environment
  pub Ext : Type 0
  pub answer : (c : Call) → Ext → Reply c × Ext
  -- `uuid.Parse`, `gocql.ParseUUID`, `(uuid.UUID).String`
  pub parse_uuid : String → Result Uuid
  pub gocql_parse_uuid : String → Result Uuid
  pub uuid_text : Uuid → String
  -- `time.ParseDuration`, in nanoseconds
  pub parse_duration : String → Result ℤ
  -- midnight in UTC of the date that the local clock shows
  pub local_midnight : Time → Time
  -- `strconv.ParseFloat(s, 64)` and `fmt.Sprintf("%.4f", x)`
  pub parse_float : String → Result Float64
  pub four_decimals : Float64 → String
  -- `a + b`, `a / b`, `float64(n)`, `int64(x)`, `int32(x)`
  pub add : Float64 → Float64 → Float64
  pub divide : Float64 → Float64 → Float64
  pub of_int : ℤ → Float64
  pub to_int64 : Float64 → ℤ
  pub to_int32 : Float64 → ℤ
  -- `time.Time` in JSON, both ways
  pub time_text : Time → String
  pub parse_time : String → Result Time
  -- the text of a JSON value; the first value of a text (`json.NewDecoder(r).Decode`); the value of
  -- a whole text (`json.Unmarshal`)
  pub json_text : Json → String
  pub first_json : String → Result Json
  pub whole_json : String → Result Json
  -- what `url.Parse` objects to in an address, as `http.NewRequest` reports it
  pub url_error : String → Option Error
  -- `url.PathUnescape` of a segment of a path, which is kept where it is malformed; the `Location` of
  -- a redirect to a path with a query
  pub path_unescape : String → String
  pub location : String → List (String × String) → String

pub record State (W : World) : Type 0 where
  pub ext : World.Ext W
  pub log : List Event

module _ (W : World) where
  unfoldable pub perform : (c : Call) → Io (State W) (Reply c)
  perform c s =
      let (r, e) = World.answer W c s.ext in (r, record { ext = e; log = event c r ∷ s.log })

  -- `json.NewDecoder(r).Decode(&out)` of a body
  abbrev pub decode_stream : {A : Type 0} → (Json → Result A) → String → Result A
  decode_stream value body = World.first_json W body >>= value

  -- `json.Unmarshal(body, &out)`
  abbrev pub unmarshal : {A : Type 0} → (Json → Result A) → String → Result A
  unmarshal value body = World.whole_json W body >>= value
