-- ===== src/Examples/Vault.antt =====
-- A world whose database keeps the credentials that it is given, and the registration of a sensor
-- there.
use text.Mathlib.TextLemmas.{cons-ne-nil}
use nostradamus_api.Prelude.{String, ◌≡◌, refl, none, List, [], ◌∷◌, ◌==◌, ==_iff, if◌then◌else◌}
use nostradamus_api.Prelude.Int.{pos}
use nostradamus_api.Errors.{gocql_not_found}
use nostradamus_api.Go.Fallible.{Result, ok, err}
use nostradamus_api.Go.Http.{Request, new_writer, query_get}
use nostradamus_api.Types.{Sensor}
use nostradamus_api.Utils.{reply_json, data_body}
use nostradamus_api.World.{World, State, perform}
use nostradamus_api.World.Calls
use nostradamus_api.World.Calls.{Uuid, Call, Reply, scan_one, exec}
use nostradamus_api.Db.Sensors.{store_sensor_credentials}
use nostradamus_api.Cache.Drivers.{valkey}
use nostradamus_api.Routes.App.{App}
use nostradamus_api.Routes.Sensors.{provision, credentials_json, get_sensor_credentials_handler}
use nostradamus_api.Routes.Sensors.Laws.{
  KeepsCredentials, registered_json, get_sensor_credentials-provision,
}
use nostradamus_api.Examples.Desk.{desk, desk_answer, arroyo, emqx}

-- The user and the password by sensor, the last first.
abbrev Vault : Type 0
Vault = List (Uuid × String × String)

abbrev kept : Uuid → Vault → Result (String × String)
kept sensor [] = err gocql_not_found
kept sensor ((other, user, pass) ∷ rows) =
    if other == sensor then ok (user, pass) else kept sensor rows

abbrev reply : (c : Call) → Vault → Reply c
reply (scan_one (Calls.credentials_of sensor)) x = kept sensor x
reply c x = (desk_answer c []).0

abbrev next : Call → Vault → Vault
next (exec (Calls.update_credentials user pass _ sensor)) x = (sensor, user, pass) ∷ x
next _ x = x

abbrev vault : World
vault = record desk { Ext = Vault; answer = λ c x. (reply c x, next c x) }

abbrev vault_app : App vault
vault_app = record { cache = valkey vault; arroyo = arroyo; emqx = emqx; driver = "valkey" }

kept-first :
    (sensor : Uuid) (user pass : String) (rows : Vault)
    → kept sensor ((sensor, user, pass) ∷ rows) ≡ ok (user, pass)
kept-first sensor user pass rows = rw ((==_iff sensor sensor).1 refl, kept) refl

vault_credentials : KeepsCredentials vault
vault_credentials = record {
  Holds = λ x sensor c. kept sensor x ≡ ok c;
  updates = λ user pass field_id sensor x h. kept-first sensor user pass x;
  reads = λ user pass sensor x h. h;
}

abbrev probe : Sensor
probe = record {
  sensor_id = 7;
  sensor_name = "probe";
  sensor_type = pos 1;
  field_id = none;
  field_name = "";
}

abbrev empty : State vault
empty = record { ext = []; log = [] }

abbrev asked : Request
asked = record {
  method = "GET";
  path = "/sensors/credentials";
  query = ("sensor_id", "7") ∷ [];
  body = "";
}

get_sensor_credentials-provision_example :
    let (w₁, s₁) = provision vault vault_app 5 "probe" probe new_writer empty in
    (w₁
      ≡ reply_json 201
          (data_body (registered_json vault "00000000_probe" "00000000-000" probe))
          new_writer)
    × ((get_sensor_credentials_handler vault asked new_writer s₁).0
        ≡ reply_json 200
            (data_body (
              credentials_json
                (record { mqtt_user = "00000000_probe"; mqtt_pass = "00000000-000" })))
            new_writer)
unfolding store_sensor_credentials perform query_get
get_sensor_credentials-provision_example =
    get_sensor_credentials-provision vault vault_app vault_credentials 5 "probe" probe new_writer
      empty refl asked new_writer refl (λ e. cons-ne-nil "7" "" e) refl
