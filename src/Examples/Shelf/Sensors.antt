-- ===== src/Examples/Shelf/Sensors.antt =====
-- The shelf keeps the rows of sensors.
use mathlib.Core.List.{Memᴰ}
use nostradamus_api.Prelude.{
  ◌<◌, String, ◌≡◌, ◌≢◌, ◌↔◌, refl, ap, sym, ◌∙◌, ◌⊎◌, inl, inr, Bool, ◌&&◌, true, Option, none,
  some, List, [], ◌∷◌, arith, ◌==◌, ==_iff, Bool-cases, if-cases,
}
use nostradamus_api.Go.Fallible.{ok}
use nostradamus_api.World.Calls.{Uuid}
use nostradamus_api.Db.Sensors.Store.{SensorRow, SensorStore}
use nostradamus_api.Examples.Shelf.{
  Shelf, shelf, find_sensor, sensor_name, sensors_above, ids_in, rows_in, next-sensors,
}

abbrev pub HasSensor : Shelf → SensorRow → Type 0
HasSensor x (field, id, name, text) = find_sensor field id x.sensors ≡ some (name, text)

both : (a b : Bool) → (a && b) ≡ true → (a ≡ true) × (b ≡ true)
both a b h = ground arith

pub mem-ids_in :
    (field id : Uuid) (row : String × String) (rows : List SensorRow)
    → find_sensor field id rows ≡ some row
    → Memᴰ id (ids_in field rows)
mem-ids_in field id row [] h = absurd (ground (arith, h))
mem-ids_in field id row ((f, j, n, t) ∷ rows) h = elim (Bool-cases ((f == field) && (j == id))) [
  | inl q ↦
      let (p, p') = both (f == field) (j == id) q in
      rw (p, ids_in) (Memᴰ.head (sym ((==_iff j id).0 p')))
  | inr q ↦
      let rest = mem-ids_in field id row rows (ground (arith, q, h)) in
      if-cases (λ l. Memᴰ id l) (f == field) (λ _. Memᴰ.tail rest) (λ _. rest)
]

pub find_sensor-lt-above :
    (field id : Uuid) (row : String × String) (rows : List SensorRow)
    → find_sensor field id rows ≡ some row
    → id < sensors_above rows
find_sensor-lt-above field id row [] h = absurd (ground (arith, h))
find_sensor-lt-above field id row ((f, j, n, t) ∷ rows) h =
    elim (Bool-cases ((f == field) && (j == id))) [
      | inl q ↦ let same = (==_iff j id).0 (both (f == field) (j == id) q).1 in omega (arith, same)
      | inr q ↦
          let less = find_sensor-lt-above field id row rows (ground (arith, q, h)) in omega arith
    ]

pub sensor_name_iff :
    (name : String) (o : Option (String × String))
    → ((text : String) × (o ≡ some (name, text))) ↔ (sensor_name o ≡ ok name)
sensor_name_iff name none = (λ h. absurd (ground (arith, h.1)), λ h. absurd (ground (arith, h)))
sensor_name_iff name (some (n, t)) = (λ h. ground (arith, h.1), λ h. (t, ground (arith, h)))

pub find_sensor-add :
    (field id : Uuid) (name text : String) (rows : List SensorRow) (g : SensorRow)
    → ((h : SensorRow) → find_sensor h.0 h.1 rows ≡ some (h.2, h.3) → h.1 ≢ id)
    → (find_sensor g.0 g.1 ((field, id, name, text) ∷ rows) ≡ some (g.2, g.3))
      ↔ ((find_sensor g.0 g.1 rows ≡ some (g.2, g.3)) ⊎ (g ≡ (field, id, name, text)))
find_sensor-add field id name text rows (f, i, n, t) new =
    elim (Bool-cases ((field == f) && (id == i))) [
      | inl q ↦
          let (p, p') = both (field == f) (id == i) q in
          let e : field ≡ f = (==_iff field f).0 p in
          let e' : id ≡ i = (==_iff id i).0 p' in
          (
            λ h. inr (ground (arith, q, h, e, e')),
            λ h. elim h [
              | inl old ↦ absurd (new (f, i, n, t) old (sym e'))
              | inr r ↦ ground (arith, q, r)
            ],
          )
      | inr q ↦ (
        λ h. inl (ground (arith, q, h)),
        λ h. elim h [ inl old ↦ ground (arith, q, old) | inr r ↦ absurd (ground (arith, q, r)) ],
      )
    ]

pub mem-rows_in :
    (field id : Uuid) (row : String × String) (rows : List SensorRow)
    → find_sensor field id rows ≡ some row
    → Memᴰ (id, row.0, row.1, "") (rows_in field rows)
mem-rows_in field id row [] h = absurd (ground (arith, h))
mem-rows_in field id row ((f, j, n, t) ∷ rows) h = elim (Bool-cases ((f == field) && (j == id))) [
  | inl q ↦
      let (p, p') = both (f == field) (j == id) q in
      let e' : j ≡ id = (==_iff j id).0 p' in
      let same : (n, t) ≡ row = ground (arith, q, h) in
      rw (p, rows_in) (Memᴰ.head (ground (arith, e', same)))
  | inr q ↦
      let rest = mem-rows_in field id row rows (ground (arith, q, h)) in
      if-cases (λ l. Memᴰ (id, row.0, row.1, "") l) (f == field) (λ _. Memᴰ.tail rest) (λ _. rest)
]

unfoldable pub shelf_sensors : SensorStore shelf
shelf_sensors = record {
  Has = HasSensor;
  keeps = λ c x h g.
      let same = ap (find_sensor g.0 g.1) (next-sensors c x h) in
      (λ a. sym same ∙ a, λ a. same ∙ a);
  lists_ids = λ field id name text x h. mem-ids_in field id _ x.sensors h;
  closes_ids = λ field x. refl;
  names = λ field id name x. sensor_name_iff name (find_sensor field id x.sensors);
  inserts = λ field id name text x new.
      inl (refl, λ g. find_sensor-add field id name text x.sensors g new);
  updates = λ user pass field id name text x h g. (λ a. a, λ a. a);
  fresh = λ x g h e.
      let less = find_sensor-lt-above g.0 g.1 (g.2, g.3) x.sensors h in
      absurd (omega (arith, less, e));
  closes = λ field x. refl;
  lists = λ field id name text x h. ("", mem-rows_in field id _ x.sensors h);
}
