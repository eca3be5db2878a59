-- ===== src/Main/Laws.antt =====
-- What the program has settled before it serves.
use mathlib.Core.List.{Memᴰ}
use nostradamus_api.Prelude.{
  String, ◌≡◌, refl, ap, subst, ◌⊎◌, inl, inr, false, List, [], ◌∷◌, str_eq, arith, eq_iff,
  Bool-cases,
}
use nostradamus_api.Go.Fallible.{ok}
use nostradamus_api.Arroyo.Wire.{ConnectionProfile, ProfileCache}
use nostradamus_api.Main.{
  Driver, use_valkey, use_memcached, choose_driver, note_profile, note_profiles, load_profiles,
}

-- A driver is chosen only where exactly one of the two settings is there, and it is that one's.
pub choose_driver-ok :
    (valkey_nodes memcached_node : String) (d : Driver)
    → choose_driver valkey_nodes memcached_node ≡ ok d
    → ((d ≡ use_valkey) × (¬ (valkey_nodes ≡ "")) × (memcached_node ≡ ""))
      ⊎ ((d ≡ use_memcached) × (valkey_nodes ≡ "") × (¬ (memcached_node ≡ "")))
unfolding choose_driver
choose_driver-ok v m d h = ground (arith, eq_iff v "", eq_iff m "")

-- A profile of the list with this connector and identifier.
abbrev pub Lists : String → String → List ConnectionProfile → Type 0
Lists connector id ps =
    (p : ConnectionProfile) × Memᴰ p ps × (p.connector ≡ connector) × (p.id ≡ id)

weaken :
    {connector id : String} {p : ConnectionProfile} {ps : List ConnectionProfile}
    → Lists connector id ps
    → Lists connector id (p ∷ ps)
weaken (q, m, c, i) = (q, Memᴰ.tail m, c, i)

note_profiles-kafka :
    (c : ProfileCache) (ps : List ConnectionProfile)
    → ((note_profiles c ps).kafka_profile_id ≡ c.kafka_profile_id)
      ⊎ Lists "kafka" (note_profiles c ps).kafka_profile_id ps
unfolding note_profiles
note_profiles-kafka c [] = inl refl
note_profiles-kafka c (p ∷ ps) = elim (note_profiles-kafka (note_profile c p) ps) [
  | inr found ↦ inr (weaken found)
  | inl same ↦ elim (Bool-cases (str_eq p.connector "kafka")) [
    | inl q ↦ inr (p, Memᴰ.head refl, (eq_iff p.connector "kafka").0 q, ground (arith, same, q))
    | inr q ↦ inl (ground (arith, same, q))
  ]
]

note_profiles-scylla :
    (c : ProfileCache) (ps : List ConnectionProfile)
    → ((note_profiles c ps).scylla_profile_id ≡ c.scylla_profile_id)
      ⊎ Lists "scylla" (note_profiles c ps).scylla_profile_id ps
unfolding note_profiles
note_profiles-scylla c [] = inl refl
note_profiles-scylla c (p ∷ ps) = elim (note_profiles-scylla (note_profile c p) ps) [
  | inr found ↦ inr (weaken found)
  | inl same ↦ elim (Bool-cases (str_eq p.connector "scylla")) [
    | inl q ↦
        let one = (eq_iff p.connector "scylla").0 q in
        let other : str_eq p.connector "kafka" ≡ false = ap (λ k. str_eq k "kafka") one in
        inr (p, Memᴰ.head refl, one, ground (arith, same, q, other))
    | inr q ↦ inl (ground (arith, same, q))
  ]
]

abbrev empty : ProfileCache
empty = record { kafka_profile_id = ""; scylla_profile_id = "" }

-- The program goes on only with the identifiers of a Kafka and of a Scylla profile that Arroyo lists,
-- neither of them empty.
pub load_profiles-ok :
    (ps : List ConnectionProfile) (c : ProfileCache)
    → load_profiles ps ≡ ok c
    → (Lists "kafka" c.kafka_profile_id ps × (¬ (c.kafka_profile_id ≡ "")))
      × (Lists "scylla" c.scylla_profile_id ps × (¬ (c.scylla_profile_id ≡ "")))
unfolding load_profiles
load_profiles-ok ps c h =
    let k = note_profiles-kafka empty ps in
    let s = note_profiles-scylla empty ps in
    let n = note_profiles empty ps in
    let same : n ≡ c = ground arith in
    let kafka : ¬ (n.kafka_profile_id ≡ "") =
      λ e. ground (arith, h, e, eq_iff n.kafka_profile_id "") in
    let scylla : ¬ (n.scylla_profile_id ≡ "") =
      λ e. ground (arith, h, e, eq_iff n.scylla_profile_id "") in
    subst
      (λ d.
        (Lists "kafka" d.kafka_profile_id ps × (¬ (d.kafka_profile_id ≡ "")))
        × (Lists "scylla" d.scylla_profile_id ps × (¬ (d.scylla_profile_id ≡ ""))))
      same
      (
        (elim k [ inl e ↦ absurd (kafka e) | inr found ↦ found ], kafka),
        (elim s [ inl e ↦ absurd (scylla e) | inr found ↦ found ], scylla),
      )
