-- ===== src/Examples/Sets.antt =====
-- A world whose cache keeps sorted sets, and two readings of one value in it.
use nostradamus_api.Prelude.{
  ◌+◌, String, ◌≡◌, refl, ap, Bool, true, Option, none, some, [], str_eq, eq_iff, ◌==◌, ==_iff,
  ◌&&◌, if◌then◌else◌, if-cases, arith,
}
use nostradamus_api.Go.Float64.{Float64}
use nostradamus_api.Types.{Entry}
use nostradamus_api.World.{World, State}
use nostradamus_api.World.Calls.{Call, z_add}
use nostradamus_api.Cache.Valkey.{store}
use nostradamus_api.Cache.Collapse.{SortedSets}
use nostradamus_api.Examples.Desk.{desk, desk_answer, noon, float}

abbrev Scores : Type 0
Scores = String → Float64 → Option Float64

abbrev is_at : String → Float64 → String → Float64 → Bool
is_at key member k m = str_eq k key && (m.bits == member.bits)

abbrev scored : Call → Scores → Scores
scored (z_add key sc member) x = λ k m. if is_at key member k m then some sc else x k m
scored _ x = x

abbrev shelf_of_sets : World
shelf_of_sets = record desk { Ext = Scores; answer = λ c x. ((desk_answer c []).0, scored c x) }

is_at_refl : (key : String) (m : Float64) → is_at key m key m ≡ true
is_at_refl key m = ground (arith, (eq_iff key key).1 refl, (==_iff m.bits m.bits).1 refl)

is_at_only :
    (key : String) (member : Float64) (k : String) (m : Float64)
    → is_at key member k m ≡ true
    → (k ≡ key) × (m ≡ member)
is_at_only key member k m h =
    let (q, q') = both (str_eq k key) (m.bits == member.bits) h in
    ((eq_iff k key).0 q, ap (λ b. float b) ((==_iff m.bits member.bits).0 q'))
  where
    both : (a b : Bool) → (a && b) ≡ true → (a ≡ true) × (b ≡ true)
    both a b h = ground arith

sets : SortedSets shelf_of_sets
sets = record {
  score = λ x. x;
  adds = λ key sc member x h. rw (is_at_refl key member) refl;
  keeps = λ key sc member x k m ne.
      if-cases (λ o. o ≡ x k m) (is_at key member k m)
        (λ q. absurd (ne (is_at_only key member k m q))) (λ _. refl);
  expires = λ key ttl x k m. refl;
}

abbrev none_yet : State shelf_of_sets
none_yet = record { ext = λ k m. none; log = [] }

abbrev early : Entry
early = record { timestamp = noon; value = float 5 }

abbrev late : Entry
late = record { timestamp = noon + 60000000000; value = float 5 }

abbrev both_stored : State shelf_of_sets
both_stored = (store shelf_of_sets "k" late (store shelf_of_sets "k" early none_yet).1).1
