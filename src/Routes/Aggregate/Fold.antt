-- ===== src/Routes/Aggregate/Fold.antt =====
-- The loop of `aggregateHandler` over the readings, and the record that it makes.
pub mod Laws
use nostradamus_api.Prelude.{Option, none, some, List, [], ◌∷◌, length, if◌then◌else◌}
use nostradamus_api.Prelude.Int.{pos}
use nostradamus_api.Go.Float64.{Float64, less}
use nostradamus_api.Go.Time.{Time}
use nostradamus_api.Types.{Aggregate}
use nostradamus_api.World.{World}

pub record Running : Type 0 where
  pub sum : Float64
  pub min : Float64
  pub max : Float64

module _ (W : World) where
  -- One round of the loop.
  unfoldable pub accumulate : Running → Float64 → Running
  accumulate t v = record {
    sum = World.add W t.sum v;
    min = if less v t.min then v else t.min;
    max = if less t.max v then v else t.max;
  }

  unfoldable pub accumulate_all : Running → List Float64 → Running
  accumulate_all t [] = t
  accumulate_all t (v ∷ vs) = accumulate_all (accumulate t v) vs

  -- The aggregate of the readings; `none` where there is none.
  unfoldable pub aggregate : Time → List Float64 → Option Aggregate
  aggregate time [] = none
  aggregate time (v ∷ vs) =
      let t = accumulate_all (record { sum = record { bits = 0 }; min = v; max = v }) (v ∷ vs) in
      some (record {
        avg = World.divide W t.sum (World.of_int W (pos (length (v ∷ vs))));
        min = t.min;
        max = t.max;
        count = pos (length (v ∷ vs));
        timestamp = time;
      })
