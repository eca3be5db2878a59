-- ===== src/Cache/Collapse.antt =====
-- Two entries of one value in Valkey's sorted set (valkey.go).
use nostradamus_api.Prelude.{ℕ, String, ◌≡◌, Option, none, some}
use nostradamus_api.Go.Float64.{Float64}
use nostradamus_api.Go.Time.{unix_milli}
use nostradamus_api.Types.{Entry}
use nostradamus_api.World.{World}
use nostradamus_api.World.Calls.{z_add, expire}

-- A server that keeps sorted sets: one score for each member of a key. ZADD of a member that is there
-- replaces its score, and EXPIRE changes no score.
pub record SortedSets (W : World) : Type 0 where
  pub score : World.Ext W → String → Float64 → Option Float64
  pub adds :
      (key : String) (sc member : Float64) (x : World.Ext W)
      → (World.answer W (z_add key sc member) x).0 ≡ none
      → score (World.answer W (z_add key sc member) x).1 key member ≡ some sc
  pub keeps :
      (key : String) (sc member : Float64) (x : World.Ext W) (k : String) (m : Float64)
      → ¬ ((k ≡ key) × (m ≡ member))
      → score (World.answer W (z_add key sc member) x).1 k m ≡ score x k m
  pub expires :
      (key : String) (ttl : ℕ) (x : World.Ext W) (k : String) (m : Float64)
      → score (World.answer W (expire key ttl) x).1 k m ≡ score x k m

module _ (W : World) (sets : SortedSets W) (key : String) where
  score_of : Entry → Float64
  score_of e = World.of_int W (unix_milli e.timestamp)

  -- One member has the score of the entry, and no other member of any key is touched.
  record Scores (e : Entry) (before after : World.Ext W) : Type 0 where
    this : sets.score after key e.value ≡ some (score_of e)
    others :
        (k : String) (m : Float64)
        → ¬ ((k ≡ key) × (m ≡ e.value))
        → sets.score after k m ≡ sets.score before k m
