-- ===== src/System/Costs.antt =====
-- The writes of the whole server at work (mux.go).
use nostradamus_api.Prelude.{
  ℕ, ◌+◌, ◌≤◌, ◌≢◌, Bool, str_eq, arith, length, eq_iff, if◌then◌else◌, inl, inr, Bool-cases,
}
use nostradamus_api.Go.Http.{Request, Writer, new_writer}
use nostradamus_api.Go.Io.{Io}
use nostradamus_api.World.{World, State}
use nostradamus_api.World.Trace.{writes}
use nostradamus_api.World.Only.{makes, writes-Makes}
use nostradamus_api.Arroyo.Wire.{ProfileCache}
use nostradamus_api.Routes.App.{App}
use nostradamus_api.Routes.Mux.{mux}
use nostradamus_api.Routes.Quiet.{mux_by, mux-Quiet}
use nostradamus_api.Routes.Quiet.Reads.{Quiet}
use nostradamus_api.Routes.Quiet.Caches.{IsQuiet}
use nostradamus_api.System.{System, on_request, on_watcher, on_supervisor, Reach, here, later}
use nostradamus_api.System.Turns.{watcher_turn-Quiet, supervisor_turn-Quiet}
use nostradamus_api.System.Writes.{
  Within, within_of, Quiet-Within, register_field_handler-Within, register_sensor_handler-Within,
}

abbrev is_post : Request → Bool
is_post r = str_eq r.method "POST"

-- What a request may write: three statements if it is a POST, and none otherwise.
abbrev pub cost : Request → ℕ
cost r = if is_post r then 3 else 0

-- What the requests of a run may write.
abbrev pub costs :
    {W : World} {app : App W} {profiles : ProfileCache}
    {prometheus : Request → Writer → Io (State W) Writer} {first s : System W}
    → Reach W app profiles prometheus first s
    → ℕ
costs here = 0
costs (later reach (on_request r)) = cost r + costs reach
costs (later reach on_watcher) = costs reach
costs (later reach on_supervisor) = costs reach

module _ (W : World) (app : App W) (prometheus : Request → Writer → Io (State W) Writer)
    (cache : IsQuiet W app.cache)
    (plain : (r : Request) (w : Writer) (s : State W) → Quiet W s (prometheus r w s)) where
  mux-Within : (r : Request) (w : Writer) (s : State W) → Within W 3 s (mux W app prometheus r w s)
  mux-Within r w s =
      mux_by W app prometheus cache r s (Within W 3 s) (λ out h. Quiet-Within W 3 h)
        (λ w q. register_field_handler-Within W r w s)
        (λ w q. register_sensor_handler-Within W r w s app) w
        (λ e w'. Quiet-Within W 3 (plain r w' s))

  mux-cost :
      (r : Request) (s : State W)
      → length (writes (mux W app prometheus r new_writer s).1.log) ≤ cost r + length (writes s.log)
  mux-cost r s = elim (Bool-cases (is_post r)) [
    | inl q ↦ rw q (within_of W 3 (mux-Within r new_writer s))
    | inr q ↦
        let other : r.method ≢ "POST" =
          λ e. absurd (ground (arith, q, (eq_iff r.method "POST").1 e)) in
        let same = mux-Quiet W app prometheus cache r s new_writer other (λ _ w. plain r w s) in
        rw (q, writes-Makes W (makes W same)) (omega arith)
  ]

  module _ (profiles : ProfileCache) (first : System W) where
    -- However the requests, the watcher and the supervisor take turns, where neither the cache nor the
    -- handler of the Prometheus client writes to the database: the number of writes that were sent to
    -- the database grows by at most three for each POST request among the turns, whatever other
    -- requests and turns there are between them.
    pub Reach-costs :
        {s : System W} (reach : Reach W app profiles prometheus first s)
        → length (writes s.state.log) ≤ costs reach + length (writes first.state.log)
    Reach-costs here = omega arith
    Reach-costs (later {s} reach (on_request r)) =
        omega (arith, Reach-costs reach, mux-cost r s.state)
    Reach-costs (later {s} reach on_watcher) =
        let turn =
          watcher_turn-Quiet W app.arroyo profiles s.watching.known s.watching.left s.state in
        rw (writes-Makes W (makes W turn)) (Reach-costs reach)
    Reach-costs (later {s} reach on_supervisor) =
        let turn = supervisor_turn-Quiet W app.arroyo s.checking s.state in
        rw (writes-Makes W (makes W turn)) (Reach-costs reach)
