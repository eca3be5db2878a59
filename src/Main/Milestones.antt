-- ===== src/Main/Milestones.antt =====
-- The calls that mark the start and the end of the program, and the parts of main that make none.
use nostradamus_api.Prelude.{
  String, ◌≡◌, refl, inl, inr, Bool, true, false, List, [], ◌∷◌, arith, if◌then◌else◌,
}
use nostradamus_api.Go.Fallible.{Result-cases}
use nostradamus_api.Go.Json.{slice_elems}
use nostradamus_api.World.{World, State, perform}
use nostradamus_api.World.Calls.{
  Call, Event, event, getenv, create_session, go_watch, go_supervise, listen_and_serve,
  close_session, close_cache, shutdown_tracer, cancel_watcher, cancel_supervisor,
}
use nostradamus_api.Arroyo.Client.{ArroyoClient}
use nostradamus_api.Arroyo.Tables.{list_connection_profiles}
use nostradamus_api.Cache.Valkey
use nostradamus_api.Cache.Memcached
use nostradamus_api.Emqx
use nostradamus_api.Routes.App.{warm_up}
use nostradamus_api.Main.{
  Driver, use_valkey, use_memcached, choose, app_of, choose_driver, load_profiles,
}

-- The calls that open, start or end something.
abbrev pub is_milestone : Call → Bool
is_milestone (create_session _ _) = true
is_milestone (go_watch _) = true
is_milestone (go_supervise _) = true
is_milestone (listen_and_serve _) = true
is_milestone (close_session _) = true
is_milestone (close_cache _) = true
is_milestone shutdown_tracer = true
is_milestone cancel_watcher = true
is_milestone cancel_supervisor = true
is_milestone _ = false

-- Those of a log, newest first.
abbrev pub milestones : List Event → List Call
milestones [] = []
milestones (event c _ ∷ log) =
    let rest = milestones log in if is_milestone c then c ∷ rest else rest

module _ (W : World) where
  pub milestones-list_connection_profiles :
      (s : State W) (ac : ArroyoClient)
      → milestones (list_connection_profiles W ac s).1.log ≡ milestones s.log
  unfolding list_connection_profiles
  milestones-list_connection_profiles s ac = ground arith

  pub milestones-new : (s : State W) → milestones (Emqx.new W s).1.log ≡ milestones s.log
  unfolding Emqx.new
  milestones-new s = refl

  pub milestones-warm_up :
      (ac : ArroyoClient) (ec : Emqx.EmqxClient) (d : Driver) (s : State W)
      → milestones (warm_up W (app_of W ac ec d) s).1.log ≡ milestones s.log
  unfolding warm_up Valkey.ping Memcached.ping
  milestones-warm_up ac ec use_valkey s = refl
  milestones-warm_up ac ec use_memcached s = refl

  pub milestones-choose :
      (url : String) (brokers : List String) (s : State W)
      → milestones (choose W url brokers s).1.log ≡ milestones s.log
  unfolding choose perform
  milestones-choose url brokers s =
      let (valkey_nodes, s₁) = perform W (getenv "VALKEY_NODES") s in
      let (memcached_node, s₂) = perform W (getenv "MEMCACHED_NODE") s₁ in
      let listed = list_connection_profiles W (record { base_url = url }) s₂ in
      let same = milestones-list_connection_profiles s₂ (record { base_url = url }) in
      elim (Result-cases (choose_driver valkey_nodes memcached_node)) [
        | inr (e, q) ↦ rw (q, choose) refl
        | inl (driver, q) ↦ elim (Result-cases listed.0) [
          | inr (e, q') ↦ rw (q, q', choose) same
          | inl (ps, q') ↦ elim (Result-cases (load_profiles (slice_elems ps))) [
            | inr (e, q'') ↦ rw (q, q', q'', choose) same
            | inl (profiles, q'') ↦ rw (q, q', q'', choose) same
          ]
        ]
      ]
