-- ===== src/Worker/Laws.antt =====
-- What a pass of the supervisor asks Arroyo for, and which pipelines it restarts.
use mathlib.Core.List.{Memᴰ}
use nostradamus_api.Prelude.{
  ◌≡◌, refl, ap, ◌∙◌, ◌⊎◌, ◌↔◌, inl, inr, true, false, Option, List, [], ◌∷◌, ◌++◌, arith, eq_iff,
  Bool-cases,
}
use nostradamus_api.Errors.{Error}
use nostradamus_api.Go.Fallible.{Result, ok, err, Result-cases}
use nostradamus_api.Go.Json.{slice_elems}
use nostradamus_api.World.{World, State}
use nostradamus_api.World.Calls.{HttpResponse, Event, event, send}
use nostradamus_api.Arroyo.Client.{ArroyoClient, get_request, get}
use nostradamus_api.Arroyo.Restart.Laws.{Outcome, restart_pipeline-Outcome}
use nostradamus_api.Worker.{
  Listed, WatchedJob, is_down, has_failed, jobs_path, decode_jobs, decode_listing, inspect,
  check_pipeline, check_pipelines, check_and_restart_pipelines, Wake, tick, done, monitor,
}

abbrev pub IsDown : WatchedJob → Type 0
IsDown j = (j.state ≡ "Stopped") ⊎ (j.state ≡ "Failed")

-- The list has a job in state "Stopped" or "Failed".
abbrev pub HasDown : List WatchedJob → Type 0
HasDown jobs = (j : WatchedJob) × Memᴰ j jobs × IsDown j

is_down_iff : (j : WatchedJob) → (is_down j ≡ true) ↔ IsDown j
is_down_iff j = ground (arith, eq_iff j.state "Stopped", eq_iff j.state "Failed")

has_failed_sound :
    (jobs : List WatchedJob) → has_failed jobs ≡ true → (j : WatchedJob) × Memᴰ j jobs × IsDown j
unfolding has_failed
has_failed_sound [] h = cc
has_failed_sound (j ∷ jobs) h = elim (Bool-cases (is_down j)) [
  | inl down ↦ (j, Memᴰ.head refl, (is_down_iff j).0 down)
  | inr up ↦
      let (k, listed, down) = has_failed_sound jobs (ground arith) in (k, Memᴰ.tail listed, down)
]

has_failed_complete :
    (jobs : List WatchedJob) (j : WatchedJob) → Memᴰ j jobs → IsDown j → has_failed jobs ≡ true
unfolding has_failed
has_failed_complete [] j m down = elim m [ ]
has_failed_complete (k ∷ jobs) j (Memᴰ.head e) down = ground (arith, is_down_iff k)
has_failed_complete (k ∷ jobs) j (Memᴰ.tail m) down =
    ground (arith, has_failed_complete jobs j m down)

-- The loop over the jobs finds one that is down exactly when the list has a job in state "Stopped"
-- or "Failed".
pub has_failed_iff : (jobs : List WatchedJob) → (has_failed jobs ≡ true) ↔ HasDown jobs
has_failed_iff jobs =
    (has_failed_sound jobs, λ found. has_failed_complete jobs found.0 found.1 found.2)

none_down : (jobs : List WatchedJob) → has_failed jobs ≡ false → ¬ HasDown jobs
none_down jobs h found = absurd (ground (arith, h, (has_failed_iff jobs).1 found))

any_down : (jobs : List WatchedJob) → has_failed jobs ≡ true → HasDown jobs
any_down jobs h = (has_failed_iff jobs).0 h

abbrev listed_jobs : Result (Option (List WatchedJob)) → List WatchedJob
listed_jobs (err _) = []
listed_jobs (ok jobs) = slice_elems jobs

module _ (W : World) (ac : ArroyoClient) where
  -- The jobs that the answer lists; none if there is no answer, or it cannot be decoded.
  abbrev reported : Result HttpResponse → List WatchedJob
  reported (err _) = []
  reported (ok resp) = listed_jobs (decode_jobs W ac resp.body)

  -- One pipeline was looked at: its jobs were asked for, and it was restarted if one is down.
  pub data Checked (p : Listed) (before after : List Event) : Type 0 where
    left :
        (r : Result HttpResponse)
        → ¬ HasDown (reported r)
        → after ≡ event (send (get_request ac (jobs_path p.id))) r ∷ before
        → Checked p before after
    restarted :
        (r : Result HttpResponse) (result : Result (Unit {0}))
        → HasDown (reported r)
        → Outcome W ac p.id (event (send (get_request ac (jobs_path p.id))) r ∷ before) after result
        → Checked p before after

  inspect-Checked :
      (p : Listed) (r : Result HttpResponse) (x : World.Ext W) (before : List Event)
      → let log = event (send (get_request ac (jobs_path p.id))) r ∷ before in
        Checked p before (inspect W ac p r (record { ext = x; log = log })).1.log
  unfolding inspect has_failed
  inspect-Checked p (err e) x before = left (err e) (none_down [] refl) refl
  inspect-Checked p (ok resp) x before = elim (Result-cases (decode_jobs W ac resp.body)) [
    | inr (e, q) ↦
        rw (q, inspect) (left (ok resp) (none_down _ (rw (q, listed_jobs, has_failed) refl)) refl)
    | inl (jobs, q) ↦ elim (Bool-cases (has_failed (slice_elems jobs))) [
      | inl down ↦
          let asked = event (send (get_request ac (jobs_path p.id))) (ok resp) ∷ before in
          rw (q, inspect, down)
            (restarted (ok resp) _ (any_down _ (ap has_failed (ap listed_jobs q) ∙ down))
              (restart_pipeline-Outcome W ac p.id (record { ext = x; log = asked })))
      | inr up ↦
          rw (q, inspect, up)
            (left (ok resp) (none_down _ (ap has_failed (ap listed_jobs q) ∙ up)) refl)
    ]
  ]

  check_pipeline-Checked :
      (p : Listed) (s : State W) → Checked p s.log (check_pipeline W ac p s).1.log
  unfolding check_pipeline get
  check_pipeline-Checked p s =
      let (r, x) = W.answer (send (get_request ac (jobs_path p.id))) s.ext in
      inspect-Checked p r x s.log

  -- Every pipeline of the list was looked at, once and in the order of the list.
  pub data Pass : List Listed → List Event → List Event → Type 0 where
    stop : {log : List Event} → Pass [] log log
    next :
        {p : Listed} {ps : List Listed} {before between after : List Event}
        → Checked p before between
        → Pass ps between after
        → Pass (p ∷ ps) before after

  check_pipelines-Pass :
      (ps : List Listed) (s : State W) → Pass ps s.log (check_pipelines W ac ps s).1.log
  unfolding check_pipelines
  check_pipelines-Pass [] s = stop
  check_pipelines-Pass (p ∷ ps) s =
      next (check_pipeline-Checked p s) (check_pipelines-Pass ps (check_pipeline W ac p s).1)

  -- No answer, or an answer from which no list can be read.
  abbrev pub Unlisted : Result HttpResponse → Type 0
  Unlisted (ok resp) = (ps : Option (List Listed)) → ¬ (decode_listing W ac resp.body ≡ ok ps)
  Unlisted (err _) = Unit {0}

  -- How a call of `checkAndRestartPipelines` ends.
  pub data Supervised (before after : List Event) : Result (Unit {0}) → Type 0 where
    unlisted :
        (e : Error) (r : Result HttpResponse)
        → Unlisted r
        → after ≡ event (send (get_request ac "/api/v1/pipelines")) r ∷ before
        → Supervised before after (err e)
    passed :
        (resp : HttpResponse) (ps : Option (List Listed))
        → decode_listing W ac resp.body ≡ ok ps
        → Pass
            (slice_elems ps)
            (event (send (get_request ac "/api/v1/pipelines")) (ok resp) ∷ before)
            after
        → Supervised before after (ok tt)

  -- A pass fails only where the list cannot be fetched or decoded, after that one request. Otherwise
  -- it looks at every pipeline of the list, once and in order, whatever becomes of the others, and
  -- restarts one exactly when the answer for its jobs lists a job in state "Stopped" or "Failed".
  pub check_and_restart_pipelines-Supervised :
      (s : State W)
      → Supervised s.log
          (check_and_restart_pipelines W ac s).1.log
          (check_and_restart_pipelines W ac s).0
  unfolding check_and_restart_pipelines get
  check_and_restart_pipelines-Supervised s =
      elim (Result-cases (W.answer (send (get_request ac "/api/v1/pipelines")) s.ext).0) [
        | inr (e, q) ↦ rw q (unlisted _ (err e) tt refl)
        | inl (resp, q) ↦ elim (Result-cases (decode_listing W ac resp.body)) [
          | inr (e, q') ↦
              rw (q, q') (unlisted _ (ok resp) (λ ps a. absurd (ground (arith, q', a))) refl)
          | inl (ps, q') ↦ rw (q, q') (passed resp ps q' (check_pipelines-Pass _ _))
        ]
      ]

  -- Nothing is asked for after the context was cancelled.
  pub monitor-done :
      (early late : List Wake) (s : State W)
      → monitor W ac (early ++ (done ∷ late)) s ≡ monitor W ac early s
  unfolding monitor
  monitor-done [] late s = refl
  monitor-done (done ∷ early) late s = refl
  monitor-done (tick ∷ early) late s = monitor-done early late _
