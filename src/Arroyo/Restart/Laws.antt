-- ===== src/Arroyo/Restart/Laws.antt =====
-- The requests that a restart makes, and what each of them has been answered.
use nostradamus_api.Prelude.{
  ℕ, String, ◌<>◌, ◌≡◌, ◌⊎◌, inl, inr, none, some, List, ◌∷◌, ◌*◌, arith, Option-cases,
}
use nostradamus_api.Errors.{Error}
use nostradamus_api.Go.Fallible.{Result, ok, err, Result-cases}
use nostradamus_api.Go.Json.{Json}
use nostradamus_api.Go.Time.{millisecond}
use nostradamus_api.Types.{Pipeline}
use nostradamus_api.World.{World, State, decode_stream}
use nostradamus_api.World.Calls.{HttpRequest, HttpResponse, Event, event, send, sleep}
use nostradamus_api.Arroyo.Client.{ArroyoClient, get_request, json_request}
use nostradamus_api.Arroyo.Wire.{decode_pipeline, restart_payload}
use nostradamus_api.Arroyo.Restart.{
  pipeline_path, parallelism_of, fetch_pipeline, delete_pipeline, recreate_pipeline,
  restart_pipeline,
}

module _ (W : World) (ac : ArroyoClient) (id : String) where
  abbrev url_of : String → String
  url_of path = "http://" <> ac.base_url <> path

  -- The definition `p` was read from an answer with status 200, by this one request.
  pub record Fetched (p : Pipeline) (before after : List Event) : Type 0 where
    pub resp : HttpResponse
    pub accepted : resp.status_code ≡ 200
    pub decoded : decode_stream W decode_pipeline resp.body ≡ ok p
    pub logged : after ≡ event (send (get_request ac (pipeline_path id))) (ok resp) ∷ before

  fetch_pipeline-ok :
      (p : Pipeline) (s : State W)
      → (fetch_pipeline W ac id s).0 ≡ ok p
      → Fetched p s.log (fetch_pipeline W ac id s).1.log
  unfolding fetch_pipeline
  fetch_pipeline-ok p s h = ground arith

  abbrev IsDeleted : ℕ → Type 0
  IsDeleted status = (status ≡ 200) ⊎ (status ≡ 204)

  -- The pipeline was deleted: the request was answered with status 200 or 204.
  pub record Deleted (before after : List Event) : Type 0 where
    pub resp : HttpResponse
    pub accepted : IsDeleted resp.status_code
    pub logged :
        after ≡ event (send (json_request "DELETE" ac (pipeline_path id) none)) (ok resp) ∷ before

  delete_pipeline-ok :
      (s : State W)
      → (delete_pipeline W ac id s).0 ≡ ok tt
      → Deleted s.log (delete_pipeline W ac id s).1.log
  unfolding delete_pipeline
  delete_pipeline-ok s h = ground arith

  abbrev IsCreated : ℕ → Type 0
  IsCreated status = (status ≡ 200) ⊎ (status ≡ 201)

  -- The payload that stands for the definition `p`.
  abbrev pub payload_of : Pipeline → Json
  payload_of p = restart_payload p.name p.query (parallelism_of p)

  -- A pipeline was created from the definition `p`.
  pub record Recreated (p : Pipeline) (before after : List Event) : Type 0 where
    pub resp : HttpResponse
    pub accepted : IsCreated resp.status_code
    pub logged :
        after
        ≡ event (send (json_request "POST" ac "/api/v1/pipelines" (some (payload_of p)))) (ok resp)
          ∷ before

  recreate_pipeline-ok :
      (p : Pipeline) (s : State W)
      → (recreate_pipeline W ac id p s).0 ≡ ok tt
      → Recreated p s.log (recreate_pipeline W ac id p s).1.log
  unfolding recreate_pipeline
  recreate_pipeline-ok p s h = ground arith

  -- No answer, or an answer whose status is not among those that are wanted.
  abbrev pub Rejected : (ℕ → Type 0) → Result HttpResponse → Type 0
  Rejected Wanted (ok resp) = ¬ Wanted resp.status_code
  Rejected Wanted (err _) = Unit {0}

  -- No answer, or an answer without status 200 or from which no definition can be read.
  abbrev pub Unusable : Result HttpResponse → Type 0
  Unusable (ok resp) =
      (p : Pipeline) → resp.status_code ≡ 200 → ¬ (decode_stream W decode_pipeline resp.body ≡ ok p)
  Unusable (err _) = Unit {0}

  fetch_pipeline-err :
      (e : Error) (s : State W)
      → (fetch_pipeline W ac id s).0 ≡ err e
      → (r : Result HttpResponse) × Unusable r
        × ((fetch_pipeline W ac id s).1.log
            ≡ event (send (get_request ac (pipeline_path id))) r ∷ s.log)
  unfolding fetch_pipeline
  fetch_pipeline-err e s h =
      let answer = (W.answer (send (get_request ac (pipeline_path id))) s.ext).0 in
      elim (Result-cases answer) [
        | inr (e', q) ↦ (err e', tt, ground (arith, q))
        | inl (resp, q) ↦
            (ok resp, (λ p a b. absurd (ground (arith, h, q, a, b))), ground (arith, q))
      ]

  -- A request with the wanted statuses failed: it was not sent, or its answer was rejected.
  pub data Failed (Wanted : ℕ → Type 0) (c : HttpRequest) (before after : List Event) : Type 0 where
    unsent :
        (e : Error) → W.url_error c.url ≡ some e → after ≡ before → Failed Wanted c before after
    rejected :
        (r : Result HttpResponse)
        → Rejected Wanted r
        → after ≡ event (send c) r ∷ before
        → Failed Wanted c before after

  delete_pipeline-err :
      (e : Error) (s : State W)
      → (delete_pipeline W ac id s).0 ≡ err e
      → Failed IsDeleted
          (json_request "DELETE" ac (pipeline_path id) none)
          s.log
          (delete_pipeline W ac id s).1.log
  unfolding delete_pipeline
  delete_pipeline-err e s h = elim (Option-cases (W.url_error (url_of (pipeline_path id)))) [
    | inl fine ↦
        let request = json_request "DELETE" ac (pipeline_path id) none in
        rejected (W.answer (send request) s.ext).0 (ground arith) (ground arith)
    | inr (e', bad) ↦ unsent e' bad (ground arith)
  ]

  recreate_pipeline-err :
      (p : Pipeline) (e : Error) (s : State W)
      → (recreate_pipeline W ac id p s).0 ≡ err e
      → Failed IsCreated
          (json_request "POST" ac "/api/v1/pipelines" (some (payload_of p)))
          s.log
          (recreate_pipeline W ac id p s).1.log
  unfolding recreate_pipeline
  recreate_pipeline-err p e s h = elim (Option-cases (W.url_error (url_of "/api/v1/pipelines"))) [
    | inl fine ↦
        let request = json_request "POST" ac "/api/v1/pipelines" (some (payload_of p)) in
        rejected (W.answer (send request) s.ext).0 (ground arith) (ground arith)
    | inr (e', bad) ↦ unsent e' bad (ground arith)
  ]

  -- How a restart ends. In the last ending the pipeline was deleted and no other was created.
  pub data Outcome (before after : List Event) : Result (Unit {0}) → Type 0 where
    -- fetched, deleted and created anew
    restarted :
        {p : Pipeline} {fetched deleted : List Event}
        → Fetched p before fetched
        → Deleted fetched deleted
        → Recreated p (event (sleep (500 * millisecond)) tt ∷ deleted) after
        → Outcome before after (ok tt)
    -- the only request was the one that fetches
    unfetched :
        (e : Error) (r : Result HttpResponse)
        → Unusable r
        → after ≡ event (send (get_request ac (pipeline_path id))) r ∷ before
        → Outcome before after (err e)
    -- fetched, and not deleted
    undeleted :
        (e : Error) {p : Pipeline} {fetched : List Event}
        → Fetched p before fetched
        → Failed IsDeleted (json_request "DELETE" ac (pipeline_path id) none) fetched after
        → Outcome before after (err e)
    -- fetched and deleted, and not created anew
    lost :
        (e : Error) {p : Pipeline} {fetched deleted : List Event}
        → Fetched p before fetched
        → Deleted fetched deleted
        → Failed IsCreated
            (json_request "POST" ac "/api/v1/pipelines" (some (payload_of p)))
            (event (sleep (500 * millisecond)) tt ∷ deleted)
            after
        → Outcome before after (err e)

  abbrev slept : World.Ext W → List Event → State W
  slept x deleted = record { ext = x; log = event (sleep (500 * millisecond)) tt ∷ deleted }

  recreate_pipeline-Outcome :
      (p : Pipeline) (x : World.Ext W) {before fetched deleted : List Event}
      → Fetched p before fetched
      → Deleted fetched deleted
      → Outcome before
          (recreate_pipeline W ac id p (slept x deleted)).1.log
          (recreate_pipeline W ac id p (slept x deleted)).0
  recreate_pipeline-Outcome p x {deleted} f d =
      elim (Result-cases (recreate_pipeline W ac id p (slept x deleted)).0) [
        | inl (_, q) ↦ rw q (restarted f d (recreate_pipeline-ok p (slept x deleted) q))
        | inr (e, q) ↦ rw q (lost e f d (recreate_pipeline-err p e (slept x deleted) q))
      ]

  -- A restart ends in exactly the way that its result tells: `ok` means that the definition was read,
  -- the pipeline deleted and created anew from what was read, in this order; an error means that it
  -- stopped at the first of these requests that failed, and no later request was made.
  pub restart_pipeline-Outcome :
      (s : State W)
      → Outcome s.log (restart_pipeline W ac id s).1.log (restart_pipeline W ac id s).0
  unfolding restart_pipeline
  restart_pipeline-Outcome s = elim (Result-cases (fetch_pipeline W ac id s).0) [
    | inr (e, q) ↦
        let (r, bad, logged) = fetch_pipeline-err e s q in rw q (unfetched e r bad logged)
    | inl (p, q) ↦
        let s₁ = (fetch_pipeline W ac id s).1 in
        elim (Result-cases (delete_pipeline W ac id s₁).0) [
          | inr (e, q') ↦
              rw (q, q') (undeleted e (fetch_pipeline-ok p s q) (delete_pipeline-err e s₁ q'))
          | inl (_, q') ↦
              rw (q, q')
                (recreate_pipeline-Outcome p _ (fetch_pipeline-ok p s q) (delete_pipeline-ok s₁ q'))
        ]
  ]
