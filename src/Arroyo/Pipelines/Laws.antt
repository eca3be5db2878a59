-- ===== src/Arroyo/Pipelines/Laws.antt =====
-- What the pipeline handlers reply.
use nostradamus_api.Prelude.{◌≡◌, some, [], ◌∷◌, ◌++◌, arith}
use nostradamus_api.Errors.{Error, message}
use nostradamus_api.Go.Fallible.{err}
use nostradamus_api.Go.Http.{Writer, document}
use nostradamus_api.Go.Json.{null}
use nostradamus_api.Utils.{error_body, data_body, reply_json}
use nostradamus_api.Utils.Laws.{IsFresh}
use nostradamus_api.World.{World}
use nostradamus_api.Arroyo.Client.{ArroyoClient}
use nostradamus_api.Arroyo.Pipelines.{list_pipelines_reply}

-- Where the list of pipelines cannot be had, the body of the reply is two JSON documents, the error
-- and then an empty result, under status 500.
pub list_pipelines_reply-err :
    (W : World) (ac : ArroyoClient) (e : Error) (w : Writer)
    → IsFresh w
    → let w' = list_pipelines_reply W ac (err e) w in
      (w'.sent ≡ some (500, w.header ++ (("Content-Type", "application/json") ∷ [])))
      × (w'.body
          ≡ (w.body ++ (document (error_body (message e)) ∷ []))
            ++ (document (data_body null) ∷ []))
unfolding list_pipelines_reply reply_json
list_pipelines_reply-err W ac e w fresh = ground arith
