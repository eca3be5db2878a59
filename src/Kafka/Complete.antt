-- ===== src/Kafka/Complete.antt =====
-- What becomes of each topic that Kafka lists in a round (watcher.go).
use mathlib.Core.List.{Memᴰ}
use nostradamus_api.Prelude.{
  ◌*◌, String, ◌≡◌, sym, subst, true, List, [], ◌∷◌, arith, eq_iff, if-cases, inl, inr,
}
use nostradamus_api.Errors.{Error}
use nostradamus_api.Go.Fallible.{ok, err, Result-cases}
use nostradamus_api.World.{World, State, perform}
use nostradamus_api.World.Calls.{Call, Event, topics, sleep, refresh_metadata}
use nostradamus_api.World.Trace.{Grows, Grows-trans, Grows-cons}
use nostradamus_api.Arroyo.Client.{ArroyoClient}
use nostradamus_api.Arroyo.Wire.{ProfileCache}
use nostradamus_api.Kafka.Flow.{create_arroyo_flow}
use nostradamus_api.Kafka.Watcher.{knows, is_ignored, watch_topic, watch_topics, round, second}
use nostradamus_api.Kafka.Requested.{create_arroyo_flow-Grows}

module _ (W : World) (ac : ArroyoClient) (profiles : ProfileCache) where
  -- The topic is not for the watcher, or it is known, or its flow was asked for and failed.
  pub data Handled (known : List String) (log : List Event) (topic : String) : Type 0 where
    ignored : is_ignored topic ≡ true → Handled known log topic
    known : knows known topic ≡ true → Handled known log topic
    failed :
        (s : State W) (e : Error)
        → (create_arroyo_flow W ac profiles topic s).0 ≡ err e
        → Grows (create_arroyo_flow W ac profiles topic s).1.log log
        → Handled known log topic

  abbrev HandledAt : String → List String × State W → Type 0
  HandledAt topic out = Handled out.0 out.1.log topic

  -- What later turns of the loop keep.
  record Later (before after : List String × State W) : Type 0 where
    knows_still : (topic : String) → knows before.0 topic ≡ true → knows after.0 topic ≡ true
    grows : Grows before.1.log after.1.log

  Later-trans : {a b c : List String × State W} → Later a b → Later b c → Later a c
  Later-trans h k = record {
    knows_still = λ topic q. k.knows_still topic (h.knows_still topic q);
    grows = Grows-trans h.grows k.grows;
  }

  Handled-Later :
      (before after : List String × State W) (topic : String)
      → Later before after
      → Handled before.0 before.1.log topic
      → Handled after.0 after.1.log topic
  Handled-Later b a topic later (ignored q) = ignored q
  Handled-Later b a topic later (known q) = known (later.knows_still topic q)
  Handled-Later b a topic later (failed s e q grows) = failed s e q (Grows-trans grows later.grows)

  performed : (c : Call) (s : State W) → Grows s.log (perform W c s).1.log
  unfolding perform
  performed c s = Grows-cons _ _

  watch_topic-Later :
      (names : List String) (topic : String) (s : State W)
      → Later (names, s) (watch_topic W ac profiles names topic s)
  unfolding watch_topic
  watch_topic-Later names topic s =
      let same : Later (names, s) (names, s) = record {
        knows_still = λ t q. q;
        grows = λ e m. m;
      } in
      let (r, s') = create_arroyo_flow W ac profiles topic s in
      let grows = create_arroyo_flow-Grows W ac profiles topic s in
      if-cases (Later (names, s)) (is_ignored topic) (λ _. same)
        (λ _.
          if-cases (Later (names, s)) (knows names topic) (λ _. same)
            (λ _. elim (Result-cases r) [
              | inr (e, q) ↦ rw q (record { knows_still = λ t k. k; grows = grows })
              | inl (_, q) ↦ rw q (record { knows_still = λ t k. ground arith; grows = grows })
            ]))

  watch_topics-Later :
      (listed names : List String) (s : State W)
      → Later (names, s) (watch_topics W ac profiles names listed s)
  unfolding watch_topics
  watch_topics-Later [] names s = record { knows_still = λ t q. q; grows = λ e m. m }
  watch_topics-Later (topic ∷ rest) names s =
      Later-trans (watch_topic-Later names topic s) (watch_topics-Later rest _ _)

  watch_topic-Handled :
      (names : List String) (topic : String) (s : State W)
      → let (names', s') = watch_topic W ac profiles names topic s in Handled names' s'.log topic
  unfolding watch_topic
  watch_topic-Handled names topic s =
      let (r, s') = create_arroyo_flow W ac profiles topic s in
      if-cases (HandledAt topic) (is_ignored topic) (λ q. ignored q)
        (λ _.
          if-cases (HandledAt topic) (knows names topic) (λ q. known q)
            (λ _. elim (Result-cases r) [
              | inr (e, q) ↦ let f = failed s e q (λ a m. m) in rw q f
              | inl (_, q) ↦ rw q (known (ground (arith, eq_iff topic topic)))
            ]))

  watch_topics-Handled :
      (listed names : List String) (s : State W) (topic : String)
      → Memᴰ topic listed
      → let (names', s') = watch_topics W ac profiles names listed s in Handled names' s'.log topic
  unfolding watch_topics
  watch_topics-Handled [] names s topic m = elim m [ ]
  watch_topics-Handled (t ∷ rest) names s topic (Memᴰ.head e) =
      let after = watch_topic W ac profiles names t s in
      let now = watch_topic-Handled names t s in
      let out = watch_topics W ac profiles after.0 rest after.1 in
      subst (λ t'. HandledAt t' out) (sym e)
        (Handled-Later after out t (watch_topics-Later rest after.0 after.1) now)
  watch_topics-Handled (t ∷ rest) names s topic (Memᴰ.tail m) =
      watch_topics-Handled rest _ _ topic m

  -- In a round in which Kafka answers, no listed topic is passed over: behind the round each one is
  -- not for the watcher, or it is known, or its flow was asked for and failed with an error, and the
  -- log has what was asked.
  pub round-Handled :
      (names listed : List String) (s : State W) (topic : String)
      → (perform W topics s).0 ≡ ok listed
      → Memᴰ topic listed
      → let (names', s') = round W ac profiles names s in Handled names' s'.log topic
  unfolding round
  round-Handled names listed s topic q m =
      let s₁ = (perform W topics s).1 in
      let out = watch_topics W ac profiles names listed s₁ in
      let s₂ = (perform W (sleep (30 * second W ac profiles)) out.1).1 in
      let s₃ = (perform W refresh_metadata s₂).1 in
      rw (q, round)
        (Handled-Later out (out.0, s₃) topic
          (record {
            knows_still = λ t k. k;
            grows =
                Grows-trans (performed (sleep (30 * second W ac profiles)) out.1)
                  (performed refresh_metadata s₂);
          })
          (watch_topics-Handled listed names s₁ topic m))
