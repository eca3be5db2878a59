-- ===== src/World/Only.antt =====
-- Which calls an action makes.
use nostradamus_api.Prelude.{◌≡◌, refl, ◌∙◌, Bool, true, false, not, arith}
use nostradamus_api.Errors.{Error}
use nostradamus_api.Go.Fallible.{Result, ok, err, Fallible, continue, ◌>>◌}
use nostradamus_api.Go.Decode.{require}
use nostradamus_api.World.{World, State, perform}
use nostradamus_api.World.Calls.{Statement, Call, exec}
use nostradamus_api.World.Trace.{is_write, writes, Grows, Grows-cons}

-- Any call but a write to the database.
abbrev pub is_plain : Call → Bool
is_plain (exec statement) = not (is_write statement)
is_plain _ = true

module _ (W : World) (allowed : Call → Bool) where
  -- The second state is the first after some calls, each of which is allowed.
  pub data Makes (s : State W) : State W → Type 0 where
    nothing : Makes s s
    next : {s' : State W} (c : Call) → allowed c ≡ true → Makes s s' → Makes s (perform W c s').1

  -- The action makes only calls that are allowed.
  pub data Only {A : Type 0} (s : State W) (out : A × State W) : Type 0 where
    only : Makes s out.1 → Only s out

module _ (W : World) {allowed : Call → Bool} where
  pub Makes-trans :
      {s s' s'' : State W} → Makes W allowed s s' → Makes W allowed s' s'' → Makes W allowed s s''
  Makes-trans h nothing = h
  Makes-trans h (next c q k) = next c q (Makes-trans h k)

  pub makes :
      {A : Type 0} {s : State W} {out : A × State W}
      → Only W allowed s out
      → Makes W allowed s out.1
  makes (only h) = h

  pub still : {A : Type 0} {a : A} (s : State W) → Only W allowed s (a, s)
  still s = only nothing

  pub once : (c : Call) (s : State W) → allowed c ≡ true → Only W allowed s (perform W c s)
  once c s q = only (next c q nothing)

  -- An action behind another.
  pub behind :
      {A B : Type 0} {a : A} {s s₁ : State W} {out : B × State W}
      → Only W allowed s (a, s₁)
      → Only W allowed s₁ out
      → Only W allowed s out
  behind h k = only (Makes-trans (makes h) (makes k))

  -- Another value than the action's.
  pub reply_to :
      {A B : Type 0} {b : B} {s : State W} (out : A × State W)
      → Only W allowed s out
      → Only W allowed s (b, out.1)
  reply_to out h = only (makes h)

  -- The rest of a function behind a result on which it may return early.
  pub and_then :
      {A B C : Type 0} {c : C} {s s₁ : State W} (r : Result A) (f : A → Fallible (State W) B)
      → Only W allowed s (c, s₁)
      → ((a : A) → Only W allowed s₁ (f a s₁))
      → Only W allowed s (continue r f s₁)
  and_then (ok a) f h k = behind h (k a)
  and_then (err e) f h k = only (makes h)

  -- The rest of a function behind a test on which it may return early.
  pub and_require :
      {B C : Type 0} {c : C} {s s₁ : State W} (b : Bool) (e : Error) (k : Fallible (State W) B)
      → Only W allowed s (c, s₁)
      → Only W allowed s₁ (k s₁)
      → Only W allowed s ((require b e >> k) s₁)
  and_require true e k h h' = behind h h'
  and_require false e k h h' = only (makes h)

  pub Makes-Grows : {s s' : State W} → Makes W allowed s s' → Grows s.log s'.log
  unfolding perform
  Makes-Grows nothing e m = m
  Makes-Grows (next c q h) e m = Grows-cons _ _ e (Makes-Grows h e m)

  pub Makes-wider :
      (wider : Call → Bool)
      → ((c : Call) → allowed c ≡ true → wider c ≡ true)
      → {s s' : State W} → Makes W allowed s s'
      → Makes W wider s s'
  Makes-wider wider h nothing = nothing
  Makes-wider wider h (next c q k) = next c (h c q) (Makes-wider wider h k)

module _ (W : World) where
  writes-exec :
      (statement : Statement) (s : State W)
      → is_write statement ≡ false
      → writes (perform W (exec statement) s).1.log ≡ writes s.log
  unfolding perform
  writes-exec statement s q = ground (arith, q)

  writes-perform :
      (c : Call) (s : State W) → is_plain c ≡ true → writes (perform W c s).1.log ≡ writes s.log
  unfolding perform
  writes-perform (exec statement) s q = writes-exec statement s (ground (arith, q))
  writes-perform _ s q = refl

  -- Without a write, the writes in the log stay as they were.
  pub writes-Makes : {s s' : State W} → Makes W is_plain s s' → writes s'.log ≡ writes s.log
  writes-Makes nothing = refl
  writes-Makes (next c q h) = writes-perform c _ q ∙ writes-Makes h
