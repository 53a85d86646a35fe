-- ===== src/Waiting/Ends.antt =====
-- common/wait_for_kafka.py and storage/wait_for_schema.py: that the loops end, and how.
use airspace_conformance_pla.Base.{
  ℕ, zero, suc, ◌+◌, ◌*◌, ◌≤◌, ◌<◌, String, Bool, true, false, ◌≡◌, ◌≢◌, ◌∙◌, refl, ap, Option,
  some, leb, leb→le, leb→lt, ==_cases, sym, string_eq, Bool-cases, inl, inr, arith,
}
use airspace_conformance_pla.Waiting.{
  Clock, Admin, Engine, Answer, Poll, ready, unready, raised, Ending, came_up, timed_out, broke,
  poll_interval, decide, wait_loop, wait, poll_broker, poll_schema, broker_is_up, poll_of_bool,
  poll_of_answer, version, empty, unreachable, crashed,
}

-- What is documented of the clock: it does not go back, and a sleep lasts at least as long as
-- asked for.
pub record IsClock {W : Type 0} ⦃clock : Clock W⦄ (poll : W → Poll × W) : Type 0 where
  pub monotonic-poll : (w : W) → clock.monotonic w ≤ clock.monotonic (poll w).1
  pub monotonic-sleep : (n : ℕ) (w : W) → clock.monotonic w + n ≤ clock.monotonic (clock.sleep n w)

module _ {W : Type 0} ⦃clock : Clock W⦄ (poll : W → Poll × W) where
  -- How the loop ended, by the last poll: it was ready, it raised, or it was not ready and the
  -- deadline had passed.
  abbrev pub IsEnd : ℕ → Ending × W → Type 0
  IsEnd deadline (came_up, w) = (v : W) × (poll v ≡ (ready, w))
  IsEnd deadline (broke, w) = (v : W) × (poll v ≡ (raised, w))
  IsEnd deadline (timed_out, w) = (v : W) × (poll v ≡ (unready, w)) × (deadline ≤ clock.monotonic w)

  module _ (laws : IsClock poll) where
    decide-IsEnd :
        (again : W → Option (Ending × W)) (deadline : ℕ) (w : W) (p : Poll × W)
        → poll w ≡ p
        → (clock.monotonic p.1 < deadline
            → (e : Ending × W) × (again (clock.sleep poll_interval p.1) ≡ some e)
              × IsEnd deadline e)
        → (e : Ending × W) × (decide again deadline p ≡ some e) × IsEnd deadline e
    decide-IsEnd again deadline w (ready, v) h rest = ((came_up, v), refl, (w, h))
    decide-IsEnd again deadline w (raised, v) h rest = ((broke, v), refl, (w, h))
    decide-IsEnd again deadline w (unready, v) h rest =
        elim (Bool-cases (leb deadline (clock.monotonic v))) [
          | inl late ↦ ((timed_out, v), rw late refl, (w, h, leb→le _ _ late))
          | inr early ↦ let (e, done, end) = rest (leb→lt _ _ early) in (e, rw early done, end)
        ]

    wait_loop-IsEnd :
        (n deadline : ℕ) (w : W)
        → deadline ≤ clock.monotonic w + n * poll_interval
        → (e : Ending × W) × (wait_loop (suc n) poll deadline w ≡ some e) × IsEnd deadline e
    unfolding wait_loop
    wait_loop-IsEnd zero deadline w h =
        decide-IsEnd (λ v. wait_loop zero poll deadline v) deadline w (poll w) refl
          (λ early. absurd (omega (arith, h, early, laws.monotonic-poll w)))
    wait_loop-IsEnd (suc n) deadline w h =
        decide-IsEnd (λ v. wait_loop (suc n) poll deadline v) deadline w (poll w) refl
          (λ early. wait_loop-IsEnd n deadline (clock.sleep poll_interval (poll w).1) (
            omega (arith, h, laws.monotonic-poll w, laws.monotonic-sleep poll_interval (poll w).1)))

    -- With one poll more than the poll intervals that the timeout has, begun ones included, the
    -- wait ends: with success if its last poll was ready, with an exception if that raised, and
    -- otherwise not before the deadline.
    pub wait-IsEnd :
        (n timeout : ℕ) (w : W)
        → timeout ≤ n * poll_interval
        → (e : Ending × W) × (wait (suc n) poll timeout w ≡ some e)
          × IsEnd (clock.monotonic w + timeout) e
    unfolding wait
    wait-IsEnd n timeout w h = wait_loop-IsEnd n (clock.monotonic w + timeout) w (omega (arith, h))

module _ {W : Type 0} ⦃clock : Clock W⦄ ⦃admin : Admin W⦄ (laws : IsClock {W = W} poll_broker) where
  poll_broker-calm : (w v : W) → poll_broker w ≡ (raised, v) → ⊥
  unfolding broker_is_up poll_broker
  poll_broker-calm w v h = calm (broker_is_up w).0 (ap (λ p. p.0) h)
    where
      calm : (b : Bool) → poll_of_bool b ≡ raised → ⊥
      calm true e = absurd (cc)
      calm false e = absurd (cc)

  -- The wait for the broker ends, and no exception of the client ends it: with success if the
  -- last poll found the broker up, and otherwise not before the deadline.
  pub broker-IsEnd :
      (n timeout : ℕ) (w : W)
      → timeout ≤ n * poll_interval
      → (e : Ending × W) × (wait (suc n) poll_broker timeout w ≡ some e)
        × IsEnd poll_broker (clock.monotonic w + timeout) e
        × (e.0 ≢ broke)
  broker-IsEnd n timeout w h =
      let (e, done, end) = wait-IsEnd poll_broker laws n timeout w h in
      (e, done, end, not_broke e end)
    where
      not_broke : (e : Ending × W) → IsEnd poll_broker (clock.monotonic w + timeout) e → e.0 ≢ broke
      not_broke (came_up, v) end p = absurd (cc)
      not_broke (timed_out, v) end p = absurd (cc)
      not_broke (broke, v) end p = poll_broker-calm end.0 v end.1

module _ {W : Type 0} ⦃clock : Clock W⦄ ⦃engine : Engine W⦄ (expected : String)
    (laws : IsClock {W = W} (poll_schema expected)) where
  answer_of_ready : (a : Answer) → poll_of_answer expected a ≡ ready → a ≡ version expected
  answer_of_ready (version v) h = elim (==_cases v expected) [
    | inl same ↦ ap version same
    | inr other ↦ absurd (apart (ap poll_of_bool (sym other) ∙ h))
  ]
    where
      apart : unready ≡ ready → ⊥
      apart p = absurd (cc)
  answer_of_ready empty h = absurd (cc)
  answer_of_ready unreachable h = absurd (cc)
  answer_of_ready crashed h = absurd (cc)

  -- The wait for the schema ends: with success only if the database answered with the expected
  -- revision, with an exception only if the query raised one that is not of the database or the
  -- system, and otherwise not before the deadline.
  pub schema-IsEnd :
      (n timeout : ℕ) (w : W)
      → timeout ≤ n * poll_interval
      → (e : Ending × W) × (wait (suc n) (poll_schema expected) timeout w ≡ some e)
        × IsEnd (poll_schema expected) (clock.monotonic w + timeout) e
        × (e.0 ≡ came_up → (v : W) × ((engine.query v).0 ≡ version expected))
  unfolding poll_schema
  schema-IsEnd n timeout w h =
      let (e, done, end) = wait-IsEnd (poll_schema expected) laws n timeout w h in
      (e, done, end, current e end)
    where
      current :
          (e : Ending × W)
          → IsEnd (poll_schema expected) (clock.monotonic w + timeout) e
          → e.0 ≡ came_up
          → (v : W) × ((engine.query v).0 ≡ version expected)
      current (came_up, v) end p =
          (end.0, answer_of_ready (engine.query end.0).0 (ap (λ q. q.0) end.1))
      current (timed_out, v) end p = absurd (cc)
      current (broke, v) end p = absurd (cc)
