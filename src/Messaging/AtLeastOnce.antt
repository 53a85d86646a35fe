-- ===== src/Messaging/AtLeastOnce.antt =====
-- common/messaging.py: that `stream` commits no record that is not done with, over any number of sessions.
use mathlib.Core.Path.{subst}
use mathlib.Core.Option.{some_inj}
use mathlib.Core.List.{Memᴰ}
use mathlib.Core.List.Memᴰ
use airspace_conformance_pla.Base.{
  ℕ, zero, suc, ◌+◌, ◌≤◌, ◌<◌, leb, String, Bool, true, false, ◌≡◌, ◌∙◌, refl, sym, ap, Option,
  none, some, List, [], ◌∷◌, string_eq, pair_eq, pair_equals, pair_equals_iff, inl, inr, Bool-cases,
  arith, leb→le, leb→lt,
}
use airspace_conformance_pla.Messaging.{
  Record, Consumer, Codec, Envelope, Subscriber, Fate, malformed, handled, undecodable, abandoned,
  deliver, goes_on, then_rest, after_next, stream,
}
use airspace_conformance_pla.Messaging.Delivery.{
  IsConsumer, sessions, finished, finished-append, IsLeft, deliver-IsLeft,
}

module _ {B M C H : Type 0} ⦃client : Consumer B C⦄ (codec : Codec B M) (uuid : ℕ → String)
    (handle : Envelope M → H → H × Bool) (at : String → ℕ → ℕ → Option (Record B)) (restart : C → C)
    (laws : IsConsumer at restart) where
  open laws use {
    position, committed, next-in_log, next-in_order, position-next, committed-next,
    committed-commit, position-commit, committed-restart,
  }

  -- Nothing has been handed out since the last commit.
  abbrev IsSynced : C → Type 0
  IsSynced c =
      (topic : String) (partition : ℕ) → position topic partition c ≡ committed topic partition c

  -- Every record between two committed offsets is in the list.
  abbrev Covers : C → C → List (Record B) → Type 0
  Covers c c' rs =
      (topic : String) (partition offset : ℕ) (r : Record B)
      → committed topic partition c ≤ offset
      → offset < committed topic partition c'
      → at topic partition offset ≡ some r
      → Memᴰ r rs

  -- One record that is done with.
  step-Covers :
      (c c1 c' : C) (r : Record B) (rs : List (Record B))
      → client.next c ≡ some (r, c1)
      → IsSynced c
      → Covers (client.commit c1) c' rs
      → Covers c c' (r ∷ rs)
  step-Covers c c1 c' r rs e synced rest topic partition offset x low high there =
      elim (Bool-cases (leb (position topic partition c1) offset)) [
        | inl beyond ↦ Memᴰ.tail (
            rest topic partition offset x
              (subst (λ n. n ≤ offset) (sym (committed-commit c1 topic partition))
                (leb→le _ _ beyond))
              high there)
        | inr within ↦ elim (Bool-cases (pair_equals (r.topic, r.partition) (topic, partition))) [
          | inl same ↦
              let p = (pair_equals_iff (r.topic, r.partition) (topic, partition)).0 same in
              let place = λ (f : String → ℕ → Type 0) (w : f r.topic r.partition).
                subst (λ (q : String × ℕ). f q.0 q.1) p w in
              last_one (place (λ t q. at t q r.offset ≡ some r) (next-in_log c c1 r e))
                (place (λ t q. (o : ℕ) → position t q c ≤ o → o < r.offset → at t q o ≡ none)
                  (λ o. next-in_order c c1 r o e))
                (position-next c c1 r topic partition e ∙ rw same refl) (leb→lt _ _ within)
          | inr other ↦
              absurd (
                not_new (position-next c c1 r topic partition e ∙ rw other refl)
                  (leb→lt _ _ within))
        ]
      ]
    where
      held : position topic partition c ≤ offset
      held = subst (λ n. n ≤ offset) (sym (synced topic partition)) low

      not_new :
          position topic partition c1 ≡ position topic partition c
          → offset < position topic partition c1
          → ⊥
      not_new p h = omega (arith, p, h, held)

      missing : some x ≡ none → ⊥
      missing q = absurd (cc)

      last_one :
          at topic partition r.offset ≡ some r
          → ((o : ℕ) → position topic partition c ≤ o → o < r.offset → at topic partition o ≡ none)
          → position topic partition c1 ≡ r.offset + 1
          → offset < position topic partition c1
          → Memᴰ x (r ∷ rs)
      last_one here gap p h = elim (Bool-cases (leb r.offset offset)) [
        | inl reached ↦ Memᴰ.head (
            some_inj.0 (
              sym there ∙ ap (at topic partition) (omega (arith, p, h, leb→le _ _ reached)) ∙ here))
        | inr skipped ↦ absurd (missing (sym there ∙ gap offset held (leb→lt _ _ skipped)))
      ]

  commit-IsSynced : (c : C) → IsSynced (client.commit c)
  commit-IsSynced c topic partition =
      position-commit c topic partition ∙ sym (committed-commit c topic partition)

  stop-Covers :
      (c c' : C)
      → ((topic : String) (partition : ℕ)
          → committed topic partition c' ≡ committed topic partition c)
      → Covers c c' []
  stop-Covers c c' same topic partition offset x low high there =
      absurd (none_between (same topic partition) low high)
    where
      none_between : {a b : ℕ} → b ≡ a → a ≤ offset → offset < b → ⊥
      none_between p l h = omega (arith, p, l, h)

  -- That what is done from a subscriber on covers what it commits.
  abbrev RestCovers : (Subscriber C → H → Subscriber C × H × List (Record B × Fate)) → Type 0
  RestCovers rest =
      (s : Subscriber C) (h : H)
      → IsSynced s.consumer
      → Covers s.consumer (rest s h).0.consumer (finished (rest s h).2)

  module _ (rest : Subscriber C → H → Subscriber C × H × List (Record B × Fate))
      (covers : RestCovers rest) where
    done-Covers :
        (c c1 : C) (r : Record B) (s : Subscriber C) (h : H)
        → IsSynced c
        → client.next c ≡ some (r, c1)
        → s.consumer ≡ client.commit c1
        → Covers c (rest s h).0.consumer (r ∷ finished (rest s h).2)
    done-Covers c c1 r s h synced e left =
        let (s', h', fates) = rest s h in
        step-Covers c c1 s'.consumer r (finished fates) e synced (
          subst (λ x. Covers x s'.consumer (finished fates)) left
            (covers s h (subst IsSynced (sym left) (commit-IsSynced c1))))

    given_up-Covers :
        (c c1 c2 : C) (r : Record B) → client.next c ≡ some (r, c1) → c2 ≡ c1 → Covers c c2 []
    given_up-Covers c c1 c2 r e left =
        stop-Covers c c2 (λ t p. ap (committed t p) left ∙ committed-next c c1 r t p e)

    then_rest-Covers :
        (c c1 : C) (r : Record B) (previous : String) (w : Subscriber C × H × Fate)
        → IsSynced c
        → client.next c ≡ some (r, c1)
        → IsLeft codec uuid handle previous c1 w
        → let (s', h', fates) = then_rest codec uuid handle rest r w in
          Covers c s'.consumer (finished fates)
    then_rest-Covers c c1 r previous (s, h, malformed) synced e left =
        done-Covers c c1 r s h synced e left.0
    then_rest-Covers c c1 r previous (s, h, handled) synced e left =
        done-Covers c c1 r s h synced e left.0
    then_rest-Covers c c1 r previous (s, h, undecodable) synced e left =
        given_up-Covers c c1 s.consumer r e left.0
    then_rest-Covers c c1 r previous (s, h, abandoned) synced e left =
        given_up-Covers c c1 s.consumer r e left.0

    after_next-Covers :
        (s : Subscriber C) (h : H) (o : Option (Record B × C))
        → IsSynced s.consumer
        → client.next s.consumer ≡ o
        → let (s', h', fates) = after_next codec uuid handle rest s h o in
          Covers s.consumer s'.consumer (finished fates)
    after_next-Covers s h none synced e = stop-Covers s.consumer s.consumer (λ t p. refl)
    after_next-Covers s h (some (r, c1)) synced e =
        then_rest-Covers s.consumer c1 r s.trace_id
          (deliver codec uuid handle r (record s { consumer = c1 }) h) synced e
          (deliver-IsLeft codec uuid handle r (record s { consumer = c1 }) h)

  restart-IsSynced : (c : C) → IsSynced (restart c)
  restart-IsSynced c t p = laws.position-restart c t p ∙ sym (laws.committed-restart c t p)

  -- From a client that has committed all that it handed out, whatever the caller's loop does with
  -- each message: every record whose offset a session commits was handled to its end in the
  -- session, or was malformed.
  stream-Covers : (n : ℕ) → RestCovers (stream codec uuid handle n)
  unfolding stream
  stream-Covers zero s h synced = stop-Covers s.consumer s.consumer (λ t p. refl)
  stream-Covers (suc n) s h synced =
      after_next-Covers (stream codec uuid handle n) (stream-Covers n) s h (client.next s.consumer)
        synced refl

  -- Over any number of sessions, each of which may stop anywhere, and whatever the caller's loop
  -- does with each message: every record whose offset has been committed since was handled to its
  -- end in one of them, or was malformed.
  pub sessions-Covers :
      (boot : H → H) (ns : List ℕ) (s : Subscriber C) (h : H) (topic : String)
      (partition offset : ℕ) (r : Record B)
      → let (s', h', fates) = sessions codec uuid handle restart boot ns s h in
        committed topic partition s.consumer ≤ offset
        → offset < committed topic partition s'.consumer
        → at topic partition offset ≡ some r
        → Memᴰ r (finished fates)
  unfolding sessions
  sessions-Covers boot [] s h topic partition offset r low high there =
      stop-Covers s.consumer s.consumer (λ t p. refl) topic partition offset r low high there
  sessions-Covers boot (n ∷ ns) s h topic partition offset r low high there =
      let (s', h', fates) =
        stream codec uuid handle n (record s { consumer = restart s.consumer }) (boot h) in
      let one =
        stream-Covers n (record s { consumer = restart s.consumer }) (boot h)
          (restart-IsSynced s.consumer) topic partition offset r
          (subst (λ x. x ≤ offset) (sym (committed-restart s.consumer topic partition)) low) in
      let (s'', h'', rest) = sessions codec uuid handle restart boot ns s' h' in
      subst (Memᴰ r) (sym (finished-append fates rest))
        (elim (Bool-cases (leb (committed topic partition s'.consumer) offset)) [
          | inl later ↦
              Memᴰ.append_right (finished fates) (
                sessions-Covers boot ns s' h' topic partition offset r (leb→le _ _ later) high
                  there)
          | inr sooner ↦ Memᴰ.append_left (finished rest) (one (leb→lt _ _ sooner) there)
        ])

  -- The record of a step is committed exactly if it was handled to its end or was malformed, and
  -- otherwise no partition has anything more committed.
  pub deliver-committed :
      (c c1 : C) (r : Record B) (s : Subscriber C) (h : H)
      → client.next c ≡ some (r, c1)
      → let (s', h', fate) = deliver codec uuid handle r (record s { consumer = c1 }) h in
        (goes_on fate ≡ true → committed r.topic r.partition s'.consumer ≡ r.offset + 1)
        × (goes_on fate ≡ false
            → (topic : String) (partition : ℕ)
            → committed topic partition s'.consumer ≡ committed topic partition c)
        × (s'.trace_id ≡ s.trace_id)
  deliver-committed c c1 r s h e =
      let left = deliver-IsLeft codec uuid handle r (record s { consumer = c1 }) h in
      (
        λ on.
            ap (committed r.topic r.partition) (left.0 ∙ rw on refl)
            ∙ committed-commit c1 r.topic r.partition
            ∙ position-next c c1 r r.topic r.partition e
            ∙ rw ((pair_equals_iff (r.topic, r.partition) (r.topic, r.partition)).1 refl) refl,
        λ off t p. ap (committed t p) (left.0 ∙ rw off refl) ∙ committed-next c c1 r t p e,
        left.1,
      )
