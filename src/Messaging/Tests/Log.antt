-- ===== src/Messaging/Tests/Log.antt =====
-- A client that reads one partition of one topic, whose records have consecutive offsets.
use mathlib.Core.Path.{subst}
use mathlib.Core.Option.{some_inj}
use airspace_conformance_pla.Base.{
  ℕ, zero, suc, ◌+◌, ◌≤◌, ◌<◌, ◌≡◌, refl, ap, Bool, true, false, none, some, Option, String, List,
  [], ◌∷◌, pair_equals, if◌then◌else◌, arith,
}
use airspace_conformance_pla.Messaging.{Record, Consumer}
use airspace_conformance_pla.Messaging.Delivery.{IsConsumer}

pub record Client : Type 0 where
  pub position : ℕ
  pub committed : ℕ

abbrev pub nth : List String → ℕ → Option String
nth [] n = none
nth (v ∷ vs) zero = some v
nth (v ∷ vs) (suc n) = nth vs n

abbrev pub entry : ℕ → String → Record String
entry offset value = record {
  topic = "t";
  partition = 0;
  offset = offset;
  key = some "k";
  value = value;
  headers = none;
}

abbrev pub hand : Client → Option String → Option (Record String × Client)
hand c none = none
hand c (some v) = some (entry c.position v, record c { position = c.position + 1 })

abbrev pub client : List String → Consumer String Client
client values = record {
  next = λ c. hand c (nth values c.position);
  commit = λ c. record c { committed = c.position };
  highwater = λ topic partition c. some 3;
}

abbrev pub restart : Client → Client
restart c = record c { position = c.committed }

abbrev pub as_entry : ℕ → Option String → Option (Record String)
as_entry offset none = none
as_entry offset (some v) = some (entry offset v)

abbrev pub at : List String → String → ℕ → ℕ → Option (Record String)
at values topic partition offset =
    if pair_equals ("t", 0) (topic, partition) then as_entry offset (nth values offset) else none

abbrev here : String → ℕ → ℕ → ℕ
here topic partition n = if pair_equals ("t", 0) (topic, partition) then n else 0

hand_cases :
    (c c' : Client) (r : Record String) (o : Option String)
    → hand c o ≡ some (r, c')
    → (v : String) × (o ≡ some v)
      × (◌≡◌ {A = Record String × Client}
          (entry c.position v, record c { position = c.position + 1 })
          (r, c'))
hand_cases c c' r none e = absurd (cc)
hand_cases c c' r (some v) e = (v, refl, some_inj.0 e)

pub moved :
    (b : Bool) (n : ℕ) → (if b then n + 1 else 0) ≡ (if b then n + 1 else (if b then n else 0))
moved true n = refl
moved false n = refl

module _ (values : List String) where
  -- What holds of the next entry and the client that has handed it out.
  pub from_next :
      (c c' : Client) (r : Record String) (Q : Record String → Client → Type 0)
      → hand c (nth values c.position) ≡ some (r, c')
      → ((v : String)
          → nth values c.position ≡ some v
          → Q (entry c.position v) (record c { position = c.position + 1 }))
      → Q r c'
  from_next c c' r Q e f =
      let (v, there, same) = hand_cases c c' r (nth values c.position) e in
      subst (λ (p : Record String × Client). Q p.0 p.1) same (f v there)

  abbrev pub client-IsConsumer : IsConsumer ⦃client = client values⦄ (at values) restart
  client-IsConsumer = record {
    position = λ topic partition c. here topic partition c.position;
    committed = λ topic partition c. here topic partition c.committed;
    next-in_log = λ c c' r e.
        from_next c c' r (λ r c'. at values r.topic r.partition r.offset ≡ some r) e
          (λ v there. ap (as_entry c.position) there);
    next-in_order = λ c c' r o e.
        from_next c c' r
          (λ r c'.
            here r.topic r.partition c.position ≤ o
            → o < r.offset
            → at values r.topic r.partition o ≡ none)
          e (λ v there low high. absurd (omega (arith, low, high)));
    position-next = λ c c' r topic partition e.
        from_next c c' r
          (λ r c'. here topic partition c'.position ≡ (
            if pair_equals (r.topic, r.partition) (topic, partition)
            then r.offset + 1
            else here topic partition c.position))
          e (λ v there. moved (pair_equals ("t", 0) (topic, partition)) c.position);
    committed-next = λ c c' r topic partition e.
        from_next c c' r
          (λ r c'. here topic partition c'.committed ≡ here topic partition c.committed) e
          (λ v there. refl);
    committed-commit = λ c topic partition. refl;
    position-commit = λ c topic partition. refl;
    committed-restart = λ c topic partition. refl;
    position-restart = λ c topic partition. refl;
  }
