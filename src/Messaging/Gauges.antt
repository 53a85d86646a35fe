-- ===== src/Messaging/Gauges.antt =====
-- common/messaging.py: the gauge `consumer_lag`.
use airspace_conformance_pla.Base.{
  ℕ, zero, suc, String, Bool, true, false, ◌≡◌, ◌∙◌, refl, ap, Option, none, some, List, any, ◌==◌,
  pair_eq, lookup, lookup-insert, lookup-delete_all, if◌then◌else◌,
}
use airspace_conformance_pla.Messaging.{
  Record, Consumer, Codec, Envelope, Subscriber, lag_of, set_lag, record_lag, release,
  trace_id_from, key_of, settle, offer, open_record, deliver,
}

-- What a record leaves of the lag of a partition, from the high-water mark and whether it is the
-- record's partition.
abbrev pub lag_after : Bool → ℕ → Option ℕ → Option ℕ → Option ℕ
lag_after true offset (some (suc n)) before = some (lag_of (suc n) offset)
lag_after _ offset _ before = before

module _ {C : Type 0} where
  set_lag-lags :
      (place other : String × ℕ) (offset : ℕ) (highwater : Option ℕ) (s : Subscriber C)
      → lookup other (set_lag place offset highwater s).lags
        ≡ lag_after (place == other) offset highwater (lookup other s.lags)
  set_lag-lags place other offset none s = go (place == other)
    where
      go : (b : Bool) → lookup other s.lags ≡ lag_after b offset none (lookup other s.lags)
      go true = refl
      go false = refl
  set_lag-lags place other offset (some zero) s = go (place == other)
    where
      go : (b : Bool) → lookup other s.lags ≡ lag_after b offset (some zero) (lookup other s.lags)
      go true = refl
      go false = refl
  set_lag-lags place other offset (some (suc n)) s =
      lookup-insert place other (lag_of (suc n) offset) s.lags ∙ go (place == other)
    where
      go :
          (b : Bool)
          → (if b then some (lag_of (suc n) offset) else lookup other s.lags)
            ≡ lag_after b offset (some (suc n)) (lookup other s.lags)
      go true = refl
      go false = refl

module _ {B M C H : Type 0} ⦃client : Consumer B C⦄ (codec : Codec B M) (uuid : ℕ → String)
    (handle : Envelope M → H → H × Bool) where
  settle-lags :
      (previous : String) (s : Subscriber C) (w : H × Bool)
      → (settle codec uuid handle previous s w).0.lags ≡ s.lags
  settle-lags previous s (h, true) = refl
  settle-lags previous s (h, false) = refl

  offer-lags :
      (previous : String) (r : Record B) (m : M) (key : Option (Option String)) (s : Subscriber C)
      (h : H)
      → (offer codec uuid handle previous r m key s h).0.lags ≡ s.lags
  offer-lags previous r m none s h = refl
  offer-lags previous r m (some key) s h = settle-lags previous s _

  open_record-lags :
      (previous : String) (r : Record B) (m : Option M) (s : Subscriber C) (h : H)
      → (open_record codec uuid handle previous r m s h).0.lags ≡ s.lags
  open_record-lags previous r none s h = refl
  open_record-lags previous r (some m) s h = offer-lags previous r m (key_of codec r.key) s h

  -- After a record and a revocation: a revoked partition has no lag; the record's partition, if it
  -- is not revoked and its high-water mark is not 0, has the number of records behind the record's
  -- next one, and 0 where there are none; every other partition has the lag it had.
  pub release-deliver-lags :
      (r : Record B) (s : Subscriber C) (h : H) (revoked : List (String × ℕ)) (place : String × ℕ)
      → lookup place (release revoked (deliver codec uuid handle r s h).0).lags ≡ (
          if any (λ p. p == place) revoked
          then none
          else lag_after
              ((r.topic, r.partition) == place)
              r.offset
              (client.highwater r.topic r.partition s.consumer)
              (lookup place s.lags))
  unfolding release deliver record_lag
  release-deliver-lags r s h revoked place =
      let t = record_lag B r.topic r.partition r.offset s in
      let found = trace_id_from codec uuid r.headers t.minted in
      lookup-delete_all revoked (deliver codec uuid handle r s h).0.lags place
      ∙ ap (λ o. if any (λ p. p == place) revoked then none else o)
          (ap (lookup place) (
              open_record-lags t.trace_id r (codec.parse r.value)
                (record t { trace_id = found.0; minted = found.1 }) h)
            ∙ set_lag-lags (r.topic, r.partition) place r.offset
                (client.highwater r.topic r.partition s.consumer) s)
