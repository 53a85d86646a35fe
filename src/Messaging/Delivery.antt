-- ===== src/Messaging/Delivery.antt =====
-- common/messaging.py: what a client promises, the sessions, and what one record leaves.

use airspace_conformance_pla.Base.{
  ℕ, zero, suc, ◌+◌, ◌≤◌, ◌<◌, String, Bool, true, false, ◌≡◌, ◌∙◌, refl, ap, Option, none, some,
  List, [], ◌∷◌, ◌++◌, string_eq, pair_eq, pair_equals, if◌then◌else◌,
}
use airspace_conformance_pla.Messaging.{
  Record, Consumer, Codec, Envelope, Subscriber, Fate, malformed, handled, undecodable, abandoned,
  set_lag, record_lag, trace_id_from, key_of, settle, offer, open_record, deliver, goes_on, stream,
}

-- What Kafka documents of a client that reads the log `at`: it hands out the records of a
-- partition in the order of their offsets from its position on, `commit` commits the positions,
-- and a client that starts again does so at the committed offsets.
pub record IsConsumer {B C : Type 0} ⦃client : Consumer B C⦄
    (at : String → ℕ → ℕ → Option (Record B)) (restart : C → C) : Type 0 where
  pub position : String → ℕ → C → ℕ
  pub committed : String → ℕ → C → ℕ
  pub next-in_log :
      (c c' : C) (r : Record B)
      → client.next c ≡ some (r, c')
      → at r.topic r.partition r.offset ≡ some r
  pub next-in_order :
      (c c' : C) (r : Record B) (o : ℕ)
      → client.next c ≡ some (r, c')
      → position r.topic r.partition c ≤ o
      → o < r.offset
      → at r.topic r.partition o ≡ none
  pub position-next :
      (c c' : C) (r : Record B) (topic : String) (partition : ℕ)
      → client.next c ≡ some (r, c')
      → position topic partition c' ≡ (
          if pair_equals (r.topic, r.partition) (topic, partition)
          then r.offset + 1
          else position topic partition c)
  pub committed-next :
      (c c' : C) (r : Record B) (topic : String) (partition : ℕ)
      → client.next c ≡ some (r, c')
      → committed topic partition c' ≡ committed topic partition c
  pub committed-commit :
      (c : C) (topic : String) (partition : ℕ)
      → committed topic partition (client.commit c) ≡ position topic partition c
  pub position-commit :
      (c : C) (topic : String) (partition : ℕ)
      → position topic partition (client.commit c) ≡ position topic partition c
  pub committed-restart :
      (c : C) (topic : String) (partition : ℕ)
      → committed topic partition (restart c) ≡ committed topic partition c
  pub position-restart :
      (c : C) (topic : String) (partition : ℕ)
      → position topic partition (restart c) ≡ committed topic partition c

module _ {B M C H : Type 0} ⦃client : Consumer B C⦄ (codec : Codec B M) (uuid : ℕ → String)
    (handle : Envelope M → H → H × Bool) where
  -- Sessions one after another: the process starts again, at most so many records are read, and it
  -- stops. The list has the fates of all the records.
  unfoldable pub sessions :
      (C → C) → (H → H) → List ℕ → Subscriber C → H → Subscriber C × H × List (Record B × Fate)
  unfolding stream
  sessions restart boot [] s h = (s, h, [])
  sessions restart boot (n ∷ ns) s h =
      let (s', h', fates) =
        stream codec uuid handle n (record s { consumer = restart s.consumer }) (boot h) in
      let (s'', h'', rest) = sessions restart boot ns s' h' in (s'', h'', fates ++ rest)

-- The records that are done with: handled to the end, or malformed.
abbrev pub finished : {B : Type 0} → List (Record B × Fate) → List (Record B)
finished [] = []
finished ((r, malformed) ∷ rest) = r ∷ finished rest
finished ((r, handled) ∷ rest) = r ∷ finished rest
finished ((r, undecodable) ∷ rest) = finished rest
finished ((r, abandoned) ∷ rest) = finished rest

pub finished-append :
    {B : Type 0} (xs ys : List (Record B × Fate)) → finished (xs ++ ys) ≡ finished xs ++ finished ys
finished-append [] ys = refl
finished-append ((r, malformed) ∷ xs) ys = ap (λ zs. r ∷ zs) (finished-append xs ys)
finished-append ((r, handled) ∷ xs) ys = ap (λ zs. r ∷ zs) (finished-append xs ys)
finished-append ((r, undecodable) ∷ xs) ys = finished-append xs ys
finished-append ((r, abandoned) ∷ xs) ys = finished-append xs ys

module _ {B M C H : Type 0} ⦃client : Consumer B C⦄ (codec : Codec B M) (uuid : ℕ → String)
    (handle : Envelope M → H → H × Bool) where
  -- The client commits exactly if the loop goes on, and the context has its trace id again.
  abbrev pub IsLeft : String → C → Subscriber C × H × Fate → Type 0
  IsLeft previous c (s, h, fate) =
      (s.consumer ≡ (if goes_on fate then client.commit c else c)) × (s.trace_id ≡ previous)

  settle-IsLeft :
      (previous : String) (s : Subscriber C) (w : H × Bool)
      → IsLeft previous s.consumer (settle codec uuid handle previous s w)
  settle-IsLeft previous s (h, true) = (refl, refl)
  settle-IsLeft previous s (h, false) = (refl, refl)

  offer-IsLeft :
      (previous : String) (r : Record B) (m : M) (key : Option (Option String)) (s : Subscriber C)
      (h : H)
      → IsLeft previous s.consumer (offer codec uuid handle previous r m key s h)
  offer-IsLeft previous r m none s h = (refl, refl)
  offer-IsLeft previous r m (some key) s h = settle-IsLeft previous s _

  open_record-IsLeft :
      (previous : String) (r : Record B) (m : Option M) (s : Subscriber C) (h : H)
      → IsLeft previous s.consumer (open_record codec uuid handle previous r m s h)
  open_record-IsLeft previous r none s h = (refl, refl)
  open_record-IsLeft previous r (some m) s h = offer-IsLeft previous r m (key_of codec r.key) s h

  set_lag-keeps :
      (place : String × ℕ) (offset : ℕ) (o : Option ℕ) (s : Subscriber C)
      → ((set_lag place offset o s).consumer ≡ s.consumer)
        × ((set_lag place offset o s).trace_id ≡ s.trace_id)
  set_lag-keeps place offset none s = (refl, refl)
  set_lag-keeps place offset (some zero) s = (refl, refl)
  set_lag-keeps place offset (some (suc n)) s = (refl, refl)

  pub deliver-IsLeft :
      (r : Record B) (s : Subscriber C) (h : H)
      → IsLeft s.trace_id s.consumer (deliver codec uuid handle r s h)
  unfolding deliver record_lag
  deliver-IsLeft r s h =
      let o = client.highwater r.topic r.partition s.consumer in
      let t = record_lag B r.topic r.partition r.offset s in
      let (a, b) = set_lag-keeps (r.topic, r.partition) r.offset o s in
      let (c, d) =
        open_record-IsLeft t.trace_id r (codec.parse r.value)
          (record t {
            trace_id = (trace_id_from codec uuid r.headers t.minted).0;
            minted = (trace_id_from codec uuid r.headers t.minted).1;
          })
          h in
      (
        c ∙ ap (λ x. if goes_on (deliver codec uuid handle r s h).2 then client.commit x else x) a,
        d ∙ b,
      )
