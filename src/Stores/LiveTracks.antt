-- ===== src/Stores/LiveTracks.antt =====
-- storage/stores.py: `LiveTrackStore`.
use airspace_conformance_pla.Base.{
  ℕ, String, Bool, true, false, not, ◌&&◌, ◌||◌, ◌≡◌, ◌∙◌, refl, ap, Option, none, some, List, [],
  ◌∷◌, foldl, ◌==◌, string_eq, any, All, arith, Bool-cases, inl, inr, if◌then◌else◌,
}
use airspace_conformance_pla.Contracts.{TrackUpdate, Timestamp}
use airspace_conformance_pla.Stores.{
  Redis, IsRedis, Json, prefixed, decode, read_entries, read_entries_lem, entries_of, expired_of,
  any-expired_of, is_some, IsReadable, write_entry, drop_entry, get-write_entry, get-drop_entry,
  is_indexed, is_indexed-drop_entry,
}

-- `KEY_PREFIX` and `INDEX_KEY`.
abbrev pub key_prefix : String
key_prefix = "acp:track:"

abbrev pub index_key : String
index_key = "acp:tracks:live"

module _ (P : Type 0) {R : Type 0} ⦃redis : Redis P R⦄ where
  unfoldable pub forget : List String → R → R
  forget track_ids r =
      foldl (λ s track_id. drop_entry P key_prefix index_key track_id s) r track_ids

module _ {F P R : Type 0} ⦃redis : Redis P R⦄ (json : Json P (TrackUpdate F)) where
  open json use {dump}

  -- The body of the loop of `publish`.
  abbrev pub publish_one : ℕ → R → TrackUpdate F → R
  publish_one ttl_s r update =
      write_entry key_prefix index_key update.track_id (dump update) update.updated_at ttl_s r

  unfoldable pub publish : ℕ → List (TrackUpdate F) → R → R
  publish ttl_s updates r = foldl (publish_one ttl_s) r updates

  abbrev pub tidy :
      R → Option (List (TrackUpdate F) × List String) → Option (R × List (TrackUpdate F))
  tidy r none = none
  tidy r (some (updates, expired)) = some (forget P expired r, updates)

  -- The store once the expired tracks are forgotten, and the updates; `none` where one cannot be
  -- read, which raises.
  unfoldable pub live : Option Timestamp → R → Option (R × List (TrackUpdate F))
  unfolding read_entries
  live since r = tidy r (read_entries json key_prefix (redis.zrange_by_score index_key since r) r)

  -- What the store holds for a track.
  abbrev pub held : String → R → Option (TrackUpdate F)
  held k r = decode json (redis.get (prefixed key_prefix k) r)

-- The last update of a batch about a track, if any, All, and otherwise what there was.
abbrev pub last_about :
    {F : Type 0} → String → List (TrackUpdate F) → Option (TrackUpdate F) → Option (TrackUpdate F)
last_about k [] o = o
last_about k (u ∷ us) o = last_about k us (if u.track_id == k then some u else o)

module _ {F P R : Type 0} ⦃redis : Redis P R⦄ (json : Json P (TrackUpdate F))
    (laws : IsRedis P R) where
  open json use {dump, parse-dump}

  held-publish_one :
      (ttl : ℕ) (r : R) (u : TrackUpdate F) (k : String)
      → json.IsExact u
      → held json k (publish_one json ttl r u) ≡ (if u.track_id == k then some u else held json k r)
  held-publish_one ttl r u k exact =
      ap (decode json)
        (get-write_entry laws key_prefix index_key u.track_id k (dump u) u.updated_at ttl r)
      ∙ elim (Bool-cases (u.track_id == k)) [
        | inl same ↦ rw same (parse-dump u exact)
        | inr other ↦ rw other refl
      ]

  pub held-publish :
      (ttl : ℕ) (us : List (TrackUpdate F)) (r : R) (k : String)
      → All json.IsExact us
      → held json k (publish json ttl us r) ≡ last_about k us (held json k r)
  unfolding publish
  held-publish ttl [] r k exact = refl
  held-publish ttl (u ∷ us) r k exact =
      held-publish ttl us (publish_one json ttl r u) k exact.1
      ∙ ap (last_about k us) (held-publish_one ttl r u k exact.0)

  get-forget :
      (ids : List String) (r : R) (k : String)
      → redis.get (prefixed key_prefix k) (forget P ids r)
        ≡ (if any (λ i. i == k) ids then none else redis.get (prefixed key_prefix k) r)
  unfolding forget
  get-forget [] r k = refl
  get-forget (i ∷ ids) r k =
      get-forget ids (drop_entry P key_prefix index_key i r) k
      ∙ ap (λ o. if any (λ x. x == k) ids then none else o)
          (get-drop_entry laws key_prefix index_key i k r)
      ∙ first (i == k) (any (λ x. x == k) ids) (redis.get (prefixed key_prefix k) r)
    where
      first :
          (a b : Bool) (o : Option P)
          → (if b then none else (if a then none else o)) ≡ (if a || b then none else o)
      first a b o = ground arith

  is_indexed-forget :
      (ids : List String) (r : R) (k : String)
      → is_indexed P index_key k (forget P ids r)
        ≡ (not (any (λ i. i == k) ids) && is_indexed P index_key k r)
  unfolding forget
  is_indexed-forget [] r k = refl
  is_indexed-forget (i ∷ ids) r k =
      is_indexed-forget ids (drop_entry P key_prefix index_key i r) k
      ∙ ap (λ b. not (any (λ x. x == k) ids) && b)
          (is_indexed-drop_entry laws key_prefix index_key i k r)
      ∙ first (i == k) (any (λ x. x == k) ids) (is_indexed P index_key k r)
    where
      first : (a b c : Bool) → (not b && (not a && c)) ≡ (not (a || b) && c)
      first a b c = ground arith

  decode_if :
      (b : Bool) (o : Option P)
      → decode json (if b then none else o) ≡ (if b then none else decode json o)
  decode_if true o = refl
  decode_if false o = refl

  -- If the updates are exact in JSON: after a batch of updates and a list of tracks to forget, the store holds nothing for the
  -- tracks of the list, and for every other track the last update of the batch about it, or else
  -- what it held before. No track of the list stays in the index.
  pub publish-forget :
      (ttl : ℕ) (us : List (TrackUpdate F)) (ids : List String) (r : R) (k : String)
      → All json.IsExact us
      → (held json k (forget P ids (publish json ttl us r))
          ≡ (if any (λ i. i == k) ids then none else last_about k us (held json k r)))
        × (any (λ i. i == k) ids ≡ true
            → is_indexed P index_key k (forget P ids (publish json ttl us r)) ≡ false)
  publish-forget ttl us ids r k exact = (
    ap (decode json) (get-forget ids (publish json ttl us r) k)
        ∙ decode_if _ _
        ∙ ap (λ o. if any (λ i. i == k) ids then none else o) (held-publish ttl us r k exact),
    λ gone. is_indexed-forget ids (publish json ttl us r) k ∙ rw gone refl,
  )

  -- If every entry can be read, `live` returns what the store holds for the tracks that the index
  -- gives since the time asked for, in the index's order, and leaves the entries of all the
  -- tracks as they were.
  pub live_lem :
      (since : Option Timestamp) (r : R)
      → ((k : String) → IsReadable json (redis.get (prefixed key_prefix k) r))
      → let ids = redis.zrange_by_score index_key since r in
        let s = forget P (expired_of P key_prefix ids r) r in
        (live json since r ≡ some (s, entries_of json key_prefix ids r))
        × ((k : String) → redis.get (prefixed key_prefix k) s ≡ redis.get (prefixed key_prefix k) r)
  unfolding live
  live_lem since r readable =
      let ids = redis.zrange_by_score index_key since r in
      (
        rw (read_entries_lem json key_prefix ids r readable) refl,
        λ k.
            get-forget (expired_of P key_prefix ids r) r k
            ∙ ap (λ b. if b then none else redis.get (prefixed key_prefix k) r)
                (any-expired_of P key_prefix k ids r)
            ∙ kept (any (λ i. i == k) ids) (redis.get (prefixed key_prefix k) r),
      )
    where
      kept : (b : Bool) (o : Option P) → (if b && not (is_some o) then none else o) ≡ o
      kept b none = ground arith
      kept b (some x) = ground arith
