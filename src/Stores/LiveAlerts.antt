-- ===== src/Stores/LiveAlerts.antt =====
-- storage/stores.py: `LiveAlertStore`.
use airspace_conformance_pla.Base.{
  ℕ, String, Bool, true, false, not, ◌&&◌, ◌≡◌, ◌∙◌, refl, sym, ap, Option, none, some, List, [],
  ◌∷◌, foldl, ◌==◌, string_eq, All, arith, Bool-cases, inl, inr, if◌then◌else◌,
}
use airspace_conformance_pla.Contracts.{Alert, AlertState, cleared}
use airspace_conformance_pla.Alerts.Automaton.{about}
use airspace_conformance_pla.Stores.{
  Redis, IsRedis, Json, prefixed, decode, read_entries, read_entries_lem, entries_of, expired_of,
  any-expired_of, is_indexed-zrem_all, is_some, IsReadable, write_entry, drop_entry,
  get-write_entry, get-drop_entry, is_indexed, is_indexed-write_entry, is_indexed-drop_entry,
}

-- `KEY_PREFIX` and `INDEX_KEY`.
abbrev pub key_prefix : String
key_prefix = "acp:alert:"

abbrev pub index_key : String
index_key = "acp:alerts:active"

abbrev pub is_cleared : AlertState → Bool
is_cleared cleared = true
is_cleared _ = false

module _ {F P R : Type 0} ⦃redis : Redis P R⦄ (json : Json P (Alert F)) where
  open json use {dump, parse}

  -- The body of the loop of `apply`.
  unfoldable pub apply_one : ℕ → R → Alert F → R
  apply_one ttl_s r alert =
      if is_cleared alert.state
      then drop_entry P key_prefix index_key alert.alert_key r
      else write_entry key_prefix index_key alert.alert_key (dump alert) alert.updated_at ttl_s r

  unfoldable pub apply : ℕ → List (Alert F) → R → R
  unfolding apply_one
  apply ttl_s alerts r = foldl (apply_one ttl_s) r alerts

  abbrev pub tidy : R → Option (List (Alert F) × List String) → Option (R × List (Alert F))
  tidy r none = none
  tidy r (some (alerts, expired)) =
      some (foldl (λ s key. redis.zrem index_key key s) r expired, alerts)

  -- The store once the index has lost the keys without an entry, and the alerts.
  unfoldable pub active : R → Option (R × List (Alert F))
  unfolding read_entries
  active r = tidy r (read_entries json key_prefix (redis.zrevrange index_key r) r)

  -- The store that `active` leaves.
  abbrev pub swept : R → R
  swept r =
      foldl (λ s key. redis.zrem index_key key s) r
        (expired_of P key_prefix (redis.zrevrange index_key r) r)

  -- What the store holds for a key.
  abbrev pub held : String → R → Option (Alert F)
  held k r = decode json (redis.get (prefixed key_prefix k) r)

-- What one alert leaves of a condition.
abbrev pub current : {F : Type 0} → Option (Alert F) → Alert F → Option (Alert F)
current o alert = if is_cleared alert.state then none else some alert

module _ {F P R : Type 0} ⦃redis : Redis P R⦄ (json : Json P (Alert F)) (laws : IsRedis P R) where
  open json use {dump, parse-dump}

  held-apply_one :
      (ttl : ℕ) (r : R) (alert : Alert F) (k : String)
      → json.IsExact alert
      → held json k (apply_one json ttl r alert)
        ≡ (if alert.alert_key == k then current (held json k r) alert else held json k r)
  unfolding apply_one
  held-apply_one ttl r alert k exact =
      let e = Bool-cases (alert.alert_key == k) in
      elim (Bool-cases (is_cleared alert.state)) [
        | inl gone ↦ rw gone (
            ap (decode json) (get-drop_entry laws key_prefix index_key alert.alert_key k r)
            ∙ elim e [ inl same ↦ rw same refl | inr other ↦ rw other refl ])
        | inr kept ↦ rw kept (
            ap (decode json) (
              get-write_entry laws key_prefix index_key alert.alert_key k (dump alert)
                alert.updated_at ttl r)
            ∙ elim e [ inl same ↦ rw same (parse-dump alert exact) | inr other ↦ rw other refl ])
      ]

  -- After a batch, the store holds for each key what the batch's alerts about it leave, one after
  -- another.
  pub held-apply :
      (ttl : ℕ) (alerts : List (Alert F)) (r : R) (k : String)
      → All json.IsExact alerts
      → held json k (apply json ttl alerts r) ≡ foldl current (held json k r) (about k alerts)
  unfolding apply
  held-apply ttl [] r k exact = refl
  held-apply ttl (a ∷ alerts) r k exact =
      let rest = held-apply ttl alerts (apply_one json ttl r a) k exact.1 in
      let one = held-apply_one ttl r a k exact.0 in
      elim (Bool-cases (a.alert_key == k)) [
        | inl same ↦
            rw same (rest ∙ ap (λ o. foldl current o (about k alerts)) (one ∙ rw same refl))
        | inr other ↦
            rw other (rest ∙ ap (λ o. foldl current o (about k alerts)) (one ∙ rw other refl))
      ]

-- Every entry of the store is in its index.
abbrev pub IsIndexed : (P : Type 0) {R : Type 0} ⦃redis : Redis P R⦄ → R → Type 0
IsIndexed P ⦃redis = redis⦄ r =
    (k : String)
    → is_some (redis.get (prefixed key_prefix k) r) ≡ true
    → is_indexed P index_key k r ≡ true

module _ {F P R : Type 0} ⦃redis : Redis P R⦄ (json : Json P (Alert F)) (laws : IsRedis P R) where
  open json use {dump}

  -- One alert leaves an entry, and an index entry, exactly if it is not CLEARED.
  is_there-apply_one :
      (ttl : ℕ) (r : R) (alert : Alert F) (k : String)
      → is_some (redis.get (prefixed key_prefix k) (apply_one json ttl r alert)) ≡ (
          if alert.alert_key == k
          then not (is_cleared alert.state)
          else is_some (redis.get (prefixed key_prefix k) r))
  unfolding apply_one
  is_there-apply_one ttl r alert k =
      let e = Bool-cases (alert.alert_key == k) in
      elim (Bool-cases (is_cleared alert.state)) [
        | inl gone ↦
            rw (gone, get-drop_entry laws key_prefix index_key alert.alert_key k r)
              (elim e [ inl same ↦ rw same refl | inr other ↦ rw other refl ])
        | inr kept ↦
            rw
              (
                kept,
                get-write_entry laws key_prefix index_key alert.alert_key k (dump alert)
                    alert.updated_at ttl r,
              )
              (elim e [ inl same ↦ rw same refl | inr other ↦ rw other refl ])
      ]

  is_indexed-apply_one :
      (ttl : ℕ) (r : R) (alert : Alert F) (k : String)
      → is_indexed P index_key k (apply_one json ttl r alert) ≡ (
          if alert.alert_key == k then not (is_cleared alert.state) else is_indexed P index_key k r)
  unfolding apply_one
  is_indexed-apply_one ttl r alert k =
      let e = Bool-cases (alert.alert_key == k) in
      elim (Bool-cases (is_cleared alert.state)) [
        | inl gone ↦ rw gone (
            is_indexed-drop_entry laws key_prefix index_key alert.alert_key k r
            ∙ elim e [ inl same ↦ rw same refl | inr other ↦ rw other refl ])
        | inr kept ↦ rw kept (
            is_indexed-write_entry laws key_prefix index_key alert.alert_key k (dump alert)
              alert.updated_at ttl r
            ∙ elim e [ inl same ↦ rw same refl | inr other ↦ rw other refl ])
      ]

  apply_one-IsIndexed :
      (ttl : ℕ) (r : R) (alert : Alert F) → IsIndexed P r → IsIndexed P (apply_one json ttl r alert)
  apply_one-IsIndexed ttl r alert h k there =
      go (alert.alert_key == k) (is_cleared alert.state) (is_there-apply_one ttl r alert k)
        (is_indexed-apply_one ttl r alert k) (h k) there
    where
      go :
          {x y s i : Bool} (same gone : Bool)
          → x ≡ (if same then not gone else s)
          → y ≡ (if same then not gone else i)
          → (s ≡ true → i ≡ true)
          → x ≡ true
          → y ≡ true
      go true gone p q h there = q ∙ sym p ∙ there
      go false gone p q h there = q ∙ h (sym p ∙ there)

  -- From a store whose index has every entry, a batch leaves one.
  pub apply-IsIndexed :
      (ttl : ℕ) (alerts : List (Alert F)) (r : R)
      → IsIndexed P r
      → IsIndexed P (apply json ttl alerts r)
  unfolding apply
  apply-IsIndexed ttl [] r h = h
  apply-IsIndexed ttl (a ∷ alerts) r h =
      apply-IsIndexed ttl alerts (apply_one json ttl r a) (apply_one-IsIndexed ttl r a h)

  -- From a store whose entries can all be read and are all in the index: `active` returns exactly
  -- what the store holds for the keys of the index, in the index's order, and leaves in the index
  -- exactly the keys that have an entry.
  pub active_lem :
      (r : R)
      → ((k : String) → IsReadable json (redis.get (prefixed key_prefix k) r))
      → IsIndexed P r
      → (active json r
          ≡ some (swept json r, entries_of json key_prefix (redis.zrevrange index_key r) r))
        × ((k : String)
            → is_indexed P index_key k (swept json r)
              ≡ is_some (redis.get (prefixed key_prefix k) r))
  unfolding active
  active_lem r readable h = (
    rw (read_entries_lem json key_prefix (redis.zrevrange index_key r) r readable) refl,
    λ k.
        is_indexed-zrem_all laws index_key k
          (expired_of P key_prefix (redis.zrevrange index_key r) r) r
        ∙ ap (λ b. not b && is_indexed P index_key k r)
            (any-expired_of P key_prefix k (redis.zrevrange index_key r) r)
        ∙ kept_exactly (is_indexed P index_key k r) (is_some (redis.get (prefixed key_prefix k) r))
            (h k),
  )
    where
      kept_exactly : (i s : Bool) → (s ≡ true → i ≡ true) → (not (i && not s) && i) ≡ s
      kept_exactly i s h = ground arith
