-- ===== src/Stores.antt =====
-- storage/stores.py: what its two Redis stores have in common. Redis, and the encoding of messages as
-- JSON, are interfaces; their laws are the documented effect of each command on what the others read.
-- Keys expire by themselves in Redis: `delete` at any time stands for it.
pub mod LiveAlerts
pub mod LiveTracks
pub mod ReadModel
pub mod History
pub mod Effects
mod Tests
use Prim.Native.String.{◌++◌ as str_append}
use text.Mathlib.TextLemmas.{append_cancel_left}
use mathlib.Core.Path.{subst}
use airspace_conformance_pla.Base.{
  ℕ, String, Bool, true, false, ◌&&◌, ◌||◌, not, ◌≡◌, ◌∙◌, refl, sym, Option, none, some, foldl, ap,
  List, [], ◌∷◌, arith, Option-cases, any, ◌==◌, ==_cases, ==_refl, ==_ne, ==_ne_of_false,
  string_eq, inl, inr, if◌then◌else◌,
}
use airspace_conformance_pla.Contracts.{Timestamp}

-- The commands that the stores send. A sorted set keeps a score for each member:
-- a time, whose `timestamp()` has the same order.
pub record Redis (P R : Type 0) : Type 0 where
  pub get : String → R → Option P
  -- SET key value EX seconds
  pub set : String → P → ℕ → R → R
  pub delete : String → R → R
  pub zadd : String → String → Timestamp → R → R
  pub zrem : String → String → R → R
  -- ZREVRANGE key 0 -1
  pub zrevrange : String → R → List String
  -- ZRANGEBYSCORE key minimum +inf, where no minimum is -inf.
  pub zrange_by_score : String → Option Timestamp → R → List String

module _ (P : Type 0) {R : Type 0} ⦃redis : Redis P R⦄ where
  -- The member is in the sorted set.
  abbrev pub is_indexed : String → String → R → Bool
  is_indexed index member r = any (λ m. m == member) (redis.zrevrange index r)

pub record IsRedis (P R : Type 0) ⦃redis : Redis P R⦄ : Type 0 where
  pub get-set :
      (key k : String) (value : P) (ttl : ℕ) (r : R)
      → redis.get k (redis.set key value ttl r) ≡ (if key == k then some value else redis.get k r)
  pub get-delete :
      (key k : String) (r : R)
      → redis.get k (redis.delete key r) ≡ (if key == k then none else redis.get k r)
  pub get-zadd :
      (index member : String) (score : Timestamp) (k : String) (r : R)
      → redis.get k (redis.zadd index member score r) ≡ redis.get k r
  pub get-zrem :
      (index member k : String) (r : R) → redis.get k (redis.zrem index member r) ≡ redis.get k r
  pub is_indexed-zadd :
      (index member m : String) (score : Timestamp) (r : R)
      → is_indexed P index m (redis.zadd index member score r)
        ≡ (member == m || is_indexed P index m r)
  pub is_indexed-zrem :
      (index member m : String) (r : R)
      → is_indexed P index m (redis.zrem index member r)
        ≡ (not (member == m) && is_indexed P index m r)
  pub is_indexed-set :
      (index m key : String) (value : P) (ttl : ℕ) (r : R)
      → is_indexed P index m (redis.set key value ttl r) ≡ is_indexed P index m r
  pub is_indexed-delete :
      (index m key : String) (r : R)
      → is_indexed P index m (redis.delete key r) ≡ is_indexed P index m r

-- `model_dump_json`, and `model_validate` of the JSON, which raises on what it cannot read. A message
-- is read back as it was if it is exact: JSON has no NaN and no infinity.
pub record Json (P A : Type 0) : Type 1 where
  pub dump : A → P
  pub parse : P → Option A
  pub IsExact : A → Type 0
  pub parse-dump : (a : A) → IsExact a → parse (dump a) ≡ some a

-- What an entry holds, where it can be read.
abbrev pub decode : {P A : Type 0} → Json P A → Option P → Option A
decode json none = none
decode json (some payload) = json.parse payload

-- Whether an entry, if it is there, can be read.
abbrev pub IsReadable : {P A : Type 0} → Json P A → Option P → Type 0
IsReadable json none = Unit
IsReadable {A} json (some payload) = (a : A) × (json.parse payload ≡ some a)

abbrev pub is_some : {A : Type 0} → Option A → Bool
is_some none = false
is_some (some _) = true

abbrev pub listed : {A : Type 0} → Option A → List A → List A
listed none rest = rest
listed (some a) rest = a ∷ rest

abbrev pub prefixed : String → String → String
prefixed prefix id = str_append prefix id

pub prefixed_eq : (prefix j k : String) → (prefixed prefix j == prefixed prefix k) ≡ (j == k)
prefixed_eq prefix j k = elim (==_cases j k) [
  | inl same ↦
      subst (λ x. (prefixed prefix j == prefixed prefix x) ≡ (j == x)) same
        (==_refl (prefixed prefix j) ∙ sym (==_refl j))
  | inr other ↦
      rw other (==_ne _ _ (λ p. ==_ne_of_false j k other (append_cancel_left prefix j k p)))
]

abbrev pub add_entry :
    {A : Type 0} → Option A → List A → List String → Option (List A × List String)
add_entry none entries expired = none
add_entry (some entry) entries expired = some (entry ∷ entries, expired)

-- The body of the loop, from a key and its entry.
abbrev pub read_entry :
    {P A : Type 0}
    → Json P A
    → String
    → Option P
    → Option (List A × List String)
    → Option (List A × List String)
read_entry json key payload none = none
read_entry json key none (some (entries, expired)) = some (entries, key ∷ expired)
read_entry json key (some payload) (some (entries, expired)) =
    add_entry (json.parse payload) entries expired

abbrev pub unless_there : {A : Type 0} → Option A → String → List String → List String
unless_there none key rest = key ∷ rest
unless_there (some _) key rest = rest

read_entry_lem :
    {P A : Type 0} (json : Json P A) (key : String) (o : Option P) (entries : List A)
    (expired : List String)
    → IsReadable json o
    → read_entry json key o (some (entries, expired))
      ≡ some (listed (decode json o) entries, unless_there o key expired)
read_entry_lem json key none entries expired h = refl
read_entry_lem json key (some payload) entries expired (a, read) = rw read refl

any-unless_there :
    {A : Type 0} (o : Option A) (k : String) (rest : List String)
    → any (λ m. m == k) (unless_there o k rest) ≡ (not (is_some o) || any (λ m. m == k) rest)
any-unless_there none k rest = rw (==_refl k) refl
any-unless_there (some a) k rest = refl

any-unless_there_ne :
    {A : Type 0} (o : Option A) (key k : String) (rest : List String)
    → (key == k) ≡ false
    → any (λ m. m == k) (unless_there o key rest) ≡ any (λ m. m == k) rest
any-unless_there_ne none key k rest h = rw h refl
any-unless_there_ne (some a) key k rest h = refl

bool_absorb : (a b : Bool) → (not a || (b && not a)) ≡ (true && not a)
bool_absorb a b = ground arith

bool_out : (a b c : Bool) → (not b && (not a && c)) ≡ (not (a || b) && c)
bool_out a b c = ground arith

module _ (P : Type 0) {R : Type 0} ⦃redis : Redis P R⦄ (prefix : String) where
  -- The keys that have no entry.
  abbrev pub expired_of : List String → R → List String
  expired_of [] r = []
  expired_of (key ∷ keys) r =
      unless_there (redis.get (prefixed prefix key) r) key (expired_of keys r)

  -- An expired key is one of the keys, and has no entry.
  pub any-expired_of :
      (k : String) (keys : List String) (r : R)
      → any (λ m. m == k) (expired_of keys r)
        ≡ (any (λ m. m == k) keys && not (is_some (redis.get (prefixed prefix k) r)))
  any-expired_of k [] r = refl
  any-expired_of k (key ∷ keys) r =
      let rest = any-expired_of k keys r in
      elim (==_cases key k) [
        | inl same ↦
            subst
              (λ x.
                any (λ m. m == x)
                  (unless_there (redis.get (prefixed prefix key) r) key (expired_of keys r))
                ≡ ((key == x || any (λ m. m == x) keys)
                    && not (is_some (redis.get (prefixed prefix x) r))))
              same
              (any-unless_there (redis.get (prefixed prefix key) r) key (expired_of keys r)
                ∙ rw (any-expired_of key keys r, ==_refl key)
                    (bool_absorb (is_some (redis.get (prefixed prefix key) r)) _))
        | inr other ↦
            any-unless_there_ne (redis.get (prefixed prefix key) r) key k _ other
            ∙ rest
            ∙ rw other refl
      ]

module _ (P : Type 0) {R : Type 0} ⦃redis : Redis P R⦄ where
  -- An entry taken out of both.
  abbrev pub drop_entry : String → String → String → R → R
  drop_entry prefix index id r = redis.zrem index id (redis.delete (prefixed prefix id) r)

module _ {P R : Type 0} ⦃redis : Redis P R⦄ where
  -- An entry written under its key and into its index.
  abbrev pub write_entry : String → String → String → P → Timestamp → ℕ → R → R
  write_entry prefix index id value score ttl r =
      redis.zadd index id score (redis.set (prefixed prefix id) value ttl r)

  module _ {A : Type 0} (json : Json P A) (prefix : String) where
    -- The loop over the keys of an index: the entries, and the keys whose entry has expired. `none`
    -- where an entry cannot be read, which raises.
    unfoldable pub read_entries : List String → R → Option (List A × List String)
    read_entries [] r = some ([], [])
    read_entries (key ∷ keys) r =
        read_entry json key (redis.get (prefixed prefix key) r) (read_entries keys r)

    -- What the entries of the keys hold, in the keys' order.
    abbrev pub entries_of : List String → R → List A
    entries_of [] r = []
    entries_of (key ∷ keys) r =
        listed (decode json (redis.get (prefixed prefix key) r)) (entries_of keys r)

    pub read_entries_lem :
        (keys : List String) (r : R)
        → ((key : String) → IsReadable json (redis.get (prefixed prefix key) r))
        → read_entries keys r ≡ some (entries_of keys r, expired_of P prefix keys r)
    unfolding read_entries
    read_entries_lem [] r h = refl
    read_entries_lem (key ∷ keys) r h =
        rw (read_entries_lem keys r h)
          (read_entry_lem json key (redis.get (prefixed prefix key) r) _ _ (h key))

  module _ (laws : IsRedis P R) where
    open laws use {
      get-set, get-delete, get-zadd, get-zrem, is_indexed-zadd, is_indexed-zrem, is_indexed-set,
      is_indexed-delete,
    }

    pub get-write_entry :
        (prefix index id k : String) (value : P) (score : Timestamp) (ttl : ℕ) (r : R)
        → redis.get (prefixed prefix k) (write_entry prefix index id value score ttl r)
          ≡ (if id == k then some value else redis.get (prefixed prefix k) r)
    get-write_entry prefix index id k value score ttl r = rw (get-zadd, get-set, prefixed_eq) refl

    pub get-drop_entry :
        (prefix index id k : String) (r : R)
        → redis.get (prefixed prefix k) (drop_entry P prefix index id r)
          ≡ (if id == k then none else redis.get (prefixed prefix k) r)
    get-drop_entry prefix index id k r = rw (get-zrem, get-delete, prefixed_eq) refl

    pub is_indexed-write_entry :
        (prefix index id k : String) (value : P) (score : Timestamp) (ttl : ℕ) (r : R)
        → is_indexed P index k (write_entry prefix index id value score ttl r)
          ≡ (id == k || is_indexed P index k r)
    is_indexed-write_entry prefix index id k value score ttl r =
        is_indexed-zadd index id k score _
        ∙ rw (is_indexed-set index k (prefixed prefix id) value ttl r) refl

    pub is_indexed-drop_entry :
        (prefix index id k : String) (r : R)
        → is_indexed P index k (drop_entry P prefix index id r)
          ≡ (not (id == k) && is_indexed P index k r)
    is_indexed-drop_entry prefix index id k r =
        is_indexed-zrem index id k _ ∙ rw (is_indexed-delete index k (prefixed prefix id) r) refl

    pub is_indexed-zrem_all :
        (index k : String) (ms : List String) (r : R)
        → is_indexed P index k (foldl (λ s m. redis.zrem index m s) r ms)
          ≡ (not (any (λ m. m == k) ms) && is_indexed P index k r)
    is_indexed-zrem_all index k [] r = refl
    is_indexed-zrem_all index k (m ∷ ms) r =
        is_indexed-zrem_all index k ms (redis.zrem index m r)
        ∙ ap (λ b. not (any (λ x. x == k) ms) && b) (is_indexed-zrem index m k r)
        ∙ bool_out (m == k) (any (λ x. x == k) ms) (is_indexed P index k r)
