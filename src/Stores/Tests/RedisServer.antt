-- ===== src/Stores/Tests/RedisServer.antt =====
-- A Redis server: strings, and sorted sets as lists from the highest score to the lowest.
use airspace_conformance_pla.Base.{
  String, Bool, true, ◌&&◌, ◌||◌, not, ◌≡◌, ◌∙◌, refl, ap, Option, none, some, List, [], ◌∷◌, any,
  select, leb, ◌==◌, string_eq, arith, Dict, lookup, insert, delete, lookup-insert,
  lookup-insert_self, lookup-delete, if◌then◌else◌,
}
use airspace_conformance_pla.Contracts.{Timestamp}
use airspace_conformance_pla.Stores.{Redis, IsRedis}

pub record Server (P : Type 0) : Type 0 where
  pub strings : Dict String P
  pub sets : Dict String (List (String × Timestamp))

abbrev pub without : String → List (String × Timestamp) → List (String × Timestamp)
without m [] = []
without m ((x, score) ∷ xs) = let rest = without m xs in if m == x then rest else (x, score) ∷ rest

abbrev pub place : String → Timestamp → List (String × Timestamp) → List (String × Timestamp)
place m score [] = (m, score) ∷ []
place m score ((x, t) ∷ xs) =
    let rest = place m score xs in if leb t score then (m, score) ∷ (x, t) ∷ xs else (x, t) ∷ rest

abbrev pub members : Option (List (String × Timestamp)) → List (String × Timestamp)
members none = []
members (some xs) = xs

abbrev pub names : List (String × Timestamp) → List String
names [] = []
names ((x, t) ∷ xs) = x ∷ names xs

abbrev pub rising : List String → List (String × Timestamp) → List String
rising done [] = done
rising done ((x, t) ∷ xs) = rising (x ∷ done) xs

abbrev pub is_since : Option Timestamp → String × Timestamp → Bool
is_since none (x, t) = true
is_since (some minimum) (x, t) = leb minimum t

instance abbrev pub server : {P : Type 0} → Redis P (Server P)
server = record {
  get = λ k r. lookup k r.strings;
  set = λ k value ttl r. record r { strings = insert k value r.strings };
  delete = λ k r. record r { strings = delete k r.strings };
  zadd = λ index m score r. record r {
    sets = insert index (place m score (without m (members (lookup index r.sets)))) r.sets;
  };
  zrem = λ index m r. record r {
    sets = insert index (without m (members (lookup index r.sets))) r.sets;
  };
  zrevrange = λ index r. names (members (lookup index r.sets));
  zrange_by_score =
      λ index minimum r. rising [] (select (is_since minimum) (members (lookup index r.sets)));
}

any-without :
    (m k : String) (xs : List (String × Timestamp))
    → any (λ x. x == k) (names (without m xs)) ≡ (not (m == k) && any (λ x. x == k) (names xs))
any-without m k [] = ground arith
any-without m k ((x, t) ∷ xs) = ground (
  arith,
  string_eq.equals_iff m x,
  string_eq.equals_iff m k,
  string_eq.equals_iff x k,
  any-without m k xs,
)

any-place :
    (m k : String) (score : Timestamp) (xs : List (String × Timestamp))
    → any (λ x. x == k) (names (place m score xs)) ≡ ((m == k) || any (λ x. x == k) (names xs))
any-place m k score [] = refl
any-place m k score ((x, t) ∷ xs) = ground (arith, any-place m k score xs)

put_back : (a b : Bool) → (a || (not a && b)) ≡ (a || b)
put_back a b = ground arith

pub server-IsRedis : {P : Type 0} → IsRedis P (Server P)
server-IsRedis = record {
  get-set = λ key k value ttl r. lookup-insert key k value r.strings;
  get-delete = λ key k r. lookup-delete key k r.strings;
  get-zadd = λ index member score k r. refl;
  get-zrem = λ index member k r. refl;
  is_indexed-zadd = λ index member m score r.
      ap (λ o. any (λ x. x == m) (names (members o))) (lookup-insert_self index _ r.sets)
      ∙ any-place member m score (without member (members (lookup index r.sets)))
      ∙ ap (λ b. (member == m) || b) (any-without member m (members (lookup index r.sets)))
      ∙ put_back (member == m) _;
  is_indexed-zrem = λ index member m r.
      ap (λ o. any (λ x. x == m) (names (members o))) (lookup-insert_self index _ r.sets)
      ∙ any-without member m (members (lookup index r.sets));
  is_indexed-set = λ index m key value ttl r. refl;
  is_indexed-delete = λ index m key r. refl;
}
