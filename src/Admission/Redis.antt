-- ===== src/Admission/Redis.antt =====
-- The data types of Redis that the admission scripts use: sets and hashes of numbers, and sorted
-- sets as lists of members with their scores, in the order of the scores.
use boardtrace.Prelude.{
  leb, ◌==◌, if◌then◌else◌, is_some, length, ℕ, suc, ◌+◌, ◌≤◌, ◌<◌, ◌≡◌, refl, ◌≢◌, Bool, true,
  false, ◌||◌, Option, none, some, List, [], ◌∷◌, arith,
}

-- SISMEMBER
unfoldable pub mem : ℕ → List ℕ → Bool
mem k [] = false
mem k (x ∷ xs) = x == k || mem k xs

-- SADD
unfoldable pub sadd : ℕ → List ℕ → List ℕ
unfolding mem
sadd k xs = if mem k xs then xs else k ∷ xs

-- SREM
unfoldable pub srem : ℕ → List ℕ → List ℕ
srem k [] = []
srem k (x ∷ xs) = let rest = srem k xs in if x == k then rest else x ∷ rest

abbrev pub Hash : Type 0
Hash = List (ℕ × ℕ)

-- HGET, and ZSCORE on a sorted set
unfoldable pub hget : ℕ → Hash → Option ℕ
hget k [] = none
hget k ((j, v) ∷ m) = if j == k then some v else hget k m

-- HSET
unfoldable pub hset : ℕ → ℕ → Hash → Hash
hset k v [] = (k, v) ∷ []
hset k v ((j, w) ∷ m) = let rest = hset k v m in if j == k then (k, v) ∷ m else (j, w) ∷ rest

-- HDEL, and ZREM on a sorted set
unfoldable pub hdel : ℕ → Hash → Hash
hdel k [] = []
hdel k ((j, w) ∷ m) = let rest = hdel k m in if j == k then rest else (j, w) ∷ rest

unfoldable pub insert_scored : ℕ → ℕ → Hash → Hash
insert_scored k s [] = (k, s) ∷ []
insert_scored k s ((j, t) ∷ z) =
    let rest = insert_scored k s z in if leb t s then (j, t) ∷ rest else (k, s) ∷ (j, t) ∷ z

-- ZADD
unfoldable pub zadd : ℕ → ℕ → Hash → Hash
unfolding insert_scored hdel
zadd k s z = insert_scored k s (hdel k z)

abbrev pub next_rank : Option ℕ → Option ℕ
next_rank none = none
next_rank (some r) = some (suc r)

-- ZRANK, from zero
unfoldable pub zrank : ℕ → Hash → Option ℕ
zrank k [] = none
zrank k ((j, _) ∷ z) = let rest = zrank k z in if j == k then some 0 else next_rank rest

-- ZRANGE 0 -1
abbrev pub members : Hash → List ℕ
members [] = []
members ((j, _) ∷ z) = j ∷ members z

-- The first key with the given value, in a loop over HGETALL.
unfoldable pub key_of : ℕ → Hash → Option ℕ
key_of v [] = none
key_of v ((j, w) ∷ m) = if w == v then some j else key_of v m

pub mem-srem : (j k : ℕ) (xs : List ℕ) → mem j (srem k xs) ≡ (if k == j then false else mem j xs)
unfolding mem srem
mem-srem j k [] = ground arith
mem-srem j k (x ∷ xs) = ground (arith, mem-srem j k xs)

pub mem-sadd : (j k : ℕ) (xs : List ℕ) → mem j (sadd k xs) ≡ (if k == j then true else mem j xs)
unfolding sadd
mem-sadd j k xs = ground arith

pub hget-hset : (j k v : ℕ) (m : Hash) → hget j (hset k v m) ≡ (if k == j then some v else hget j m)
unfolding hget hset
hget-hset j k v [] = refl
hget-hset j k v ((i, w) ∷ m) = ground (arith, hget-hset j k v m)

pub hget-hdel : (j k : ℕ) (m : Hash) → hget j (hdel k m) ≡ (if k == j then none else hget j m)
unfolding hget hdel
hget-hdel j k [] = ground arith
hget-hdel j k ((i, w) ∷ m) = ground (arith, hget-hdel j k m)

pub hget-insert_scored :
    (j k s : ℕ) (z : Hash)
    → hget k z ≡ none
    → hget j (insert_scored k s z) ≡ (if k == j then some s else hget j z)
unfolding hget insert_scored
hget-insert_scored j k s [] h = refl
hget-insert_scored j k s ((i, t) ∷ z) h = ground (arith, hget-insert_scored j k s z)

pub hget-zadd : (j k s : ℕ) (z : Hash) → hget j (zadd k s z) ≡ (if k == j then some s else hget j z)
unfolding zadd
hget-zadd j k s z =
    ground (arith, hget-insert_scored j k s (hdel k z), hget-hdel k k z, hget-hdel j k z)

-- Sets and hashes as Redis keeps them hold no member and no key twice.
abbrev pub Distinct : List ℕ → Type 0
Distinct [] = Unit
Distinct (x ∷ xs) = (mem x xs ≡ false) × Distinct xs

abbrev pub DistinctKeys : Hash → Type 0
DistinctKeys [] = Unit
DistinctKeys ((k, _) ∷ m) = (hget k m ≡ none) × DistinctKeys m

pub srem-Distinct : (k : ℕ) (xs : List ℕ) → Distinct xs → Distinct (srem k xs)
unfolding mem srem
srem-Distinct k [] d = tt
srem-Distinct k (x ∷ xs) d = ground (arith, srem-Distinct k xs d.1, mem-srem x k xs)

pub sadd-Distinct : (k : ℕ) (xs : List ℕ) → Distinct xs → Distinct (sadd k xs)
unfolding mem sadd
sadd-Distinct k xs d = ground arith

srem-absent : (k : ℕ) (xs : List ℕ) → mem k xs ≡ false → srem k xs ≡ xs
unfolding mem srem
srem-absent k [] h = refl
srem-absent k (x ∷ xs) h = ground (arith, srem-absent k xs)

pub length-srem :
    (k : ℕ) (xs : List ℕ) → Distinct xs → mem k xs ≡ true → length (srem k xs) + 1 ≡ length xs
unfolding mem srem
length-srem k [] d h = cc
length-srem k (x ∷ xs) d h = ground (arith, length-srem k xs d.1, srem-absent k xs)

pub length-sadd : (k : ℕ) (xs : List ℕ) → mem k xs ≡ false → length (sadd k xs) ≡ length xs + 1
unfolding sadd
length-sadd k xs h = ground arith

pub hset-DistinctKeys : (k v : ℕ) (m : Hash) → DistinctKeys m → DistinctKeys (hset k v m)
unfolding hget hset
hset-DistinctKeys k v [] d = (refl, tt)
hset-DistinctKeys k v ((j, w) ∷ m) d =
    ground (arith, hset-DistinctKeys k v m d.1, hget-hset j k v m)

pub hdel-DistinctKeys : (k : ℕ) (m : Hash) → DistinctKeys m → DistinctKeys (hdel k m)
unfolding hget hdel
hdel-DistinctKeys k [] d = tt
hdel-DistinctKeys k ((j, w) ∷ m) d = ground (arith, hdel-DistinctKeys k m d.1, hget-hdel j k m)

pub length-hdel : (k : ℕ) (m : Hash) → length (hdel k m) ≤ length m
unfolding hdel
length-hdel k [] = omega arith
length-hdel k ((j, w) ∷ m) = ground (arith, length-hdel k m)

length-insert_scored : (k s : ℕ) (z : Hash) → length (insert_scored k s z) ≡ length z + 1
unfolding insert_scored
length-insert_scored k s [] = omega arith
length-insert_scored k s ((j, t) ∷ z) = ground (arith, length-insert_scored k s z)

pub length-zadd : (k s : ℕ) (z : Hash) → length (zadd k s z) ≤ length z + 1
unfolding zadd
length-zadd k s z = omega (arith, length-insert_scored k s (hdel k z), length-hdel k z)

-- The key that the loop finds is a key of that value.
pub hget-key_of : (v k : ℕ) (m : Hash) → DistinctKeys m → key_of v m ≡ some k → hget k m ≡ some v
unfolding hget key_of
hget-key_of v k [] d h = cc
hget-key_of v k ((j, w) ∷ m) d h = ground (arith, hget-key_of v k m d.1)

-- A value that some key has is found.
pub key_of-some : (v k : ℕ) (m : Hash) → hget k m ≡ some v → key_of v m ≢ none
unfolding hget key_of
key_of-some v k [] h = cc
key_of-some v k ((j, w) ∷ m) h = ground (arith, key_of-some v k m)

pub members-nil : (z : Hash) → members z ≡ [] → z ≡ []
members-nil [] e = refl
members-nil ((j, s) ∷ z) e = cc

pub members-cons :
    (j : ℕ) (js : List ℕ) (z : Hash)
    → members z ≡ j ∷ js
    → (is_some (hget j z) ≡ true) × (0 < length z)
unfolding hget
members-cons j js [] e = cc
members-cons j js ((i, s) ∷ z) e = ground arith

zrank-some : (k : ℕ) (z : Hash) → is_some (zrank k z) ≡ is_some (hget k z)
unfolding zrank hget
zrank-some k [] = refl
zrank-some k ((j, s) ∷ z) = ground (arith, zrank-some k z)

-- A member that was just added has a rank.
pub zrank-zadd : (k s : ℕ) (z : Hash) → is_some (zrank k (zadd k s z)) ≡ true
zrank-zadd k s z = ground (arith, zrank-some k (zadd k s z), hget-zadd k k s z)
