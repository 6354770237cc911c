-- ===== src/Registry/MemoryCache/Lru.antt =====
-- What the cache relies on in hashicorp/golang-lru: the documented behaviour of `Get`, `Add`, `Remove`
-- and `Keys`, told by `Peek`, which reads an entry without touching the order. A bounded list whose
-- first entry is the most recent one meets it.
use cogment.Prelude.{
  ℕ, zero, suc, ◌≡◌, ◌∙◌, ◌⊎◌, ◌↔◌, inl, inr, refl, true, false, Option, none, some, [], ◌∷◌,
  if◌then◌else◌, eq_iff, In, arith, Bool-cases, Key,
}
use cogment.Prelude.Dict.{Dict, lookup, delete, keys, lookup-delete}
use cogment.Registry.MemoryCache.{CachedVersion, CacheKey, same_key, LruCache}

pub same_key_iff : (a b : CacheKey) → (same_key a b ≡ true) ↔ (a ≡ b)
same_key_iff (m, n) (m', n') = ground (arith, eq_iff m m')

instance abbrev pub cache_key : Key CacheKey
cache_key = record { same = same_key; same_iff = same_key_iff }

-- `Peek` finds what was added last, or nothing after a removal or an eviction.
pub record IsLru {C : Type 0} (lru : LruCache C) (peek : CacheKey → C → Option CachedVersion)
    : Type 0 where
  pub get-peek : (k : CacheKey) (c : C) → (lru.get k c).0 ≡ peek k c
  pub peek-get : (k j : CacheKey) (c : C) → peek j (lru.get k c).1 ≡ peek j c
  pub peek-add_self : (k : CacheKey) (v : CachedVersion) (c : C) → peek k (lru.add k v c) ≡ some v
  pub peek-add_ne :
      (k j : CacheKey) (v : CachedVersion) (c : C)
      → same_key k j ≡ false
      → (peek j (lru.add k v c) ≡ peek j c) ⊎ (peek j (lru.add k v c) ≡ none)
  pub peek-remove :
      (k j : CacheKey) (c : C) → peek j (lru.remove k c) ≡ (if same_key k j then none else peek j c)
  pub in_keys : (k : CacheKey) (c : C) (v : CachedVersion) → peek k c ≡ some v → In k (lru.keys c)

unfoldable pub take : ℕ → Dict CacheKey CachedVersion → Dict CacheKey CachedVersion
take zero m = []
take (suc n) [] = []
take (suc n) (e ∷ m) = e ∷ take n m

-- What is kept of a cache is as it was, and the rest is forgotten.
lookup-take :
    (n : ℕ) (j : CacheKey) (m : Dict CacheKey CachedVersion)
    → (lookup j (take n m) ≡ lookup j m) ⊎ (lookup j (take n m) ≡ none)
unfolding take lookup
lookup-take zero j m = inr refl
lookup-take (suc n) j [] = inl refl
lookup-take (suc n) j ((k, v) ∷ m) = elim (Bool-cases (same_key k j)) [
  | inl same ↦ inl (rw same refl)
  | inr other ↦ rw other (lookup-take n j m)
]

unfoldable pub promote :
    CacheKey → Option CachedVersion → Dict CacheKey CachedVersion → Dict CacheKey CachedVersion
promote k none m = m
promote k (some v) m = (k, v) ∷ delete k m

-- At most `n + 1` entries; adding and reading an entry makes it the first.
unfoldable pub bounded_lru : ℕ → LruCache (Dict CacheKey CachedVersion)
unfolding promote
bounded_lru n = record {
  keys = keys;
  get = λ k m. (lookup k m, promote k (lookup k m) m);
  add = λ k v m. take (suc n) ((k, v) ∷ delete k m);
  remove = delete;
}

In-keys :
    (k : CacheKey) (m : Dict CacheKey CachedVersion) (v : CachedVersion)
    → lookup k m ≡ some v
    → In k (keys m)
unfolding lookup keys
In-keys k [] v h = absurd (ground arith)
In-keys k ((j, w) ∷ m) v h = elim (Bool-cases (same_key j k)) [
  | inl same ↦ inl ((same_key_iff j k).0 same)
  | inr other ↦ inr (In-keys k m v (ground (arith, other)))
]

lookup-promote :
    (k j : CacheKey) (o : Option CachedVersion) (m : Dict CacheKey CachedVersion)
    → lookup k m ≡ o
    → lookup j (promote k o m) ≡ lookup j m
unfolding promote lookup
lookup-promote k j none m h = refl
lookup-promote k j (some v) m h = ground (arith, same_key_iff k j, lookup-delete k j m)

forgotten :
    (n : ℕ) (k j : CacheKey) (m : Dict CacheKey CachedVersion)
    → same_key k j ≡ false
    → (lookup j (take n (delete k m)) ≡ lookup j m) ⊎ (lookup j (take n (delete k m)) ≡ none)
forgotten n k j m other = elim (lookup-take n j (delete k m)) [
  | inl kept ↦ inl (kept ∙ lookup-delete k j m ∙ rw other refl)
  | inr gone ↦ inr gone
]

pub bounded_lru-IsLru : (n : ℕ) → IsLru (bounded_lru n) lookup
unfolding take lookup bounded_lru
bounded_lru-IsLru n = record {
  get-peek = λ k c. refl;
  peek-get = λ k j c. lookup-promote k j (lookup k c) c refl;
  peek-add_self = λ k v c. rw ((same_key_iff k k).1 refl) refl;
  peek-add_ne = λ k j v c other. rw other (forgotten n k j c other);
  peek-remove = λ k j c. lookup-delete k j c;
  in_keys = λ k c v h. In-keys k c v h;
}
