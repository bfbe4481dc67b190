-- ===== src/HashMap/Laws.antt =====
-- The laws of the map: what a lookup finds after each operation, and how many entries there are.
use shared_rate_limiter.Base.{
  subst, length, suc, ◌++◌, Bool, ◌+◌, ◌≡◌, refl, sym, ap, ◌≢◌, true, false, if◌then◌else◌, none,
  some, List, [], ◌∷◌, Eq, arith, All, Bool-cases, inl, inr,
}
use shared_rate_limiter.HashMap.{
  HashMap, len, any_value, map_values, keys, lookup, contains_key, insert, remove,
}

-- No key stands twice.
abbrev pub IsDistinct {ℓ} : {K : Type ℓ} → List K → Type ℓ
IsDistinct [] = Unit
IsDistinct (k ∷ ks) = All (λ j. j ≢ k) ks × IsDistinct ks

module _ {ℓ κ} {K : Type ℓ} {V : Type κ} ⦃e : Eq K⦄ where
  pub lookup-insert :
      (k j : K) (v : V) (m : HashMap K V)
      → lookup j (insert k v m) ≡ (if e.beq k j then some v else lookup j m)
  unfolding lookup insert
  lookup-insert k j v [] = refl
  lookup-insert k j v ((i, w) ∷ m) =
      ground (arith, e.beq_iff k j, e.beq_iff i k, e.beq_iff i j, lookup-insert k j v m)

  pub lookup-insert_self : (k : K) (v : V) (m : HashMap K V) → lookup k (insert k v m) ≡ some v
  lookup-insert_self k v m = rw (lookup-insert k k v m, (e.beq_iff k k).1 refl)

  pub lookup-insert_ne :
      (k j : K) (v : V) (m : HashMap K V) → k ≢ j → lookup j (insert k v m) ≡ lookup j m
  lookup-insert_ne k j v m apart = ground (arith, lookup-insert k j v m, e.beq_iff k j)

  -- A second insertion under a key is the one that stays.
  pub insert-insert : (k : K) (v w : V) (m : HashMap K V) → insert k w (insert k v m) ≡ insert k w m
  unfolding insert
  insert-insert k v w [] = rw ((e.beq_iff k k).1 refl) refl
  insert-insert k v w ((j, x) ∷ m) = elim (Bool-cases (e.beq j k)) [
    | inl here ↦ rw (here, here, insert) refl
    | inr apart ↦ rw (apart, apart, insert) (ap (◌∷◌ (j, x)) (insert-insert k v w m))
  ]

  pub lookup-map_values :
      (f : V → V) (k : K) (m : HashMap K V)
      → lookup k (map_values f m) ≡ elim (lookup k m) [ none ↦ none | some v ↦ some (f v) ]
  unfolding lookup map_values
  lookup-map_values f k [] = refl
  lookup-map_values f k ((j, v) ∷ m) = ground (arith, lookup-map_values f k m)

  pub contains_key-lookup :
      (k : K) (m : HashMap K V)
      → contains_key k m ≡ elim (lookup k m) [ none ↦ false | some _ ↦ true ]
  unfolding lookup contains_key
  contains_key-lookup k [] = refl
  contains_key-lookup k ((j, v) ∷ m) = ground (arith, contains_key-lookup k m)

  pub contains_of_some :
      (k : K) (m : HashMap K V) (v : V) → lookup k m ≡ some v → contains_key k m ≡ true
  contains_of_some k m v h = rw (contains_key-lookup k m, h)

  pub contains_of_none : (k : K) (m : HashMap K V) → lookup k m ≡ none → contains_key k m ≡ false
  contains_of_none k m h = rw (contains_key-lookup k m, h)

  pub contains_key-insert_self :
      (k : K) (v : V) (m : HashMap K V) → contains_key k (insert k v m) ≡ true
  contains_key-insert_self k v m = contains_of_some k (insert k v m) v (lookup-insert_self k v m)

  pub len-insert :
      (k : K) (v : V) (m : HashMap K V)
      → len (insert k v m) ≡ (if contains_key k m then len m else len m + 1)
  unfolding insert contains_key
  len-insert k v [] = refl
  len-insert k v ((j, w) ∷ m) = ground (arith, len-insert k v m)

  pub len-remove :
      (k : K) (m : HashMap K V)
      → len m ≡ (if contains_key k m then len (remove k m) + 1 else len (remove k m))
  unfolding remove contains_key
  len-remove k [] = refl
  len-remove k ((j, w) ∷ m) = ground (arith, len-remove k m)

  pub lookup-remove_ne : (k j : K) (m : HashMap K V) → k ≢ j → lookup j (remove k m) ≡ lookup j m
  unfolding lookup remove
  lookup-remove_ne k j [] h = refl
  lookup-remove_ne k j ((i, v) ∷ m) h =
      ground (arith, e.beq_iff i k, e.beq_iff i j, lookup-remove_ne k j m)

  pub any_value-lookup :
      (p : V → Bool) (k : K) (m : HashMap K V) (v : V)
      → any_value p m ≡ false
      → lookup k m ≡ some v
      → p v ≡ false
  unfolding lookup any_value
  any_value-lookup p k [] v none_left found = cc
  any_value-lookup p k ((j, w) ∷ m) v none_left found = ground (arith, any_value-lookup p k m v)

  pub lookup_absent : (k : K) (m : HashMap K V) → All (λ j. j ≢ k) (keys m) → lookup k m ≡ none
  unfolding lookup
  lookup_absent k [] h = refl
  lookup_absent k ((j, v) ∷ m) h = ground (arith, e.beq_iff j k, h.0, lookup_absent k m h.1)

  pub lookup-remove_self :
      (k : K) (m : HashMap K V) → IsDistinct (keys m) → lookup k (remove k m) ≡ none
  unfolding lookup remove
  lookup-remove_self k [] d = refl
  lookup-remove_self k ((j, v) ∷ m) d = elim (Bool-cases (e.beq j k)) [
    | inl here ↦ rw here (lookup_absent k m (rw ((e.beq_iff j k).0 here) at d.0))
    | inr apart ↦ rw (apart, apart) (lookup-remove_self k m d.1)
  ]

  -- A value that `any_value` finds stands under a key.
  pub any_value-found :
      (p : V → Bool) (m : HashMap K V)
      → IsDistinct (keys m)
      → any_value p m ≡ true
      → (k : K) × (v : V) × (lookup k m ≡ some v) × (p v ≡ true)
  unfolding lookup any_value
  any_value-found p [] d h = absurd (cc h)
  any_value-found p ((j, w) ∷ m) d h = elim (Bool-cases (p w)) [
    | inl here ↦ (j, w, rw ((e.beq_iff j j).1 refl) refl, here)
    | inr later ↦
        let (k, v, found, holds) = any_value-found p m d.1 (rw later at h) in
        elim (Bool-cases (e.beq j k)) [
          | inl same ↦ absurd (
              cc (
                found,
                lookup_absent k m
                    (subst (λ i. All (λ x. x ≢ i) (keys m)) ((e.beq_iff j k).0 same) d.0),
              ))
          | inr apart ↦ (k, v, rw apart found, holds)
        ]
  ]

-- Each operation keeps the keys distinct.
module _ {ℓ κ} {K : Type ℓ} {V : Type κ} ⦃e : Eq K⦄ where
  All-insert :
      (P : K → Type ℓ) (k : K) (v : V) (m : HashMap K V)
      → P k
      → All P (keys m)
      → All P (keys (insert k v m))
  unfolding insert
  All-insert P k v [] pk h = (pk, tt)
  All-insert P k v ((j, w) ∷ m) pk h = elim (Bool-cases (e.beq j k)) [
    | inl here ↦ rw here h
    | inr apart ↦ rw apart (h.0, All-insert P k v m pk h.1)
  ]

  pub IsDistinct-insert :
      (k : K) (v : V) (m : HashMap K V) → IsDistinct (keys m) → IsDistinct (keys (insert k v m))
  unfolding insert
  IsDistinct-insert k v [] d = (tt, tt)
  IsDistinct-insert k v ((j, w) ∷ m) d = elim (Bool-cases (e.beq j k)) [
    | inl here ↦ rw here d
    | inr apart ↦ rw apart (
      All-insert (λ i. i ≢ j) k v m (λ same. cc (apart, (e.beq_iff j k).1 (sym same))) d.0,
      IsDistinct-insert k v m d.1,
    )
  ]

  All-remove :
      (P : K → Type ℓ) (k : K) (m : HashMap K V) → All P (keys m) → All P (keys (remove k m))
  unfolding remove
  All-remove P k [] h = tt
  All-remove P k ((j, w) ∷ m) h = elim (Bool-cases (e.beq j k)) [
    | inl here ↦ rw here h.1
    | inr apart ↦ rw apart (h.0, All-remove P k m h.1)
  ]

  pub IsDistinct-remove :
      (k : K) (m : HashMap K V) → IsDistinct (keys m) → IsDistinct (keys (remove k m))
  unfolding remove
  IsDistinct-remove k [] d = tt
  IsDistinct-remove k ((j, w) ∷ m) d = elim (Bool-cases (e.beq j k)) [
    | inl here ↦ rw here d.1
    | inr apart ↦ rw apart (All-remove (λ i. i ≢ j) k m d.0, IsDistinct-remove k m d.1)
  ]

pub keys-map_values {ℓ κ} :
    {K : Type ℓ} {V : Type κ} (f : V → V) (m : HashMap K V) → keys (map_values f m) ≡ keys m
unfolding map_values
keys-map_values f [] = refl
keys-map_values f ((k, v) ∷ m) = ap (◌∷◌ k) (keys-map_values f m)

-- The keys in the order of the list: an insertion of a new key goes to the end.
module _ {ℓ κ} {K : Type ℓ} {V : Type κ} ⦃e : Eq K⦄ where
  pub keys-insert_present :
      (k : K) (v : V) (m : HashMap K V) → contains_key k m ≡ true → keys (insert k v m) ≡ keys m
  unfolding insert contains_key
  keys-insert_present k v [] h = cc
  keys-insert_present k v ((j, w) ∷ m) h = ground (arith, keys-insert_present k v m)

  pub keys-insert_absent :
      (k : K) (v : V) (m : HashMap K V)
      → contains_key k m ≡ false
      → keys (insert k v m) ≡ keys m ++ k ∷ []
  unfolding insert contains_key
  keys-insert_absent k v [] h = refl
  keys-insert_absent k v ((j, w) ∷ m) h = ground (arith, keys-insert_absent k v m)

pub len-keys {ℓ κ} : {K : Type ℓ} {V : Type κ} (m : HashMap K V) → length (keys m) ≡ len m
len-keys [] = refl
len-keys ((k, v) ∷ m) = ap suc (len-keys m)
