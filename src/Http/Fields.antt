-- ===== src/Http/Fields.antt =====
-- The case-insensitive maps as maps: what a key finds after an assignment and an erasure.
use uiconnect.Base.{
  ℕ, ◌≡◌, refl, ap, true, false, not, ◌&&◌, none, some, List, [], ◌∷◌, map, if◌then◌else◌, ◌↔◌,
  arith,
}
use uiconnect.Http.{to_lower, is_before, key_less, same_key, MapType, find, assign, erase}

is_before_self : (xs : List ℕ) → is_before xs xs ≡ false
unfolding is_before
is_before_self [] = refl
is_before_self (x ∷ xs) = ground (arith, is_before_self xs)

apart : (xs ys : List ℕ) → is_before xs ys ≡ false → is_before ys xs ≡ false → xs ≡ ys
unfolding is_before
apart [] [] p q = refl
apart [] (y ∷ ys) p q = cc
apart (x ∷ xs) [] p q = cc
apart (x ∷ xs) (y ∷ ys) p q = ground (arith, apart xs ys)

-- Two keys are one if they are the same in lower case.
pub same_key-to_lower : (a b : List ℕ) → (same_key a b ≡ true) ↔ (map to_lower a ≡ map to_lower b)
unfolding same_key key_less
same_key-to_lower a b = (
  λ h. apart (map to_lower a) (map to_lower b) (ground arith) (ground arith),
  λ e. rw (e, is_before_self (map to_lower b)) refl,
)

same_key_trans : (a b c : List ℕ) → same_key a b ≡ true → same_key a c ≡ same_key b c
unfolding same_key key_less
same_key_trans a b c e =
    ap (λ x. not (is_before x (map to_lower c)) && not (is_before (map to_lower c) x))
      ((same_key-to_lower a b).0 e)

-- After m[key] = val a key that is the same but for its case finds `val`, and another one what it
-- found before.
pub find-assign :
    (key val k : List ℕ) (m : MapType)
    → find k (assign key val m) ≡ (if same_key k key then some val else find k m)
unfolding find assign
find-assign key val k [] = refl
find-assign key val k ((j, v) ∷ rest) = ground (
  arith,
  find-assign key val k rest,
  same_key_trans key j k,
  same_key_trans k key j,
  same_key_trans k j key,
)

-- After erase(key) a key that is the same but for its case finds nothing, and another one what it
-- found before.
pub find-erase :
    (key k : List ℕ) (m : MapType)
    → find k (erase key m) ≡ (if same_key k key then none else find k m)
unfolding find erase
find-erase key k [] = ground arith
find-erase key k ((j, v) ∷ rest) =
    ground (arith, find-erase key k rest, same_key_trans key j k, same_key_trans k key j)
