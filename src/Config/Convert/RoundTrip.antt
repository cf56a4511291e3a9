-- ===== src/Config/Convert/RoundTrip.antt =====
-- Sequences and sets of values that come back come back.
use uiconnect.Base.{
  ℕ, ◌≡◌, refl, sym, ap, ◌∙◌, Bool, true, false, List, [], ◌∷◌, ◌++◌, append_assoc, append-nil,
}
use uiconnect.Base.Outcome.{ok}
use uiconnect.Config.Convert.{
  Yaml, Converter, nodes_of, sequence_to, values_of, vector_from, vector_converter, insert_with,
  insert_all, set_from, set_converter,
}

-- What a value is converted to converts back; it can be read by YAML, and what is printed for the node
-- converts back too.
abbrev pub ComesBack : {N : Type 0} → Yaml N → {A : Type 0} → Converter A → A → Type 0
ComesBack {N} y c a =
    (text : List ℕ) × (n : N) × (c.to a ≡ ok text)
    × (c.from text ≡ ok a)
    × (y.load text ≡ ok n)
    × (c.from (y.dump n) ≡ ok a)

abbrev pub All : {A : Type 0} → (A → Type 0) → List A → Type 0
All P [] = Unit {0}
All P (a ∷ rest) = P a × All P rest

-- Each value is less than those behind it, and none of them less than it.
abbrev pub IsSorted : {A : Type 0} → (A → A → Bool) → List A → Type 0
IsSorted less [] = Unit {0}
IsSorted less (a ∷ rest) =
    All (λ b. (less a b ≡ true) × (less b a ≡ false)) rest × IsSorted less rest

module _ {N : Type 0} (y : Yaml N) {A : Type 0} (c : Converter A) where
  nodes_back :
      (v : List A)
      → All (ComesBack y c) v
      → (ns : List N) × (nodes_of y c v ≡ ok ns) × (values_of y c ns ≡ ok v)
  unfolding nodes_of values_of
  nodes_back [] h = ([], refl, refl)
  nodes_back (a ∷ rest) ((text, n, to, at_once, load, from), h) =
      let (ns, there, back) = nodes_back rest h in
      (n ∷ ns, rw to (rw load (rw there refl)), rw from (rw back refl))

  vector_back : (v : List A) → All (ComesBack y c) v → ComesBack y (vector_converter y c) v
  unfolding sequence_to vector_from
  vector_back v h =
      let (ns, there, back) = nodes_back v h in
      let from : vector_from y c (y.dump (y.sequence ns)) ≡ ok v =
        rw (y.load-sequence ns) (rw (y.items-sequence ns) back) in
      (y.dump (y.sequence ns), y.sequence ns, rw there refl, from, y.load-sequence ns, from)

module _ {A : Type 0} where
  All-map : (P Q : A → Type 0) → ((a : A) → P a → Q a) → (v : List A) → All P v → All Q v
  All-map P Q f [] h = tt
  All-map P Q f (a ∷ rest) (p, h) = (f a p, All-map P Q f rest h)

  All-snoc : (P : A → Type 0) (v : List A) (a : A) → All P v → P a → All P (v ++ a ∷ [])
  All-snoc P [] a h p = (p, tt)
  All-snoc P (b ∷ rest) a (q, h) p = (q, All-snoc P rest a h p)

module _ {A : Type 0} (less : A → A → Bool) where
  abbrev IsBelow : A → A → Type 0
  IsBelow b a = (less b a ≡ true) × (less a b ≡ false)

  insert_last :
      (a : A) (set : List A) → All (λ b. IsBelow b a) set → insert_with less a set ≡ set ++ a ∷ []
  unfolding insert_with
  insert_last a [] h = refl
  insert_last a (b ∷ rest) ((up, down), h) =
      rw down (rw up (ap (λ t. b ∷ t) (insert_last a rest h)))

  insert_sorted :
      (v set : List A)
      → IsSorted less v
      → All (λ b. All (λ a. IsBelow b a) v) set
      → insert_all less v set ≡ set ++ v
  unfolding insert_all
  insert_sorted [] set s h = sym (append-nil set)
  insert_sorted (a ∷ rest) set (first, s) h =
      let last : insert_with less a set ≡ set ++ a ∷ [] =
        insert_last a set (All-map _ _ (λ b p. p.0) set h) in
      ap (insert_all less rest) last
      ∙ insert_sorted rest (set ++ a ∷ []) s (
          All-snoc (λ b. All (λ a'. IsBelow b a') rest) set a (All-map _ _ (λ b p. p.1) set h)
            first)
      ∙ append_assoc set (a ∷ []) rest

module _ {N : Type 0} (y : Yaml N) {A : Type 0} (c : Converter A) (less : A → A → Bool) where
  set_back :
      (v : List A)
      → All (ComesBack y c) v
      → IsSorted less v
      → ComesBack y (set_converter y c less) v
  unfolding sequence_to set_from
  set_back v h s =
      let (ns, there, back) = nodes_back y c v h in
      let from : set_from y c less (y.dump (y.sequence ns)) ≡ ok v =
        rw (y.load-sequence ns)
          (rw (y.items-sequence ns) (rw back (ap ok (insert_sorted less v [] s tt)))) in
      (y.dump (y.sequence ns), y.sequence ns, rw there refl, from, y.load-sequence ns, from)

-- Where values come back through their converters, so do the vectors and lists of them, and the sets,
-- whose values stand in the set's order; and so on for vectors of vectors and the like. To come back is
-- that the text that a value is converted to is converted back to it, and so is what YAML prints
-- for the node that it reads from that text.
pub vector-set-ComesBack :
    {N : Type 0} (y : Yaml N) {A : Type 0} (c : Converter A) (less : A → A → Bool) (v : List A)
    → All (ComesBack y c) v
    → ComesBack y (vector_converter y c) v
      × (IsSorted less v → ComesBack y (set_converter y c less) v)
vector-set-ComesBack y c less v h = (vector_back y c v h, set_back y c less v h)
