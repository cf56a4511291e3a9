-- ===== src/Http/Names/Methods.antt =====
-- Methods and their names.
use uiconnect.Base.{
  ℕ, zero, suc, ◌+◌, ◌≡◌, refl, sym, ap, ◌∙◌, some, List, [], ◌∷◌, ◌++◌, get_elem?, arith,
}
use uiconnect.Http.Names.{method_names, to_method, method_from}
use uiconnect.Buffer.{is_prefix}

-- Each name, whatever stands behind it, is read as its place.
abbrev Read : ℕ → List (List ℕ) → Type 0
Read num [] = Unit {0}
Read num (name ∷ names) = ((rest : List ℕ) → to_method (name ++ rest) ≡ num) × Read (suc num) names

Read-get_elem? :
    (names : List (List ℕ)) (num i : ℕ) (name rest : List ℕ)
    → Read num names
    → get_elem? names i ≡ some name
    → to_method (name ++ rest) ≡ num + i
Read-get_elem? [] num i name rest r e = cc
Read-get_elem? (x ∷ xs) num zero name rest (r, rs) e =
    let same : x ≡ name = cc in ap (λ t. to_method (t ++ rest)) (sym same) ∙ r rest ∙ omega arith
Read-get_elem? (x ∷ xs) num (suc i) name rest (r, rs) e =
    Read-get_elem? xs (suc num) i name rest rs e ∙ omega arith

all-Read : Read 0 method_names
unfolding to_method method_from is_prefix
all-Read = (
  λ r. refl,
  (
    λ r. refl,
    (
      λ r. refl,
      (
        λ r. refl,
        (
          λ r. refl,
          (
            λ r. refl,
            (
              λ r. refl,
              (
                λ r. refl,
                (
                  λ r. refl,
                  (
                    λ r. refl,
                    (
                      λ r. refl,
                      (
                        λ r. refl,
                        (
                          λ r. refl,
                          (
                            λ r. refl,
                            (
                              λ r. refl,
                              (
                                λ r. refl,
                                (
                                  λ r. refl,
                                  (
                                    λ r. refl,
                                    (
                                      λ r. refl,
                                      (
                                        λ r. refl,
                                        (
                                          λ r. refl,
                                          (
                                            λ r. refl,
                                            (
                                              λ r. refl,
                                              (
                                                λ r. refl,
                                                (
                                                  λ r. refl,
                                                  (
                                                    λ r. refl,
                                                    (
                                                      λ r. refl,
                                                      (
                                                        λ r. refl,
                                                        (
                                                          λ r. refl,
                                                          (
                                                            λ r. refl,
                                                            (
                                                            λ r. refl,
                                                            (
                                                            λ r. refl,
                                                            (λ r. refl, (λ r. refl, tt)),
                                                            ),
                                                            ),
                                                          ),
                                                        ),
                                                      ),
                                                    ),
                                                  ),
                                                ),
                                              ),
                                            ),
                                          ),
                                        ),
                                      ),
                                    ),
                                  ),
                                ),
                              ),
                            ),
                          ),
                        ),
                      ),
                    ),
                  ),
                ),
              ),
            ),
          ),
        ),
      ),
    ),
  ),
)

-- A text that begins with the name of a method is read as that method.
pub to_method_lem :
    (method : ℕ) (name rest : List ℕ)
    → get_elem? method_names method ≡ some name
    → to_method (name ++ rest) ≡ method
to_method_lem method name rest e =
    Read-get_elem? method_names 0 method name rest all-Read e ∙ omega arith
