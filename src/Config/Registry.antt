-- ===== src/Config/Registry.antt =====
-- Items that are added to the registry and found in it.
use uiconnect.Base.{
  ℕ, suc, ◌^◌, ◌<◌, ◌≡◌, refl, ap, ◌∙◌, Bool, true, false, Option, none, some, List, [], ◌∷◌, ◌++◌,
  ltb, ◌==◌, ==_refl, arith,
}
use uiconnect.Base.Text.{equal_text}
use uiconnect.Base.Assoc.{find, put, find-put, find-put_other}
use uiconnect.Base.Outcome.{ok}
use mathlib.Core.Path.{subst}
use uiconnect.Config.{
  Node, is_node_name_valid, ConfigItem, ConfigItemMap, new_item, cast, search_item, or_add,
  search_or_add, put_callback, erase_callback, call_all, add_listener, del_listener, set_value,
}

module _ {V : Type 0} (m : ConfigItemMap V) where
  -- A valid name that is not there is added with its default value, and is then found by its type and
  -- by no other; a second SearchOrAdd gives the item that is there, whatever its default value, or
  -- nothing for another type; and other names keep their items.
  pub search_or_add_new :
      (kind other : ℕ) (name text : List ℕ) (default_value second : V) (description : List ℕ)
      → find name m ≡ none
      → is_node_name_valid name ≡ true
      → (kind == other) ≡ false
      → equal_text name text ≡ false
      → (let item = new_item name kind default_value description in
          (m' : ConfigItemMap V) × (search_or_add kind name default_value description m
            ≡ ok (some item, m'))
          × (search_item kind name m' ≡ some item)
          × (search_item other name m' ≡ none)
          × (search_or_add kind name second description m' ≡ ok (some item, m'))
          × (search_or_add other name second description m' ≡ ok (none, m'))
          × (search_item kind text m' ≡ search_item kind text m))
  unfolding search_or_add or_add search_item cast new_item
  search_or_add_new kind other name text default_value second description missing valid differs
        apart =
      let item = new_item name kind default_value description in
      let m' = put name item m in
      let there : find name m' ≡ some item = find-put name item m in
      (
        m',
        rw missing (rw valid refl),
        rw there (rw (==_refl kind) refl),
        rw there (rw differs refl),
        rw there (rw (==_refl kind) refl),
        rw there (rw differs refl),
        ap (cast kind) (find-put_other text name item m apart),
      )

-- the keys of listeners are below `n`
abbrev pub IsBelow : ℕ → List (ℕ × ℕ) → Type 0
IsBelow n [] = Unit {0}
IsBelow n ((key, cb) ∷ rest) = (key < n) × IsBelow n rest

put_last :
    (id cb : ℕ) (cbs : List (ℕ × ℕ))
    → IsBelow id cbs
    → put_callback id cb cbs ≡ cbs ++ (id, cb) ∷ []
unfolding put_callback
put_last id cb [] b = refl
put_last id cb ((key, old) ∷ rest) (lt, more) =
    let e : (key == id) ≡ false = ground arith in
    let d : ltb id key ≡ false = ground arith in
    rw e (rw d (ap (λ t. (key, old) ∷ t) (put_last id cb rest more)))

erase_last :
    (id cb : ℕ) (cbs : List (ℕ × ℕ))
    → IsBelow id cbs
    → erase_callback id (cbs ++ (id, cb) ∷ []) ≡ cbs
unfolding erase_callback
erase_last id cb [] b = rw (==_refl id) refl
erase_last id cb ((key, old) ∷ rest) (lt, more) =
    let e : (key == id) ≡ false = ground arith in
    rw e (ap (λ t. (key, old) ∷ t) (erase_last id cb rest more))

module _ {V : Type 0} where
  call_all-append :
      (old new : V) (xs ys : List (ℕ × ℕ))
      → call_all old new (xs ++ ys) ≡ call_all old new xs ++ call_all old new ys
  unfolding call_all
  call_all-append old new [] ys = refl
  call_all-append old new ((id, cb) ∷ rest) ys =
      ap (λ t. (cb, old, new) ∷ t) (call_all-append old new rest ys)

  -- A listener that is added, while fewer than 2 ^ 64 - 1 have been, is called by the next change of
  -- the value behind those that were there, with the old value and the new one; and delListener with
  -- the number that addListener gave leaves the item as it was before.
  pub listener_lem :
      (equal : V → V → Bool) (convert : ℕ → List ℕ → Option V) (emit : Node → List ℕ)
      (cb last_id : ℕ) (v : V) (item : ConfigItem V)
      → IsBelow (suc last_id) item.callbacks
      → suc last_id < 2 ^ 64
      → equal v item.val ≡ false
      → (let r = add_listener cb last_id item in
          ((set_value equal convert emit v r.1).calls
            ≡ item.calls ++ (call_all item.val v item.callbacks ++ (cb, item.val, v) ∷ []))
          × (del_listener r.0 r.1 ≡ item))
  unfolding add_listener del_listener set_value call_all
  listener_lem equal convert emit cb last_id v item below few differs =
      let P : ℕ → Type 0 = λ id.
        let r = record item { callbacks = put_callback id cb item.callbacks } in
        ((set_value equal convert emit v r).calls
          ≡ item.calls ++ (call_all item.val v item.callbacks ++ (cb, item.val, v) ∷ []))
        × (del_listener id r ≡ item) in
      let id = suc last_id in
      let put = put_last id cb item.callbacks below in
      subst P (omega arith) (
        rw differs (
            ap (λ t. item.calls ++ t)
              (ap (call_all item.val v) put
                ∙ call_all-append item.val v item.callbacks ((id, cb) ∷ []))),
        ap (λ cs. record item { callbacks = cs })
            (ap (erase_callback id) put ∙ erase_last id cb item.callbacks below),
      )
