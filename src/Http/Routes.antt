-- ===== src/Http/Routes.antt =====
-- Where HttpDispatcher::dispatch sends a path after HttpDispatcher::regist.
use uiconnect.Base.{
  ℕ, ◌≡◌, refl, ap, ◌∙◌, Bool, true, false, some, List, [], ◌∷◌, if◌then◌else◌, arith,
}
use uiconnect.Base.Text.{equal_text, equal_text_self, equal_text-eq}
use uiconnect.Http.Response.{HttpResponse}
use uiconnect.Http.Dispatcher.{HttpDispatcher, find_path, set_path, regist, handled, dispatch}

find_path-set_path :
    (str q : List ℕ) (hp : ℕ) (ps : List (List ℕ × ℕ))
    → find_path q (set_path str hp ps) ≡ (if equal_text str q then some hp else find_path q ps)
unfolding find_path set_path
find_path-set_path str q hp [] = refl
find_path-set_path str q hp ((p, old) ∷ rest) = ground (
  arith,
  find_path-set_path str q hp rest,
  equal_text-eq p str,
  equal_text-eq str q,
  equal_text_self p,
  equal_text_self q,
)

processors-regist :
    (d : HttpDispatcher) (str : List ℕ) (hp : ℕ) (fuzzy : Bool)
    → (regist d str hp fuzzy).processors ≡ set_path str hp d.processors
unfolding regist
processors-regist d str hp true = refl
processors-regist d str hp false = refl

-- A path with a processor of its own goes there, whatever patterns match it.
dispatch_own :
    (regex_match : List ℕ → List ℕ → Bool) (server value message : List ℕ) (d : HttpDispatcher)
    (q : List ℕ) (hp : ℕ) (res : HttpResponse)
    → find_path q d.processors ≡ some hp
    → dispatch regex_match server value message d q res ≡ handled hp
unfolding dispatch
dispatch_own regex_match server value message d q hp res e = rw (dispatch, e) refl

-- A path that is registered goes to the processor registered last, whatever patterns match it, and
-- any other path that had a processor of its own keeps it.
pub dispatch-regist :
    (regex_match : List ℕ → List ℕ → Bool) (server value message : List ℕ) (d : HttpDispatcher)
    (str q : List ℕ) (hp other : ℕ) (fuzzy : Bool) (res : HttpResponse)
    → (dispatch regex_match server value message (regist d str hp fuzzy) str res ≡ handled hp)
      × (equal_text str q ≡ false
          → find_path q d.processors ≡ some other
          → dispatch regex_match server value message (regist d str hp fuzzy) q res ≡ handled other)
dispatch-regist regex_match server value message d str q hp other fuzzy res =
    let after : (k : List ℕ)
        → find_path k (regist d str hp fuzzy).processors
          ≡ (if equal_text str k then some hp else find_path k d.processors) =
      λ k.
        ap (find_path k) (processors-regist d str hp fuzzy)
        ∙ find_path-set_path str k hp d.processors in
    let mine = dispatch_own regex_match server value message (regist d str hp fuzzy) in
    (
      mine str hp res (after str ∙ rw (equal_text_self str) refl),
      λ apart own. mine q other res (after q ∙ rw apart own),
    )
