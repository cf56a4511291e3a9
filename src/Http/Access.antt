-- ===== src/Http/Access.antt =====
-- The three maps of HttpRequest through its methods.
use uiconnect.Base.{
  ℕ, ◌≡◌, refl, ap, ◌∙◌, List, Option, none, some, Bool, true, false, if◌then◌else◌,
}
use uiconnect.Http.{MapType, same_key, find, assign, erase, find_or}
use uiconnect.Http.Fields.{find-assign, find-erase}
use uiconnect.Http.Request.{
  HttpRequest, get_header, get_param, get_cookie, set_header, set_param, set_cookie, del_header,
  del_param, del_cookie,
}

abbrev or_default : List ℕ → Option (List ℕ) → List ℕ
or_default default_val o = elim o [ none ↦ default_val | some v ↦ v ]

or_default-if :
    (default_val : List ℕ) (c : Bool) (o p : Option (List ℕ))
    → or_default default_val (if c then o else p)
      ≡ (if c then or_default default_val o else or_default default_val p)
or_default-if d true o p = refl
or_default-if d false o p = refl

find_or-assign :
    (key val k d : List ℕ) (m : MapType)
    → find_or k d (assign key val m) ≡ (if same_key k key then val else find_or k d m)
unfolding find_or
find_or-assign key val k d m =
    ap (or_default d) (find-assign key val k m)
    ∙ or_default-if d (same_key k key) (some val) (find k m)

find_or-erase :
    (key k d : List ℕ) (m : MapType)
    → find_or k d (erase key m) ≡ (if same_key k key then d else find_or k d m)
unfolding find_or
find_or-erase key k d m =
    ap (or_default d) (find-erase key k m) ∙ or_default-if d (same_key k key) none (find k m)

-- After setHeader, setParam or setCookie a key that is the same but for its case gets the value
-- set, and another one what it got before.
pub get-set :
    (r : HttpRequest) (key val k d : List ℕ)
    → (get_header (set_header r key val) k d ≡ (if same_key k key then val else get_header r k d))
      × (get_param (set_param r key val) k d ≡ (if same_key k key then val else get_param r k d))
      × (get_cookie (set_cookie r key val) k d ≡ (if same_key k key then val else get_cookie r k d))
unfolding get_header get_param get_cookie set_header set_param set_cookie
get-set r key val k d = (
  find_or-assign key val k d r.headers,
  find_or-assign key val k d r.params,
  find_or-assign key val k d r.cookies,
)

-- After delHeader, delParam or delCookie a key that is the same but for its case gets the default
-- value, and another one what it got before.
pub get-del :
    (r : HttpRequest) (key k d : List ℕ)
    → (get_header (del_header r key) k d ≡ (if same_key k key then d else get_header r k d))
      × (get_param (del_param r key) k d ≡ (if same_key k key then d else get_param r k d))
      × (get_cookie (del_cookie r key) k d ≡ (if same_key k key then d else get_cookie r k d))
unfolding get_header get_param get_cookie del_header del_param del_cookie
get-del r key k d = (
  find_or-erase key k d r.headers,
  find_or-erase key k d r.params,
  find_or-erase key k d r.cookies,
)
