-- ===== src/Python/Json.antt =====
-- The values that `json.loads` returns. A file that holds JSON is kept as its value.
pub mod Lookup
use edgesense_ai.Prelude.{
  zero, not, ℕ, String, Bool, true, false, Option, none, some, List, if◌then◌else◌, str_eq, eq_iff,
  arith, ◌≡◌, ◌↔◌, ◌≢◌,
}
use edgesense_ai.Python.Number.{ℤ, pos, Float}

-- `F` is the type of the floats.
mutual
  pub data Json (F : Type 0) : Type 0 where
    null : Json F
    bool : Bool → Json F
    int : ℤ → Json F
    float : F → Json F
    str : String → Json F
    arr : Items F → Json F
    obj : Fields F → Json F

  pub data Items (F : Type 0) : Type 0 where
    nil : Items F
    cons : Json F → Items F → Items F

  pub data Fields (F : Type 0) : Type 0 where
    end : Fields F
    field : String → Json F → Fields F → Fields F

module _ {F : Type 0} where
  -- `d.get(key)`
  abbrev pub get : Fields F → String → Option (Json F)
  get end k = none
  get (field j v d) k = if str_eq j k then some v else get d k

  -- `d[key] = value`
  abbrev pub put : Fields F → String → Json F → Fields F
  put end k v = field k v end
  put (field j w d) k v = if str_eq j k then field j v d else field j w (put d k v)

  -- `key in d`
  abbrev pub has : Fields F → String → Bool
  has d k = elim (get d k) [ none ↦ false | some _ ↦ true ]

  -- `value == text`, for a value that `d.get` returned
  abbrev pub is_text : Option (Json F) → String → Bool
  is_text (some (Json.str s)) t = str_eq s t
  is_text _ t = false

  -- `isinstance(value, dict)`
  abbrev pub as_object : Json F → Option (Fields F)
  as_object (Json.obj d) = some d
  as_object _ = none

-- `hash(value)` raises for a list and for a dict.
abbrev pub is_hashable : {F : Type 0} → Option (Json F) → Bool
is_hashable (some (Json.arr xs)) = false
is_hashable (some (Json.obj d)) = false
is_hashable _ = true

-- `bool(value)`
unfoldable pub truthy_json : {F : Type 0} → Float F → Json F → Bool
truthy_json fl Json.null = false
truthy_json fl (Json.bool b) = b
truthy_json fl (Json.int (pos zero)) = false
truthy_json fl (Json.int i) = true
truthy_json fl (Json.float x) = not (fl.eq x fl.zero)
truthy_json fl (Json.str s) = not (str_eq s "")
truthy_json fl (Json.arr nil) = false
truthy_json fl (Json.arr (cons _ _)) = true
truthy_json fl (Json.obj end) = false
truthy_json fl (Json.obj (field _ _ _)) = true

-- A content of a file: a JSON document, or other bytes.
pub data Content (F : Type 0) : Type 0 where
  document : Json F → Content F
  raw : List ℕ → Content F

pub is_text_iff :
    {F : Type 0} (v : Option (Json F)) (t : String) → (is_text v t ≡ true) ↔ (v ≡ some (Json.str t))
is_text_iff none t = ((λ h. cc), (λ h. cc))
is_text_iff (some (Json.str s)) t =
    ((λ h. ground (arith, eq_iff s t)), (λ h. ground (arith, eq_iff s t)))
is_text_iff (some Json.null) t = ((λ h. cc), (λ h. cc))
is_text_iff (some (Json.bool b)) t = ((λ h. cc), (λ h. cc))
is_text_iff (some (Json.int i)) t = ((λ h. cc), (λ h. cc))
is_text_iff (some (Json.float x)) t = ((λ h. cc), (λ h. cc))
is_text_iff (some (Json.arr xs)) t = ((λ h. cc), (λ h. cc))
is_text_iff (some (Json.obj d)) t = ((λ h. cc), (λ h. cc))

pub is_text_ne :
    {F : Type 0} (v : Option (Json F)) (t : String) → v ≢ some (Json.str t) → is_text v t ≡ false
is_text_ne v t h = ground (arith, is_text_iff v t)
