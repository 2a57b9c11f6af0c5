-- ===== src/Common/Values.antt =====
-- JSON values as the runtime reads them: `JSON.parse` gives one, and the code looks into it with
-- `.`, `?.`, `??` and templates. A number is the text that `String` gives for it.
use mathlib.Core.Path.{◌≡◌}
use mathlib.Core.Logic.{◌↔◌}
use native.Mathlib.Omega.{arith}
use mathlib.Core.Bool.{Bool, true, false, ◌&&◌, ◌||◌}
use mathlib.Core.Option.{Option, none, some}
use mathlib.Core.List.{List, [], ◌∷◌, ◌++◌}
use open_agent_lock.Common.Tests.{if◌then◌else◌, is_none}
use open_agent_lock.Common.Texts.{Text, codes, text_eq, text_eq_iff}
use open_agent_lock.Common.Results.{Result, ok, err}

mutual
  pub data Json : Type 0 where
    null : Json
    bool : Bool → Json
    num : Text → Json
    str : Text → Json
    arr : Elems → Json
    obj : Fields → Json

  pub data Elems : Type 0 where
    nil : Elems
    cons : Json → Elems → Elems

  pub data Fields : Type 0 where
    end : Fields
    field : Text → Json → Fields → Fields

abbrev pub elem_list : Elems → List Json
elem_list nil = []
elem_list (cons v vs) = v ∷ elem_list vs

-- `none` is `undefined`. An object that was parsed has each key once.
abbrev pub own : Text → Fields → Option Json
own k end = none
own k (field j v fs) = if text_eq j k then some v else own k fs

pub data JsError : Type 0 where
  type_error : JsError

-- `v.k`, where the objects and arrays at hand inherit no property of this name.
unfoldable pub member : Text → Json → Result JsError (Option Json)
member k null = err type_error
member k (obj fs) = ok (own k fs)
member k (bool b) = ok none
member k (num n) = ok none
member k (str s) = ok none
member k (arr vs) = ok none

-- `v?.k`
unfoldable pub optional_member : Text → Option Json → Option Json
optional_member k none = none
optional_member k (some (obj fs)) = own k fs
optional_member k (some v) = none

-- What `??` takes for present: neither `undefined` nor `null`.
abbrev pub present : Option Json → Option Json
present none = none
present (some null) = none
present (some v) = some v

-- What `join` writes for an element whose `String` is `t`.
element : Json → Text → Text
element null t = []
element v t = t

unfoldable mutual
  unfolding element

  -- The text of `String(v)`, for a value that has one.
  pub string_text : Json → Text
  string_text null = codes "null"
  string_text (bool true) = codes "true"
  string_text (bool false) = codes "false"
  string_text (num n) = n
  string_text (str s) = s
  string_text (arr vs) = join_elems vs
  string_text (obj fs) = codes "[object Object]"

  -- `vs.join(",")`, which writes nothing for `null`.
  join_elems : Elems → Text
  join_elems nil = []
  join_elems (cons v nil) = element v (string_text v)
  join_elems (cons v (cons w vs)) = element v (string_text v) ++ b',' ∷ join_elems (cons w vs)

-- `String` calls `toString` of the value and throws if the value has a property of this name,
-- which is no function; a list converts its elements.
unfoldable mutual
  pub has_string : Json → Bool
  has_string null = true
  has_string (bool b) = true
  has_string (num n) = true
  has_string (str s) = true
  has_string (arr vs) = elems_have_string vs
  has_string (obj fs) = is_none (own (codes "toString") fs)

  elems_have_string : Elems → Bool
  elems_have_string nil = true
  elems_have_string (cons v vs) = has_string v && elems_have_string vs

-- `String(v)`, and `${v}` in a template.
unfoldable pub js_string : Json → Result JsError Text
unfolding string_text has_string
js_string v = if has_string v then ok (string_text v) else err type_error

-- `!value`, for a value that is there
abbrev pub is_falsy : Json → Bool
is_falsy null = true
is_falsy (bool true) = false
is_falsy (bool false) = true
is_falsy (num n) = text_eq n (codes "0") || text_eq n (codes "NaN")
is_falsy (str []) = true
is_falsy (str (c ∷ s)) = false
is_falsy (arr vs) = false
is_falsy (obj fs) = false

-- `v === "t"`
unfoldable pub is_str : Text → Option Json → Bool
is_str t none = false
is_str t (some (str s)) = text_eq s t
is_str t (some v) = false

pub is_str_iff : (t : Text) (o : Option Json) → (is_str t o ≡ true) ↔ (o ≡ some (str t))
unfolding is_str
is_str_iff t none = ground arith
is_str_iff t (some (str s)) = ground (arith, text_eq_iff s t)
is_str_iff t (some null) = ground arith
is_str_iff t (some (bool b)) = ground arith
is_str_iff t (some (num n)) = ground arith
is_str_iff t (some (arr vs)) = ground arith
is_str_iff t (some (obj fs)) = ground arith
