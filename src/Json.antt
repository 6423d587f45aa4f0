-- ===== src/Json.antt =====
-- The values that Python's `json.loads` gives, and how the code reads them.
use free_lunch.Prelude.{
  String, Bool, true, false, not, ◌≡◌, refl, arith, eq_iff, Option, none, some, List, [], ◌∷◌,
  str_eq, if◌then◌else◌, is_some, or_else, ◌==◌,
}
use free_lunch.Prelude.Int.{ℤ, pos, negsuc}

mutual
  pub data Json : Type 0 where
    null : Json
    flag : Bool → Json
    whole : ℤ → Json
    -- a float: whether it is not zero, and its spelling
    fraction : Bool → String → Json
    text : String → Json
    list : Items → Json
    object : Fields → Json

  pub data Items : Type 0 where
    no_items : Items
    item : Json → Items → Items

  pub data Fields : Type 0 where
    no_fields : Fields
    field : String → Json → Fields → Fields

-- `d.get(k)`; a key is listed once.
abbrev pub get : String → Fields → Option Json
get k no_fields = none
get k (field j v d) = let rest = get k d in if str_eq j k then some v else rest

-- The same, with None for a missing key.
abbrev pub value_of : String → Fields → Json
value_of k d = or_else (get k d) null

abbrev pub has_key : String → Fields → Bool
has_key k d = is_some (get k d)

abbrev pub is_nonzero : ℤ → Bool
is_nonzero (pos n) = not (n == 0)
is_nonzero (negsuc n) = true

-- `bool(value)`
abbrev pub truth : Json → Bool
truth null = false
truth (flag b) = b
truth (whole z) = is_nonzero z
truth (fraction b s) = b
truth (text s) = not (str_eq s "")
truth (list xs) = elim xs [ no_items ↦ false | item x ys ↦ true ]
truth (object d) = elim d [ no_fields ↦ false | field k v e ↦ true ]

-- `if value:` on what `get` gives
abbrev pub is_true : Option Json → Bool
is_true none = false
is_true (some v) = truth v

-- A value that is missing or None.
abbrev pub is_null : Option Json → Bool
is_null none = true
is_null (some v) = elim v [ null ↦ true | _ ↦ false ]

abbrev pub to_list : Items → List Json
to_list no_items = []
to_list (item v vs) = v ∷ to_list vs

-- `d[k] = v`
abbrev pub set_field : String → Json → Fields → Fields
set_field k v no_fields = field k v no_fields
set_field k v (field j w d) =
    let rest = set_field k v d in if str_eq j k then field j v d else field j w rest

pub get-set_field :
    (k j : String) (v : Json) (d : Fields)
    → get j (set_field k v d) ≡ (if str_eq k j then some v else get j d)
get-set_field k j v no_fields = refl
get-set_field k j v (field i w d) =
    ground (arith, eq_iff k j, eq_iff i k, eq_iff i j, get-set_field k j v d)
