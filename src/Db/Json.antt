-- ===== src/Db/Json.antt =====
-- serde_json::Value as the code uses it: host labels and placement constraints.
-- Numbers are integers: no label of the program is compared as a floating point number.
use spwn.Base.{String, ◌==◌, Bool, true, false, ◌&&◌, Option, none, some, if◌then◌else◌}
use spwn.Base.Int.{ℤ, pos_part, neg_part}
use spwn.Base.{eqb, ◌+◌}

mutual
  pub data Json : Type 0 where
    null : Json
    bool : Bool → Json
    num : ℤ → Json
    str : String → Json
    arr : Items → Json
    obj : Fields → Json

  pub data Items : Type 0 where
    nil : Items
    cons : Json → Items → Items

  pub data Fields : Type 0 where
    end : Fields
    field : String → Json → Fields → Fields

abbrev bool_eq : Bool → Bool → Bool
bool_eq true b = b
bool_eq false true = false
bool_eq false false = true

-- `==` on values. Objects are kept in key order, so equal objects have equal lists of fields.
unfoldable mutual
  pub json_eq : Json → Json → Bool
  json_eq null null = true
  json_eq (bool a) (bool b) = bool_eq a b
  json_eq (num a) (num b) = eqb (pos_part a + neg_part b) (pos_part b + neg_part a)
  json_eq (str a) (str b) = a == b
  json_eq (arr a) (arr b) = items_eq a b
  json_eq (obj a) (obj b) = fields_eq a b
  json_eq _ _ = false

  pub items_eq : Items → Items → Bool
  items_eq nil nil = true
  items_eq (cons a as') (cons b bs) = json_eq a b && items_eq as' bs
  items_eq _ _ = false

  pub fields_eq : Fields → Fields → Bool
  fields_eq end end = true
  fields_eq (field j a as') (field k b bs) = (j == k) && (json_eq a b && fields_eq as' bs)
  fields_eq _ _ = false

-- Map::get
unfoldable pub get : String → Fields → Option Json
get k end = none
get k (field j v m) = if j == k then some v else get k m

-- Map::insert: replaces the value of a key, or adds the key.
unfoldable pub insert : String → Json → Fields → Fields
insert k v end = field k v end
insert k v (field j w m) = if j == k then field k v m else field j w (insert k v m)

-- Value::as_object
unfoldable pub as_object : Json → Option Fields
as_object (obj m) = some m
as_object _ = none

-- Value::as_str
unfoldable pub as_str : Json → Option String
as_str (str s) = some s
as_str _ = none
