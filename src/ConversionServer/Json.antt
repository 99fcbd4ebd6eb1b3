-- ===== src/ConversionServer/Json.antt =====
-- The values that `encoding/json` decodes an object into, an `interface{}` each, and what type
-- assertions make of them.
use resourcelimiter.Prelude.{String, Bool, ◌==◌, if◌then◌else◌}

mutual
  pub data Value : Type 0 where
    null : Value
    boolean : Bool → Value
    number : String → Value
    text : String → Value
    array : Items → Value
    object : Fields → Value

  pub data Items : Type 0 where
    done : Items
    item : Value → Items → Items

  pub data Fields : Type 0 where
    end : Fields
    field : String → Value → Fields → Fields

-- `fields[name]`, which is nil if the key is missing.
unfoldable pub value_at : String → Fields → Value
value_at name end = null
value_at name (field key held fields) = if name == key then held else value_at name fields

-- A part of the conversion: it goes on with a value, returns early, or panics.
pub data Attempt (Response A : Type 0) : Type 0 where
  panicked : Attempt Response A
  returned : Response → Attempt Response A
  value : A → Attempt Response A

infixl 5 ◌>>=◌
abbrev pub ◌>>=◌ :
    {Response A B : Type 0} → Attempt Response A → (A → Attempt Response B) → Attempt Response B
panicked >>= f = panicked
returned r >>= f = returned r
value a >>= f = f a

-- The type assertions `v.(bool)`, `v.(string)`, `v.([]interface{})` and
-- `v.(map[string]interface{})`; nil has no type and fails each.
module _ {Response : Type 0} where
  abbrev pub as_bool : Value → Attempt Response Bool
  as_bool (boolean b) = value b
  as_bool _ = panicked

  abbrev pub as_string : Value → Attempt Response String
  as_string (text s) = value s
  as_string _ = panicked

  abbrev pub as_array : Value → Attempt Response Items
  as_array (array items) = value items
  as_array _ = panicked

  abbrev pub as_object : Value → Attempt Response Fields
  as_object (object fields) = value fields
  as_object _ = panicked
