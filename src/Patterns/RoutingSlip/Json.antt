-- ===== src/Patterns/RoutingSlip/Json.antt =====
-- patterns/routingslip.py: the JSON that a slip is written as. `json.dumps` and `json.loads` are a
-- parameter: texts for values.
use acemq_python_amqp.Prelude.{String, Bool, true, false, Option, if◌then◌else◌, str_eq}

mutual
  pub data Json : Type 0 where
    null : Json
    boolean : Bool → Json
    -- A number, by the text that Python writes for it, and whether it is 0.
    number : Bool → String → Json
    text : String → Json
    array : Items → Json
    object : Fields → Json

  pub data Items : Type 0 where
    nil : Items
    cons : Json → Items → Items

  pub data Fields : Type 0 where
    empty : Fields
    field : String → Json → Fields → Fields

-- Python's `json` and `str`; `none` is the ValueError of `loads`.
pub record JsonText : Type 0 where
  pub dumps : Json → String
  pub loads : String → Option Json
  pub str : Json → String

-- `raw.get(key)`. Keys are distinct.
unfoldable pub field_of : String → Fields → Json
field_of key empty = null
field_of key (field name value rest) =
    let found = field_of key rest in if str_eq key name then value else found

-- `str(raw.get(key) or "")`
unfoldable pub text_or_empty : JsonText → Json → String
text_or_empty j null = ""
text_or_empty j (boolean b) = if b then j.str (boolean true) else ""
text_or_empty j (number is_zero s) = if is_zero then "" else j.str (number false s)
text_or_empty j (text s) = s
text_or_empty j (array nil) = ""
text_or_empty j (array (cons v vs)) = j.str (array (cons v vs))
text_or_empty j (object empty) = ""
text_or_empty j (object (field k v fs)) = j.str (object (field k v fs))
