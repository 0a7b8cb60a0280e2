-- ===== src/Examples/Schemas.antt =====
-- Goal schemas, at concrete inputs.
use kutsu.Base.{◌≡◌, refl, some, Option}
use kutsu.Base.Bytes.{Bytes}
use kutsu.Disposition.{ascii}
use kutsu.Schema.Json.{Value, Items, Members, string, array, object, nil, item, end, member, get}
use kutsu.Schema.{setup_schema}
use kutsu.Schema.Clean.{IsClean, setup_schema-IsClean}
use kutsu.Schema.Setup.{IsSetUp, setup_schema-IsSetUp}

-- A goal with a field `examples`, an optional text.
abbrev asked : Members
asked =
    member (ascii "examples")
      (object (
        member (ascii "type")
          (array (item (string (ascii "string")) (item (string (ascii "null")) nil))) end))
      end

abbrev wanted : Items
wanted = item (string (ascii "examples")) nil

abbrev goal : Members
goal = member (ascii "properties") (object asked) (member (ascii "required") (array wanted) end)

-- Every text parses to that goal.
abbrev from_text : Bytes → Option Value
from_text _ = some (object goal)

setup_schema-IsClean_example : IsClean (setup_schema from_text (string (ascii "{}")))
setup_schema-IsClean_example = setup_schema-IsClean from_text (string (ascii "{}"))

setup_schema-IsSetUp_example :
    (m' : Members) × (setup_schema from_text (object goal) ≡ object m') × IsSetUp asked wanted m'
unfolding get
setup_schema-IsSetUp_example = setup_schema-IsSetUp from_text goal asked wanted refl refl
