-- ===== src/Docs/Shapes.antt =====
-- The bodies that the server writes and the objects that docs/docs.go documents for them.
use go_bank_ledger.Prelude.{
  String, ◌+++◌, str_eq, ◌≡◌, Bool, true, false, ◌&&◌, ◌||◌, Option, none, some, List, [], ◌∷◌,
  if◌then◌else◌,
}
use go_bank_ledger.Sqlc.Sorting.{All}
use go_bank_ledger.Runtime.{Runtime}
use go_bank_ledger.Api.Http.{Payload, Web, Response}
use go_bank_ledger.Docs.{
  JsonType, string_type, boolean_type, any_type, Definition, Schema, ref, array_of, Operation,
}
use go_bank_ledger.Docs.Definitions.{object_definitions}
use go_bank_ledger.Docs.Answers.{documents}
use go_bank_ledger.Docs.Bodies.{Value, text, moment, boolean, Object, Body, one, many, body_of}

abbrev has_type : JsonType → Value → Bool
has_type string_type (text s) = true
has_type string_type (moment t) = true
has_type boolean_type (boolean b) = true
has_type any_type v = true
has_type _ _ = false

-- The field is a property of the object, of the property's type.
abbrev is_property : List (String × JsonType) → String × Value → Bool
is_property [] f = false
is_property ((name, type) ∷ rest) f = (str_eq name f.0 && has_type type f.1) || is_property rest f

abbrev are_properties : List (String × JsonType) → Object → Bool
are_properties properties [] = true
are_properties properties (f ∷ fs) = is_property properties f && are_properties properties fs

abbrev has_field : String → Object → Bool
has_field name [] = false
has_field name (f ∷ fs) = str_eq f.0 name || has_field name fs

-- No field stands twice.
abbrev distinct_fields : Object → Bool
distinct_fields [] = true
distinct_fields (f ∷ fs) = if has_field f.0 fs then false else distinct_fields fs

-- What may be left out, as the document does not say: a missing owner and an empty description.
abbrev may_lack : String → Bool
may_lack name = str_eq name "owner_id" || str_eq name "description"

abbrev has_all : List (String × JsonType) → Object → Bool
has_all [] o = true
has_all ((name, type) ∷ rest) o = (has_field name o || may_lack name) && has_all rest o

-- An object as documented.
abbrev pub matches : Object → Definition → Bool
matches o d = are_properties d.properties o && (distinct_fields o && has_all d.properties o)

abbrev definition_in : String → List Definition → Option Definition
definition_in name [] = none
definition_in name (d ∷ ds) =
    if str_eq ("internal_api." +++ d.name) name then some d else definition_in name ds

-- An object as the document has it under the name.
pub record Named (name : String) (o : Object) : Type 0 where
  pub definition : Definition
  pub found : definition_in name object_definitions ≡ some definition
  pub matched : matches o definition ≡ true

-- A body under a schema.
abbrev pub Conforms : Schema → Body → Type 0
Conforms (ref name) (one o) = Named name o
Conforms (array_of name) (many os) = All (Named name) os
Conforms _ _ = ⊥

-- The status of a response is listed for the operation with a schema, and its body is the text of a
-- value that has the shape which the document gives to the schema.
pub record Shaped (op : Operation) (web : Web) (response : Response) : Type 0 where
  pub payload : Payload
  pub text : response.body ≡ web.encode payload
  pub schema : Schema
  pub listed : documents op.responses response.status schema ≡ true
  pub conforms : Conforms schema (body_of payload)
