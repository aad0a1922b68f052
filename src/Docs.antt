-- ===== src/Docs.antt =====
-- docs/docs.go: the OpenAPI document that swag generated and /swagger shows. The document is the
-- value of `docTemplate`, read as JSON.
pub mod Definitions
pub mod Accounts
pub mod Money
pub mod Queries
pub mod Users
pub mod Paths
pub mod Answers
pub mod Handlers
pub mod Routes
pub mod Served
pub mod Bodies
pub mod Shapes
use go_bank_ledger.Prelude.{ℕ, String, Bool, List, []}

pub data JsonType : Type 0 where
  string_type boolean_type integer_type any_type : JsonType

-- An object of the section "definitions": its properties by name.
pub record Definition : Type 0 where
  pub name : String
  pub required : List String
  pub properties : List (String × JsonType)

-- `$ref` to a definition, or an array of such.
pub data Schema : Type 0 where
  ref array_of : String → Schema

pub data Place : Type 0 where
  in_path in_query in_body : Place

pub data Holds : Type 0 where
  typed : JsonType → Holds
  shaped : Schema → Holds

pub record Parameter : Type 0 where
  pub name : String
  pub description : String
  pub place : Place
  pub required : Bool
  pub holds : Holds

pub record DocumentedResponse : Type 0 where
  pub status : ℕ
  pub description : String
  pub schema : Schema

-- One method of a path. It is `secured` if it asks for the header of "Bearer".
pub record Operation : Type 0 where
  pub secured : Bool
  pub description : String
  pub consumes : List String
  pub produces : List String
  pub tags : List String
  pub summary : String
  pub parameters : List Parameter
  pub responses : List DocumentedResponse

-- The responses as they recur in the document.
abbrev pub ok_with : Schema → DocumentedResponse
ok_with schema = record { status = 200; description = "OK"; schema = schema }

abbrev pub created_with : Schema → DocumentedResponse
created_with schema = record { status = 201; description = "Created"; schema = schema }

abbrev error_with : ℕ → String → DocumentedResponse
error_with status description = record {
  status = status;
  description = description;
  schema = ref "internal_api.ErrorResponse";
}

abbrev pub bad_request : DocumentedResponse
bad_request = error_with 400 "Bad Request"

abbrev pub unauthorized : DocumentedResponse
unauthorized = error_with 401 "Unauthorized"

abbrev pub forbidden : DocumentedResponse
forbidden = error_with 403 "Forbidden"

abbrev pub not_found : DocumentedResponse
not_found = error_with 404 "Not Found"

abbrev pub conflict : DocumentedResponse
conflict = error_with 409 "Conflict"

abbrev pub internal_server_error : DocumentedResponse
internal_server_error = error_with 500 "Internal Server Error"

-- The document as a whole, with the values of `SwaggerInfo` for its templates.
pub record Spec : Type 0 where
  pub version : String
  pub host : String
  pub base_path : String
  pub schemes : List String
  pub title : String
  pub description : String
  pub instance_name : String
  -- The header of the security definition "Bearer", and what it says of it.
  pub bearer : String × String

abbrev pub swagger_info : Spec
swagger_info = record {
  version = "1.0";
  host = "";
  base_path = "";
  schemes = [];
  title = "Bank Ledger API";
  description = "Production-grade double-entry accounting ledger";
  instance_name = "swagger";
  bearer = ("Authorization", "Type 'Bearer <your_jwt_token>' to authenticate");
}
