-- ===== src/Docs/Users.antt =====
-- The document in docs/docs.go: registration and login.
use go_bank_ledger.Prelude.{true, false, [], ◌∷◌}
use go_bank_ledger.Docs.{
  Operation, ok_with, created_with, bad_request, unauthorized, conflict, internal_server_error, ref,
  shaped, in_body,
}

abbrev pub login_doc : Operation
login_doc = record {
  secured = false;
  description = "Authenticates user with email/password and returns JWT token";
  consumes = "application/json" ∷ [];
  produces = "application/json" ∷ [];
  tags = "auth" ∷ [];
  summary = "Login user";
  parameters =
      record {
        name = "body";
        description = "User login details";
        place = in_body;
        required = true;
        holds = shaped (ref "internal_api.AuthRequest");
      }
      ∷ [];
  responses =
      ok_with (ref "internal_api.TokenResponse")
      ∷ bad_request
      ∷ unauthorized
      ∷ internal_server_error
      ∷ [];
}

abbrev pub register_doc : Operation
register_doc = record {
  secured = false;
  description =
      "Creates a new user with email and hashed password, returns user details and JWT token";
  consumes = "application/json" ∷ [];
  produces = "application/json" ∷ [];
  tags = "auth" ∷ [];
  summary = "Register a new user";
  parameters =
      record {
        name = "body";
        description = "User registration details";
        place = in_body;
        required = true;
        holds = shaped (ref "internal_api.AuthRequest");
      }
      ∷ [];
  responses =
      created_with (ref "internal_api.RegisterResponse")
      ∷ bad_request
      ∷ conflict
      ∷ internal_server_error
      ∷ [];
}
