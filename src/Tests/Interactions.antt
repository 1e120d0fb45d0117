-- ===== src/Tests/Interactions.antt =====
-- A transaction that one user opens and decides, and that another asks for.
use zero_auth_lite.Prelude.{ℕ, suc, ◌≡◌, refl, true, none, some, List, [], ◌∷◌, text, text_eq}
use zero_auth_lite.Database.{ok}
use zero_auth_lite.Oauth2.Interactions.{
  InteractiveUser, AuthorizationService, redirect, validated, continue_interaction, decide,
}
use zero_auth_lite.Oauth2.Interactions.Transactions.{
  AuthorizationTransaction, bound_to, consumed_at, consume, bind_to_user,
}
use zero_auth_lite.Oauth2.Interactions.Histories.{
  binds, consumes, step, here, next, UniqueTransactions,
}
use zero_auth_lite.Oauth2.Interactions.SingleUse.{
  IsRefused, transaction_single_use, transaction_bound,
}

-- A service that counts the codes it has issued.
abbrev service : AuthorizationService ℕ Unit
service = record {
  transaction_hash = λ t. 35 ∷ t;
  validate_request = λ input codes. ok (validated tt);
  requires_consent = λ v. true;
  authorize_validated =
      λ user v codes. (ok (redirect (record { url = text "u"; status_code = 302 })), suc codes);
  authorize_code = λ user input decision codes.
      (ok (redirect (record { url = text "u"; status_code = 302 })), suc codes);
}

abbrev transaction : AuthorizationTransaction
transaction = record {
  id = 1;
  transaction_hash = 35 ∷ text "t";
  response_type = text "code";
  client_id = text "c";
  redirect_uri = text "r";
  scope = none;
  state = none;
  nonce = none;
  code_challenge = text "h";
  code_challenge_method = text "S256";
  user_id = none;
  organization_id = none;
  expires_at = 100;
  used_at = none;
}

abbrev ann : InteractiveUser
ann = record { user_id = 1; organization_id = 9 }

abbrev bob : InteractiveUser
bob = record { user_id = 2; organization_id = 9 }

abbrev opened : List AuthorizationTransaction
opened = bound_to 1 9 transaction ∷ []

abbrev closed : List AuthorizationTransaction
closed = consumed_at 20 (bound_to 1 9 transaction) ∷ []

unique : UniqueTransactions (transaction ∷ [])
unique = (refl, tt)

unique_open : UniqueTransactions opened
unique_open = (refl, tt)

binds_ann :
    bind_to_user (35 ∷ text "t") 1 9 10 (transaction ∷ [])
    ≡ (some (bound_to 1 9 transaction), opened)
unfolding bind_to_user text_eq
binds_ann = refl

consumes_ann :
    consume (35 ∷ text "t") 1 9 20 opened
    ≡ (some (consumed_at 20 (bound_to 1 9 transaction)), closed)
unfolding consume text_eq
consumes_ann = refl

-- A decision issues one code.
decides_ann :
    decide service (text "t") (text "allow") ann 20 opened 0
    ≡ (ok (some (record { url = text "u"; status_code = 302 })), (closed, 1))
unfolding decide consume text_eq
decides_ann = refl

continues_ann :
    continue_interaction service (text "t") ann 10 20 (transaction ∷ []) 0
    ≡ (ok (some (redirect (record { url = text "u"; status_code = 302 }))), (closed, 1))
unfolding continue_interaction bind_to_user consume text_eq
continues_ann = refl

transaction_single_use_example :
    IsRefused service
      (text "t")
      (text "allow")
      ann
      30
      31
      (step (binds (35 ∷ text "t") 1 9 25) closed)
      1
transaction_single_use_example =
    transaction_single_use service (text "t") (text "allow") ann 1 9 20 30 31 opened closed
      (step (binds (35 ∷ text "t") 1 9 25) closed) (consumed_at 20 (bound_to 1 9 transaction)) 1
      unique_open consumes_ann (next (binds (35 ∷ text "t") 1 9 25) here)

transaction_bound_example :
    IsRefused service
      (text "t")
      (text "allow")
      bob
      30
      31
      (step (consumes (35 ∷ text "t") 1 9 20) opened)
      0
transaction_bound_example =
    transaction_bound service (text "t") (text "allow") bob 1 9 10 30 31 (transaction ∷ []) opened
      (step (consumes (35 ∷ text "t") 1 9 20) opened) (bound_to 1 9 transaction) 0 unique binds_ann
      (next (consumes (35 ∷ text "t") 1 9 20) here) refl
