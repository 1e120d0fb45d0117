-- ===== src/Oauth2/Interactions/Transactions.antt =====
-- `AuthorizationTransactionService` of `app/oauth2/authorization/transaction.py`, and its table.
use zero_auth_lite.Prelude.{
  ℕ, Bool, not, ◌&&◌, ◌||◌, Option, none, some, List, ◌∷◌, Text, text_eq, leb, ◌==◌, if◌then◌else◌,
  is_null, is_not_null, holds,
}
use zero_auth_lite.Table.{find_where, update_where}

-- A row of `app/db/models/oauth2_authorization_transaction.py`.
pub record AuthorizationTransaction : Type 0 where
  pub id : ℕ
  pub transaction_hash : Text
  pub response_type : Text
  pub client_id : Text
  pub redirect_uri : Text
  pub scope : Option Text
  pub state : Option Text
  pub nonce : Option Text
  pub code_challenge : Text
  pub code_challenge_method : Text
  pub user_id : Option ℕ
  pub organization_id : Option ℕ
  pub expires_at : ℕ
  pub used_at : Option ℕ

abbrev pub has_transaction_hash : Text → AuthorizationTransaction → Bool
has_transaction_hash h t = text_eq t.transaction_hash h

abbrev pub is_bound_to : ℕ → ℕ → AuthorizationTransaction → Bool
is_bound_to user_id organization_id t =
    holds (λ u. u == user_id) t.user_id && holds (λ o. o == organization_id) t.organization_id

abbrev pub is_open : ℕ → AuthorizationTransaction → Bool
is_open now t = not (leb t.expires_at now) && is_null t.used_at

-- The conditions of `consume`.
abbrev pub is_consumable : Text → ℕ → ℕ → ℕ → AuthorizationTransaction → Bool
is_consumable h user_id organization_id now t =
    has_transaction_hash h t && (is_bound_to user_id organization_id t && is_open now t)

-- The conditions of `bind_to_user`.
abbrev pub is_bindable : Text → ℕ → ℕ → ℕ → AuthorizationTransaction → Bool
is_bindable h user_id organization_id now t =
    has_transaction_hash h t
    && (is_open now t
        && ((is_null t.user_id && is_null t.organization_id)
            || is_bound_to user_id organization_id t))

abbrev pub consumed_at : ℕ → AuthorizationTransaction → AuthorizationTransaction
consumed_at now t = record t { used_at = some now }

abbrev pub bound_to : ℕ → ℕ → AuthorizationTransaction → AuthorizationTransaction
bound_to user_id organization_id t = record t {
  user_id = some user_id;
  organization_id = some organization_id;
}

abbrev pub returned :
    (AuthorizationTransaction → AuthorizationTransaction)
    → Option AuthorizationTransaction
    → Option AuthorizationTransaction
returned f none = none
returned f (some t) = some (f t)

unfoldable pub consume :
    Text
    → ℕ
    → ℕ
    → ℕ
    → List AuthorizationTransaction
    → Option AuthorizationTransaction × List AuthorizationTransaction
consume h user_id organization_id now rows = (
  returned (consumed_at now) (find_where (is_consumable h user_id organization_id now) rows),
  update_where (is_consumable h user_id organization_id now) (consumed_at now) rows,
)

unfoldable pub bind_to_user :
    Text
    → ℕ
    → ℕ
    → ℕ
    → List AuthorizationTransaction
    → Option AuthorizationTransaction × List AuthorizationTransaction
bind_to_user h user_id organization_id now rows = (
  returned (bound_to user_id organization_id)
      (find_where (is_bindable h user_id organization_id now) rows),
  update_where (is_bindable h user_id organization_id now) (bound_to user_id organization_id) rows,
)

-- None where the unique index refuses the row.
unfoldable pub create :
    AuthorizationTransaction
    → List AuthorizationTransaction
    → Option (List AuthorizationTransaction)
create new rows =
    if is_not_null (find_where (has_transaction_hash new.transaction_hash) rows)
    then none
    else some (new ∷ rows)
