-- ===== src/Oauth2/Interactions/Histories.antt =====
-- Creations, bindings and consumptions of `app/oauth2/authorization/transaction.py` in any order, and
-- what they keep of the rows of a hash.
use zero_auth_lite.Prelude.{
  ℕ, ◌≡◌, refl, subst, Bool, true, false, ◌&&◌, ◌⊎◌, inl, inr, Bool-cases, Option, none, some, [],
  ◌∷◌, Text, text_eq, text_eq_sound, is_not_null, All, arith,
}
use zero_auth_lite.Table.{find_where, update_where, All-update_where}
use zero_auth_lite.Oauth2.Interactions.{Transactions}
use zero_auth_lite.Oauth2.Interactions.Transactions.{
  AuthorizationTransaction, has_transaction_hash, is_bindable, consumed_at, bound_to, consume,
  bind_to_user, create,
}

-- What requests do to the table, each with its own user and clock.
pub data Step : Type 0 where
  creates : AuthorizationTransaction → Step
  binds consumes : Text → ℕ → ℕ → ℕ → Step

abbrev pub or_same : Transactions → Option Transactions → Transactions
or_same rows none = rows
or_same rows (some rows') = rows'

pub step : Step → Transactions → Transactions
step (creates new) rows = or_same rows (create new rows)
step (binds h u o now) rows = (bind_to_user h u o now rows).1
step (consumes h u o now) rows = (consume h u o now rows).1

pub data Run (rows : Transactions) : Transactions → Type 0 where
  here : Run rows rows
  next : {rows' : Transactions} (s : Step) → Run rows rows' → Run rows (step s rows')

-- No two rows have the same `transaction_hash`.
abbrev pub UniqueTransactions : Transactions → Type 0
UniqueTransactions [] = Unit
UniqueTransactions (t ∷ ts) =
    (find_where (has_transaction_hash t.transaction_hash) ts ≡ none) × UniqueTransactions ts

module _ (h : Text) where
  pub stored-update_where :
      (q : AuthorizationTransaction → Bool)
      (f : AuthorizationTransaction → AuthorizationTransaction) (rows : Transactions)
      → ((t : AuthorizationTransaction) → (f t).transaction_hash ≡ t.transaction_hash)
      → is_not_null (find_where (has_transaction_hash h) rows) ≡ true
      → is_not_null (find_where (has_transaction_hash h) (update_where q f rows)) ≡ true
  stored-update_where q f [] same e = e
  stored-update_where q f (t ∷ rows) same e =
      ground (arith, same t, stored-update_where q f rows same)

  -- A row that is inserted has another hash.
  create-other :
      (new : AuthorizationTransaction) (rows : Transactions)
      → is_not_null (find_where (has_transaction_hash h) rows) ≡ true
      → (create new rows ≡ none)
        ⊎ ((create new rows ≡ some (new ∷ rows)) × (has_transaction_hash h new ≡ false))
  unfolding create
  create-other new rows stored =
      elim (Bool-cases
        (is_not_null (find_where (has_transaction_hash new.transaction_hash) rows))) [
          | inl taken ↦ inl (rw (taken, create) refl)
          | inr free ↦ elim (Bool-cases (text_eq new.transaction_hash h)) [
            | inl same ↦
                let none_there =
                  subst (λ k. is_not_null (find_where (has_transaction_hash k) rows) ≡ false)
                    (text_eq_sound new.transaction_hash h same) free in
                absurd (cc)
            | inr other ↦ inr (rw (free, create) refl, other)
          ]
        ]

  -- A property of the rows of the hash that no binding and no consumption undoes.
  module _ (P : AuthorizationTransaction → Bool)
      (keep_bound : (k : Text) (u o now : ℕ) (t : AuthorizationTransaction)
        → (has_transaction_hash h t && P t) ≡ false
        → is_bindable k u o now t ≡ true
        → (has_transaction_hash h (bound_to u o t) && P (bound_to u o t)) ≡ false)
      (keep_used : (now : ℕ) (t : AuthorizationTransaction)
        → (has_transaction_hash h t && P t) ≡ false
        → (has_transaction_hash h (consumed_at now t) && P (consumed_at now t)) ≡ false) where
    pub record Keeps (rows : Transactions) : Type 0 where
      pub stored : is_not_null (find_where (has_transaction_hash h) rows) ≡ true
      pub kept : All (λ t. (has_transaction_hash h t && P t) ≡ false) rows

    step-Keeps : (s : Step) (rows : Transactions) → Keeps rows → Keeps (step s rows)
    unfolding step consume bind_to_user
    step-Keeps (creates new) rows k = elim (create-other new rows k.stored) [
      | inl refused ↦ rw refused k
      | inr (inserted, other) ↦
          rw inserted (record { stored = rw other k.stored; kept = (rw other refl, k.kept) })
    ]
    step-Keeps (binds j u o now) rows k = record {
      stored = stored-update_where _ (bound_to u o) rows (λ t. refl) k.stored;
      kept = All-update_where _ _ (bound_to u o) rows (λ t h p. keep_bound j u o now t h p) k.kept;
    }
    step-Keeps (consumes j u o now) rows k = record {
      stored = stored-update_where _ (consumed_at now) rows (λ t. refl) k.stored;
      kept = All-update_where _ _ (consumed_at now) rows (λ t h p. keep_used now t h) k.kept;
    }

    pub Run-Keeps : {rows rows' : Transactions} → Keeps rows → Run rows rows' → Keeps rows'
    Run-Keeps k here = k
    Run-Keeps k (next {rows' = between} s run) = step-Keeps s between (Run-Keeps k run)

  module _ (P q : AuthorizationTransaction → Bool)
      (f : AuthorizationTransaction → AuthorizationTransaction)
      (hashed : (t : AuthorizationTransaction) → q t ≡ true → has_transaction_hash h t ≡ true)
      (same : (t : AuthorizationTransaction) → (f t).transaction_hash ≡ t.transaction_hash)
      (done : (t : AuthorizationTransaction) → P (f t) ≡ false) where
    absent-All :
        (rows : Transactions)
        → find_where (has_transaction_hash h) rows ≡ none
        → All (λ t. (has_transaction_hash h t && P t) ≡ false) (update_where q f rows)
    absent-All [] e = tt
    absent-All (t ∷ rows) e = elim (Bool-cases (has_transaction_hash h t)) [
      | inl hit ↦ let no = rw hit at e in absurd (cc)
      | inr miss ↦ elim (Bool-cases (q t)) [
        | inl t' ↦ let no = hashed t t' in absurd (cc)
        | inr f' ↦ (rw (f', miss) refl, absent-All rows (rw miss at e))
      ]
    ]

    pub found-stored :
        (rows : Transactions) (r : AuthorizationTransaction)
        → find_where q rows ≡ some r
        → is_not_null (find_where (has_transaction_hash h) rows) ≡ true
    found-stored [] r e = cc
    found-stored (t ∷ rows) r e = ground (arith, hashed t, found-stored rows r)

    -- With unique hashes, a write to the row of a hash leaves no other row of the hash.
    pub found-All :
        (rows : Transactions) (r : AuthorizationTransaction)
        → UniqueTransactions rows
        → find_where q rows ≡ some r
        → All (λ t. (has_transaction_hash h t && P t) ≡ false) (update_where q f rows)
    found-All [] r u e = cc
    found-All (t ∷ rows) r u e = elim (Bool-cases (q t)) [
      | inl hit ↦
          let here_is = text_eq_sound t.transaction_hash h (hashed t hit) in
          (
            rw (hit, done t) (ground arith),
            absent-All rows
                (subst (λ k. find_where (has_transaction_hash k) rows ≡ none) here_is u.0),
          )
      | inr miss ↦
          let later = rw miss at e in
          elim (Bool-cases (has_transaction_hash h t)) [
            | inl both ↦
                let there = found-stored rows r later in
                let gone =
                  subst (λ k. find_where (has_transaction_hash k) rows ≡ none)
                    (text_eq_sound t.transaction_hash h both) u.0 in
                absurd (let no = rw gone at there in cc)
            | inr other ↦ (rw (miss, other) refl, found-All rows r u.1 later)
          ]
    ]

  pub none_passes :
      (P q : AuthorizationTransaction → Bool) (rows : Transactions)
      → ((t : AuthorizationTransaction) → q t ≡ true → (has_transaction_hash h t && P t) ≡ true)
      → All (λ t. (has_transaction_hash h t && P t) ≡ false) rows
      → find_where q rows ≡ none
  none_passes P q [] hit kept = refl
  none_passes P q (t ∷ rows) hit kept = elim (Bool-cases (q t)) [
    | inl passes ↦ let no = hit t passes in absurd (let yes' = kept.0 in cc)
    | inr fails ↦ rw fails (none_passes P q rows hit kept.1)
  ]
