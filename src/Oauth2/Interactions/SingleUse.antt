-- ===== src/Oauth2/Interactions/SingleUse.antt =====
-- A transaction of `app/oauth2/authorization/transaction.py` stays with the user it is bound to, and
-- is decided once.
use zero_auth_lite.Prelude.{
  ℕ, ◌≡◌, refl, ap, subst, Bool, true, false, not, ◌&&◌, ◌||◌, inl, inr, Bool-cases, Option, none,
  some, Text, ◌==◌, is_null, holds, arith,
}
use zero_auth_lite.Table.{find_where, update_where_unfound}
use zero_auth_lite.Database.{ok}
use zero_auth_lite.Oauth2.Interactions.{
  InteractiveUser, AuthorizationService, Transactions, continue_interaction, continue_bound, decide,
  decide_consumed,
}
use zero_auth_lite.Oauth2.Interactions.Transactions.{
  AuthorizationTransaction, has_transaction_hash, is_bound_to, is_consumable, is_bindable,
  consumed_at, bound_to, returned, consume, bind_to_user,
}
use zero_auth_lite.Oauth2.Interactions.Histories.{
  Run, UniqueTransactions, stored-update_where, Keeps, Run-Keeps, found-stored, found-All,
  none_passes,
}

-- A row that is not used; a row that is not bound to a user in an organization.
abbrev is_unspent : AuthorizationTransaction → Bool
is_unspent t = is_null t.used_at

abbrev is_foreign : ℕ → ℕ → AuthorizationTransaction → Bool
is_foreign u o t = not (is_bound_to u o t)

spent-keep_bound :
    (h k : Text) (u o now : ℕ) (t : AuthorizationTransaction)
    → (has_transaction_hash h t && is_unspent t) ≡ false
    → is_bindable k u o now t ≡ true
    → (has_transaction_hash h (bound_to u o t) && is_unspent (bound_to u o t)) ≡ false
spent-keep_bound h k u o now t e p = e

spent-keep_used :
    (h : Text) (now : ℕ) (t : AuthorizationTransaction)
    → (has_transaction_hash h t && is_unspent t) ≡ false
    → (has_transaction_hash h (consumed_at now t) && is_unspent (consumed_at now t)) ≡ false
spent-keep_used h now t e = ground arith

same_principal :
    (a b : Option ℕ) (u o u0 o0 : ℕ)
    → (holds (λ x. x == u0) a && holds (λ x. x == o0) b) ≡ true
    → ((is_null a && is_null b) || (holds (λ x. x == u) a && holds (λ x. x == o) b)) ≡ true
    → ((u == u0) ≡ true) × ((o == o0) ≡ true)
same_principal none b u o u0 o0 e p = cc
same_principal (some a) none u o u0 o0 e p = ground arith
same_principal (some a) (some b) u o u0 o0 e p = (ground arith, ground arith)

bound-keep_bound :
    (u0 o0 : ℕ) (h k : Text) (u o now : ℕ) (t : AuthorizationTransaction)
    → (has_transaction_hash h t && is_foreign u0 o0 t) ≡ false
    → is_bindable k u o now t ≡ true
    → (has_transaction_hash h (bound_to u o t) && is_foreign u0 o0 (bound_to u o t)) ≡ false
bound-keep_bound u0 o0 h k u o now t e p = elim (Bool-cases (has_transaction_hash h t)) [
  | inl hit ↦
      let (user, organization) =
        same_principal t.user_id t.organization_id u o u0 o0 (ground arith) (ground arith) in
      rw (user, organization) (ground arith)
  | inr miss ↦ rw miss refl
]

bound-keep_used :
    (u0 o0 : ℕ) (h : Text) (now : ℕ) (t : AuthorizationTransaction)
    → (has_transaction_hash h t && is_foreign u0 o0 t) ≡ false
    → (has_transaction_hash h (consumed_at now t) && is_foreign u0 o0 (consumed_at now t)) ≡ false
bound-keep_used u0 o0 h now t e = e

consume-none :
    (h : Text) (u o now : ℕ) (rows : Transactions)
    → find_where (is_consumable h u o now) rows ≡ none
    → consume h u o now rows ≡ (none, rows)
unfolding consume
consume-none h u o now rows e =
    rw (e, consume, update_where_unfound (is_consumable h u o now) (consumed_at now) rows e) refl

bind_to_user-none :
    (h : Text) (u o now : ℕ) (rows : Transactions)
    → find_where (is_bindable h u o now) rows ≡ none
    → bind_to_user h u o now rows ≡ (none, rows)
unfolding bind_to_user
bind_to_user-none h u o now rows e =
    rw (e, bind_to_user, update_where_unfound (is_bindable h u o now) (bound_to u o) rows e) refl

module _ {S V : Type 0} (s : AuthorizationService S V) (transaction_id decision : Text)
    (user : InteractiveUser) (now bound_at : ℕ) (rows : Transactions) (d : S) where
  -- The user gets no answer, and nothing is written.
  abbrev pub IsRefused : Type 0
  IsRefused =
      (decide s transaction_id decision user now rows d ≡ (ok none, (rows, d)))
      × (continue_interaction s transaction_id user bound_at now rows d ≡ (ok none, (rows, d)))

  unfound-IsRefused :
      find_where
          (is_consumable (s.transaction_hash transaction_id) user.user_id user.organization_id now)
          rows
        ≡ none
      → find_where
          (is_bindable
            (s.transaction_hash transaction_id)
            user.user_id
            user.organization_id
            bound_at)
          rows
        ≡ none
      → IsRefused
  unfolding decide continue_interaction
  unfound-IsRefused c b = (
    ap (decide_consumed s user decision d)
        (consume-none _ user.user_id user.organization_id now rows c),
    ap (continue_bound s (s.transaction_hash transaction_id) user now d)
        (bind_to_user-none _ user.user_id user.organization_id bound_at rows b),
  )

returned-some :
    (f : AuthorizationTransaction → AuthorizationTransaction) (o : Option AuthorizationTransaction)
    (t : AuthorizationTransaction)
    → returned f o ≡ some t
    → (r : AuthorizationTransaction) × (o ≡ some r)
returned-some f none t e = absurd (cc)
returned-some f (some r) t e = (r, refl)

-- With unique transaction hashes, after a consumption that returned a transaction, whatever
-- transactions are created, bound and consumed, every user that continues or decides the transaction
-- gets no answer, and nothing is written.
pub transaction_single_use :
    {S V : Type 0} (s : AuthorizationService S V) (transaction_id decision : Text)
    (user : InteractiveUser) (u o used_at now bound_at : ℕ) (rows after last : Transactions)
    (t : AuthorizationTransaction) (d : S)
    → UniqueTransactions rows
    → consume (s.transaction_hash transaction_id) u o used_at rows ≡ (some t, after)
    → Run after last
    → IsRefused s transaction_id decision user now bound_at last d
unfolding consume
transaction_single_use s transaction_id decision user u o used_at now bound_at rows after last t d
      unique won run =
    let h = s.transaction_hash transaction_id in
    let q : AuthorizationTransaction → Bool = is_consumable h u o used_at in
    let (r, found) =
      returned-some (consumed_at used_at) (find_where q rows) t
        (ap (λ (p : Option AuthorizationTransaction × Transactions). p.0) won) in
    let start : Keeps h is_unspent (spent-keep_bound h) (spent-keep_used h) after =
      subst (Keeps h is_unspent (spent-keep_bound h) (spent-keep_used h))
        (ap (λ (p : Option AuthorizationTransaction × Transactions). p.1) won)
        (record {
          stored =
              stored-update_where h q (consumed_at used_at) rows (λ t. refl)
                (found-stored h is_unspent q (consumed_at used_at) (λ t p. ground arith) (λ t. refl)
                  (λ t. refl) rows r found);
          kept =
              found-All h is_unspent q (consumed_at used_at) (λ t p. ground arith) (λ t. refl)
                (λ t. refl) rows r unique found;
        }) in
    let k = Run-Keeps h is_unspent (spent-keep_bound h) (spent-keep_used h) start run in
    unfound-IsRefused s transaction_id decision user now bound_at last d
      (none_passes h is_unspent _ last (λ t p. ground arith) k.kept)
      (none_passes h is_unspent _ last (λ t p. ground arith) k.kept)

foreign_other :
    (a b : Option ℕ) (u o u0 o0 : ℕ)
    → (u == u0 && o == o0) ≡ false
    → (holds (λ x. x == u) a && holds (λ x. x == o) b) ≡ true
    → not (holds (λ x. x == u0) a && holds (λ x. x == o0) b) ≡ true
foreign_other none b u o u0 o0 e p = cc
foreign_other (some a) none u o u0 o0 e p = ground arith
foreign_other (some a) (some b) u o u0 o0 e p = ground arith

foreign_open :
    (a b : Option ℕ) (u o u0 o0 : ℕ)
    → (u == u0 && o == o0) ≡ false
    → ((is_null a && is_null b) || (holds (λ x. x == u) a && holds (λ x. x == o) b)) ≡ true
    → not (holds (λ x. x == u0) a && holds (λ x. x == o0) b) ≡ true
foreign_open none b u o u0 o0 e p = refl
foreign_open (some a) b u o u0 o0 e p = foreign_other (some a) b u o u0 o0 e p

consumable-foreign :
    (h : Text) (u0 o0 u o now : ℕ) (t : AuthorizationTransaction)
    → (u == u0 && o == o0) ≡ false
    → is_consumable h u o now t ≡ true
    → (has_transaction_hash h t && is_foreign u0 o0 t) ≡ true
consumable-foreign h u0 o0 u o now t other p =
    ground (arith, foreign_other t.user_id t.organization_id u o u0 o0 other)

bindable-foreign :
    (h : Text) (u0 o0 u o now : ℕ) (t : AuthorizationTransaction)
    → (u == u0 && o == o0) ≡ false
    → is_bindable h u o now t ≡ true
    → (has_transaction_hash h t && is_foreign u0 o0 t) ≡ true
bindable-foreign h u0 o0 u o now t other p =
    ground (arith, foreign_open t.user_id t.organization_id u o u0 o0 other)

-- With unique transaction hashes, after a transaction was bound to a user in an organization, whatever
-- transactions are created, bound and consumed, another user, or the user in another organization,
-- that continues or decides the transaction gets no answer, and nothing is written.
pub transaction_bound :
    {S V : Type 0} (s : AuthorizationService S V) (transaction_id decision : Text)
    (user : InteractiveUser) (u o first_at now bound_at : ℕ) (rows after last : Transactions)
    (t : AuthorizationTransaction) (d : S)
    → UniqueTransactions rows
    → bind_to_user (s.transaction_hash transaction_id) u o first_at rows ≡ (some t, after)
    → Run after last
    → (user.user_id == u && user.organization_id == o) ≡ false
    → IsRefused s transaction_id decision user now bound_at last d
unfolding bind_to_user
transaction_bound s transaction_id decision user u o first_at now bound_at rows after last t d
      unique won run other =
    let h = s.transaction_hash transaction_id in
    let q : AuthorizationTransaction → Bool = is_bindable h u o first_at in
    let is_own : (t : AuthorizationTransaction) → is_foreign u o (bound_to u o t) ≡ false =
      λ t. ground arith in
    let (r, found) =
      returned-some (bound_to u o) (find_where q rows) t
        (ap (λ (p : Option AuthorizationTransaction × Transactions). p.0) won) in
    let start : Keeps h (is_foreign u o) (bound-keep_bound u o h) (bound-keep_used u o h) after =
      subst (Keeps h (is_foreign u o) (bound-keep_bound u o h) (bound-keep_used u o h))
        (ap (λ (p : Option AuthorizationTransaction × Transactions). p.1) won)
        (record {
          stored =
              stored-update_where h q (bound_to u o) rows (λ t. refl)
                (found-stored h (is_foreign u o) q (bound_to u o) (λ t p. ground arith) (λ t. refl)
                  is_own rows r found);
          kept =
              found-All h (is_foreign u o) q (bound_to u o) (λ t p. ground arith) (λ t. refl) is_own
                rows r unique found;
        }) in
    let k =
      Run-Keeps h (is_foreign u o) (bound-keep_bound u o h) (bound-keep_used u o h) start run in
    unfound-IsRefused s transaction_id decision user now bound_at last d
      (none_passes h (is_foreign u o) _ last
        (λ t p. consumable-foreign h u o user.user_id user.organization_id now t other p) k.kept)
      (none_passes h (is_foreign u o) _ last
        (λ t p. bindable-foreign h u o user.user_id user.organization_id bound_at t other p) k.kept)
