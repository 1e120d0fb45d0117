-- ===== src/Oauth2/Refresh/Spent.antt =====
-- A refresh token that was rotated away, through whatever the refresh requests write.
use zero_auth_lite.Prelude.{
  ℕ, ◌≡◌, ◌≢◌, ◌∙◌, sym, refl, subst, Bool, true, false, ◌&&◌, none, some, List, [], ◌∷◌, arith,
  Text, text_eq, text_eq_iff, ◌==◌, is_null, inl, inr, Bool-cases, Option-cases,
}
use zero_auth_lite.Table.{find_where, update_where, delete_where, find_where-holds}
use zero_auth_lite.Table.Keyed.{row-update_where, row_key}
use zero_auth_lite.Oauth2.Tables.{Tables, OAuth2Session, TokenState, RefreshTokenHistory}
use zero_auth_lite.Oauth2.Settings.{OAuth2Settings, Platform, hash_oauth2_token}
use zero_auth_lite.Oauth2.Issuance.{IssuedTokens}
use zero_auth_lite.Oauth2.Refresh.{
  TokenFamily, family_row, has_refresh_hash, is_current_pair, is_expired_pair, rotated_state,
  session_row, ended, end_session, is_active, history_row, token_state_of, reused_session,
  revoke_reused_refresh_family, expire_refresh_family,
}
use zero_auth_lite.Oauth2.Refresh.Rotation.{rotated_tables}
use zero_auth_lite.Oauth2.Refresh.Reuse.{IsRevoked, revoke-IsRevoked}

module _ {A : Type 0} (q : A → Bool) where
  pub absent-update_where :
      (p : A → Bool) (f : A → A) (rs : List A)
      → ((x : A) → q (f x) ≡ false)
      → find_where q rs ≡ none
      → find_where q (update_where p f rs) ≡ none
  absent-update_where p f [] out gone = refl
  absent-update_where p f (x ∷ rs) out gone = ground (arith, out x, absent-update_where p f rs out)

  absent-delete_where :
      (p : A → Bool) (rs : List A)
      → find_where q rs ≡ none
      → find_where q (delete_where p rs) ≡ none
  absent-delete_where p [] gone = refl
  absent-delete_where p (x ∷ rs) gone = ground (arith, absent-delete_where p rs)

  -- A deletion that drops no row of a search does not change what it finds.
  spared-delete_where :
      (p : A → Bool) (rs : List A)
      → ((x : A) → p x ≡ true → q x ≡ false)
      → find_where q (delete_where p rs) ≡ find_where q rs
  spared-delete_where p [] spared = refl
  spared-delete_where p (x ∷ rs) spared = ground (arith, spared x, spared-delete_where p rs spared)

module _ (h : Text) (sid : ℕ) where
  -- The hash is that of no live state and is in the history for the session; and where the session
  -- has no token state left, it has ended.
  pub record IsSpent (d : Tables) : Type 0 where
    pub absent : find_where (has_refresh_hash h) d.token_states ≡ none
    pub entry : RefreshTokenHistory
    pub in_history : history_row h d ≡ some entry
    pub of_session : entry.session_id ≡ sid
    pub session : OAuth2Session
    pub stored : session_row sid d ≡ some session
    pub over : token_state_of sid d ≡ none → is_active session ≡ false

  pub spent_family_row : (d : Tables) → IsSpent d → family_row h d ≡ none
  spent_family_row d s = rw (s.absent, family_row) refl

  -- The end of a family: its session ends, and its token states, or some of them, go.
  closed-IsSpent :
      (s now : ℕ) (p : TokenState → Bool) (d : Tables)
      → ((t : TokenState) → p t ≡ true → (t.session_id == s) ≡ true)
      → IsSpent d
      → IsSpent (end_session s now (record d { token_states = delete_where p d.token_states }))
  closed-IsSpent s now p d family u =
      let key = row_key (λ (r : OAuth2Session). r.id) sid d.sessions u.session u.stored in
      let out =
        row-update_where (λ (r : OAuth2Session). r.id) sid (λ r. r.id == s && is_null r.ended_at)
          (ended now) d.sessions (λ r. refl) in
      elim (Bool-cases (u.session.id == s && is_null u.session.ended_at)) [
        | inl t ↦ record {
          absent = absent-delete_where (has_refresh_hash h) p d.token_states u.absent;
          entry = u.entry;
          in_history = u.in_history;
          of_session = u.of_session;
          session = ended now u.session;
          stored = out ∙ rw u.stored (rw t refl);
          over = λ gone. refl;
        }
        | inr f ↦ record {
          absent = absent-delete_where (has_refresh_hash h) p d.token_states u.absent;
          entry = u.entry;
          in_history = u.in_history;
          of_session = u.of_session;
          session = u.session;
          stored = out ∙ rw u.stored (rw f refl);
          over = λ gone. elim (Bool-cases (u.session.id == s)) [
            | inl hit ↦ ground arith
            | inr miss ↦ u.over (
                sym (
                  spared-delete_where (λ t. t.session_id == sid) p d.token_states
                    (λ t e. let of = family t e in ground arith))
                ∙ gone)
          ];
        }
      ]

  pub revoke_reused-IsSpent :
      (hash : Text) (now : ℕ) (d : Tables)
      → IsSpent d
      → IsSpent (revoke_reused_refresh_family hash now d)
  unfolding revoke_reused_refresh_family
  revoke_reused-IsSpent hash now d u = elim (Option-cases (reused_session hash d)) [
    | inl none_found ↦ rw (none_found, revoke_reused_refresh_family) u
    | inr (s, found) ↦
        rw (found, revoke_reused_refresh_family)
          (closed-IsSpent s now (λ t. t.session_id == s) d (λ t e. e) u)
  ]

  pub expire-IsSpent :
      (s now : ℕ) (hash : Text) (d : Tables)
      → IsSpent d
      → IsSpent (expire_refresh_family s hash now d)
  unfolding expire_refresh_family
  expire-IsSpent s now hash d u =
      elim (Option-cases (find_where (is_expired_pair s hash now) d.token_states)) [
        | inl none_found ↦ rw (none_found, expire_refresh_family) u
        | inr (t, found) ↦
            let passes = find_where-holds (is_expired_pair s hash now) d.token_states t found in
            rw (found, expire_refresh_family)
              (closed-IsSpent t.session_id now (is_expired_pair s hash now) d (λ x e. ground arith)
                u)
      ]

  pub rotated-IsSpent :
      (p : Platform) (settings : OAuth2Settings) (hash : Text) (s : ℕ) (tokens : IssuedTokens)
      (token : Text) (deadline : ℕ) (d : Tables) (family : TokenFamily)
      → hash_oauth2_token p token settings.token_hash_secret ≢ h
      → family_row hash d ≡ some family
      → IsSpent d
      → IsSpent (rotated_tables p settings hash s tokens token deadline d)
  rotated-IsSpent p settings hash s tokens token deadline d family new current u =
      let other : text_eq hash h ≡ false = elim (Bool-cases (text_eq hash h)) [
        | inl t ↦
            let here =
              subst (λ x. family_row x d ≡ some family) ((text_eq_iff hash h).0 t) current in
            let nowhere = spent_family_row d u in absurd (cc)
        | inr f ↦ f
      ] in
      let fresh_hash : text_eq (hash_oauth2_token p token settings.token_hash_secret) h ≡ false =
        elim (Bool-cases (text_eq (hash_oauth2_token p token settings.token_hash_secret) h)) [
          | inl t ↦ absurd (new ((text_eq_iff _ _).0 t))
          | inr f ↦ f
        ] in
      let out =
        row-update_where (λ (t : TokenState). t.session_id) sid (is_current_pair s hash)
          (rotated_state p settings tokens token deadline) d.token_states (λ t. refl) in
      record {
        absent =
            absent-update_where (has_refresh_hash h) (is_current_pair s hash)
              (rotated_state p settings tokens token deadline) d.token_states (λ t. fresh_hash)
              u.absent;
        entry = u.entry;
        in_history = rw other u.in_history;
        of_session = u.of_session;
        session = u.session;
        stored = u.stored;
        over = λ gone. elim (Option-cases (token_state_of sid d)) [
          | inl none_left ↦ u.over none_left
          | inr (t, live) ↦ let no = rw live at (sym out ∙ gone) in absurd (cc)
        ];
      }

  -- A request with a spent token ends the family, where it has not ended.
  pub spent-IsRevoked :
      (now : ℕ) (d : Tables) → IsSpent d → IsRevoked sid (revoke_reused_refresh_family h now d)
  unfolding revoke_reused_refresh_family
  spent-IsRevoked now d u = elim (Option-cases (token_state_of sid d)) [
    | inl gone ↦
        let ended_already : reused_session h d ≡ none =
          ground (arith, u.in_history, u.of_session, gone) in
        rw (ended_already, revoke_reused_refresh_family)
          (record { no_tokens = gone; session = u.session; stored = u.stored; over = u.over gone })
    | inr (t, live) ↦ revoke-IsRevoked h sid now d (record {
      entry = u.entry;
      state = t;
      session = u.session;
      in_history = u.in_history;
      of_session = u.of_session;
      live = live;
      stored = u.stored;
    })
  ]
