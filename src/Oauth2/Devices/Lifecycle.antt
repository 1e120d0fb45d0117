-- ===== src/Oauth2/Devices/Lifecycle.antt =====
-- The life of a device authorization under any interleaving of polls, decisions and consumptions:
-- `evaluate_device_poll` and `_consume_device_authorization` of `app/oauth2/devices/polling.py` and
-- `decide_device_authorization` of `app/oauth2/devices/authorization.py`, with the constraint
-- `decision_state_valid` of `app/db/models/oauth2_device_authorization.py`.
use zero_auth_lite.Prelude.{
  ℕ, ◌≡◌, ◌∙◌, refl, Bool, true, false, ◌||◌, Option, none, some, List, [], ◌∷◌, arith, Text,
  if◌then◌else◌, is_null, is_not_null, inl, inr, Bool-cases, All,
}
use zero_auth_lite.Table.{find_where, update_where, All-update_where}
use zero_auth_lite.Table.Keyed
use zero_auth_lite.Table.Keyed.{row-update_where, update_where-UniqueKeys}
use zero_auth_lite.Oauth2.Tables.{DeviceAuthorization}
use zero_auth_lite.Oauth2.Devices.Polling.{has_device_code, slowed, polled}
use zero_auth_lite.Oauth2.Devices.Polling.Approval.{device_id}
use zero_auth_lite.Oauth2.Devices.Decisions.{UserPrincipalContext, is_pending, decided}
use zero_auth_lite.Oauth2.Devices.Grant.{is_consumable, used}

-- The constraint on `approved_at`, `denied_at`, `used_at`, `user_id` and `organization_id`.
unfoldable pub DecisionStateValid : Option ℕ → Option ℕ → Option ℕ → Option ℕ → Option ℕ → Type 0
DecisionStateValid none none none none none = Unit
DecisionStateValid (some _) none _ (some _) (some _) = Unit
DecisionStateValid none (some _) none (some _) (some _) = Unit
DecisionStateValid _ _ _ _ _ = ⊥

abbrev pub IsValid : DeviceAuthorization → Type 0
IsValid a = DecisionStateValid a.approved_at a.denied_at a.used_at a.user_id a.organization_id

pub record IsDeviceTable (rows : List DeviceAuthorization) : Type 0 where
  pub unique_ids : Keyed.UniqueKeys device_id rows
  pub valid : All IsValid rows

-- A user has approved or denied.
abbrev pub is_decided : DeviceAuthorization → Bool
is_decided a = is_not_null a.approved_at || is_not_null a.denied_at

-- What can become of a row: its binding never changes, nor a decision once made, nor the use.
pub record Succeeds (a a' : DeviceAuthorization) : Type 0 where
  pub same_id : a'.id ≡ a.id
  pub same_code : a'.device_code_hash ≡ a.device_code_hash
  pub same_user_code : a'.user_code_hash ≡ a.user_code_hash
  pub same_client : a'.client_id ≡ a.client_id
  pub same_scope : a'.scope ≡ a.scope
  pub same_expiry : a'.expires_at ≡ a.expires_at
  pub decision_kept :
      is_decided a ≡ true
      → (a'.approved_at ≡ a.approved_at)
        × (a'.denied_at ≡ a.denied_at)
        × (a'.user_id ≡ a.user_id)
        × (a'.organization_id ≡ a.organization_id)
  pub use_kept : is_not_null a.used_at ≡ true → a'.used_at ≡ a.used_at

pub Succeeds-refl : (a : DeviceAuthorization) → Succeeds a a
Succeeds-refl a = record {
  same_id = refl;
  same_code = refl;
  same_user_code = refl;
  same_client = refl;
  same_scope = refl;
  same_expiry = refl;
  decision_kept = λ _. (refl, refl, refl, refl);
  use_kept = λ _. refl;
}

pub Succeeds-trans : (a b c : DeviceAuthorization) → Succeeds a b → Succeeds b c → Succeeds a c
Succeeds-trans a b c f g = record {
  same_id = g.same_id ∙ f.same_id;
  same_code = g.same_code ∙ f.same_code;
  same_user_code = g.same_user_code ∙ f.same_user_code;
  same_client = g.same_client ∙ f.same_client;
  same_scope = g.same_scope ∙ f.same_scope;
  same_expiry = g.same_expiry ∙ f.same_expiry;
  decision_kept = λ e.
      let (a1, d1, u1, o1) = f.decision_kept e in
      let (a2, d2, u2, o2) = g.decision_kept (rw (a1, d1) e) in
      (a2 ∙ a1, d2 ∙ d1, u2 ∙ u1, o2 ∙ o1);
  use_kept = λ e. g.use_kept (rw (f.use_kept e) e) ∙ f.use_kept e;
}

-- An update that may be made to any row: it keeps validity, and its result succeeds the row.
pub record Allowed (p : DeviceAuthorization → Bool) (f : DeviceAuthorization → DeviceAuthorization)
    : Type 0 where
  pub keeps_valid : (a : DeviceAuthorization) → IsValid a → p a ≡ true → IsValid (f a)
  pub succeeds : (a : DeviceAuthorization) → p a ≡ true → Succeeds a (f a)
  pub keeps_id : (a : DeviceAuthorization) → (f a).id ≡ a.id
  pub keeps_code : (a : DeviceAuthorization) → (f a).device_code_hash ≡ a.device_code_hash

module _ (p : DeviceAuthorization → Bool) (f : DeviceAuthorization → DeviceAuthorization)
    (ok : Allowed p f) where
  pub update-IsDeviceTable :
      (rows : List DeviceAuthorization) → IsDeviceTable rows → IsDeviceTable (update_where p f rows)
  update-IsDeviceTable rows t = record {
    unique_ids = update_where-UniqueKeys device_id p f rows ok.keeps_id t.unique_ids;
    valid = All-update_where IsValid p f rows ok.keeps_valid t.valid;
  }

  pub update-device_row :
      (h : Text) (rows : List DeviceAuthorization) (a : DeviceAuthorization)
      → find_where (has_device_code h) rows ≡ some a
      → find_where (has_device_code h) (update_where p f rows) ≡ some (if p a then f a else a)
  update-device_row h [] a found = absurd (cc)
  update-device_row h (x ∷ rows) a found =
      ground (arith, ok.keeps_code x, update-device_row h rows a)

  pub update-Succeeds :
      (h : Text) (rows : List DeviceAuthorization) (a : DeviceAuthorization)
      → find_where (has_device_code h) rows ≡ some a
      → (a' : DeviceAuthorization) × (find_where (has_device_code h) (update_where p f rows)
          ≡ some a')
        × Succeeds a a'
  update-Succeeds h rows a found =
      let out = update-device_row h rows a found in
      elim (Bool-cases (p a)) [
        | inl t ↦ (f a, out ∙ rw t refl, ok.succeeds a t)
        | inr e ↦ (a, out ∙ rw e refl, Succeeds-refl a)
      ]

pub slowed-Allowed : (h : Text) (now : ℕ) → Allowed (has_device_code h) (slowed now)
slowed-Allowed h now = record {
  keeps_valid = λ a v e. v;
  succeeds = λ a e. record {
    same_id = refl;
    same_code = refl;
    same_user_code = refl;
    same_client = refl;
    same_scope = refl;
    same_expiry = refl;
    decision_kept = λ _. (refl, refl, refl, refl);
    use_kept = λ _. refl;
  };
  keeps_id = λ a. refl;
  keeps_code = λ a. refl;
}

pub polled-Allowed : (h : Text) (now : ℕ) → Allowed (has_device_code h) (polled now)
polled-Allowed h now = record {
  keeps_valid = λ a v e. v;
  succeeds = λ a e. record {
    same_id = refl;
    same_code = refl;
    same_user_code = refl;
    same_client = refl;
    same_scope = refl;
    same_expiry = refl;
    decision_kept = λ _. (refl, refl, refl, refl);
    use_kept = λ _. refl;
  };
  keeps_id = λ a. refl;
  keeps_code = λ a. refl;
}

decided_valid :
    (now user_id organization_id : ℕ) (approve : Bool) (used_at : Option ℕ)
    → is_null used_at ≡ true
    → DecisionStateValid
        (if approve then some now else none)
        (if approve then none else some now)
        used_at
        (some user_id)
        (some organization_id)
unfolding DecisionStateValid
decided_valid now user_id organization_id true used_at e = tt
decided_valid now user_id organization_id false none e = tt
decided_valid now user_id organization_id false (some _) e = absurd (cc)

pub decided-Allowed :
    (ctx : UserPrincipalContext) (h : Text) (approve : Bool) (now : ℕ)
    → Allowed (is_pending h now) (decided ctx approve now)
decided-Allowed ctx h approve now = record {
  keeps_valid =
      λ a v e. decided_valid now ctx.user_id ctx.organization_id approve a.used_at (ground arith);
  succeeds = λ a e. record {
    same_id = refl;
    same_code = refl;
    same_user_code = refl;
    same_client = refl;
    same_scope = refl;
    same_expiry = refl;
    decision_kept = λ q. absurd (ground arith);
    use_kept = λ q. refl;
  };
  keeps_id = λ a. refl;
  keeps_code = λ a. refl;
}

used_valid :
    (now : ℕ) (approved_at denied_at used_at user_id organization_id : Option ℕ)
    → is_not_null approved_at ≡ true
    → DecisionStateValid approved_at denied_at used_at user_id organization_id
    → DecisionStateValid approved_at denied_at (some now) user_id organization_id
unfolding DecisionStateValid
used_valid now (some _) none u (some _) (some _) e v = tt
used_valid now (some _) none u (some _) none e v = v
used_valid now (some _) none u none o e v = v
used_valid now (some _) (some _) u w o e v = v
used_valid now none b u w o e v = absurd (cc)

pub used-Allowed : (h : Text) (now : ℕ) → Allowed (is_consumable h now) (used now)
used-Allowed h now = record {
  keeps_valid = λ a v e.
      used_valid now a.approved_at a.denied_at a.used_at a.user_id a.organization_id (ground arith)
        v;
  succeeds = λ a e. record {
    same_id = refl;
    same_code = refl;
    same_user_code = refl;
    same_client = refl;
    same_scope = refl;
    same_expiry = refl;
    decision_kept = λ _. (refl, refl, refl, refl);
    use_kept = λ q. absurd (ground arith);
  };
  keeps_id = λ a. refl;
  keeps_code = λ a. refl;
}
