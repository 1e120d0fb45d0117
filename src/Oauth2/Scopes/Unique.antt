-- ===== src/Oauth2/Scopes/Unique.antt =====
-- What the loop of `normalize_scope` collects.
use mathlib.Core.List.{append-nil, append_assoc}
use zero_auth_lite.Prelude.{
  ◌≡◌, ◌∙◌, sym, ap, refl, true, false, ◌||◌, List, [], ◌∷◌, ◌++◌, arith, Text, text_eq,
  text_eq_refl, text_eq_iff, if◌then◌else◌, All, Bool-cases, inl, inr,
}
use zero_auth_lite.Oauth2.Scopes.{is_member, collect, are_members}

-- No item comes twice, and none is among the items seen before.
abbrev pub Fresh : List Text → List Text → Type 0
Fresh [] seen = Unit
Fresh (w ∷ ws) seen = (is_member w seen ≡ false) × Fresh ws (w ∷ seen)

-- The first occurrence of each item that was not seen before.
unfoldable pub unseen : List Text → List Text → List Text
unseen [] seen = []
unseen (w ∷ ws) seen =
    let rest = unseen ws (if is_member w seen then seen else w ∷ seen) in
    if is_member w seen then rest else w ∷ rest

pub collect-eq-unseen :
    (ws seen scopes : List Text) → collect ws seen scopes ≡ scopes ++ unseen ws seen
unfolding collect unseen
collect-eq-unseen [] seen scopes = sym (append-nil scopes)
collect-eq-unseen (w ∷ ws) seen scopes = elim (Bool-cases (is_member w seen)) [
  | inl t ↦ rw t (collect-eq-unseen ws seen scopes)
  | inr f ↦ rw f (
      collect-eq-unseen ws (w ∷ seen) (scopes ++ w ∷ [])
      ∙ append_assoc scopes (w ∷ []) (unseen ws (w ∷ seen)))
]

pub unseen-Fresh : (ws seen : List Text) → Fresh (unseen ws seen) seen
unfolding unseen
unseen-Fresh [] seen = tt
unseen-Fresh (w ∷ ws) seen = elim (Bool-cases (is_member w seen)) [
  | inl t ↦ rw t (unseen-Fresh ws seen)
  | inr f ↦ rw f (f, unseen-Fresh ws (w ∷ seen))
]

pub unseen_of_Fresh : (ws seen : List Text) → Fresh ws seen → unseen ws seen ≡ ws
unfolding unseen
unseen_of_Fresh [] seen h = refl
unseen_of_Fresh (w ∷ ws) seen h = rw h.0 (ap (◌∷◌ w) (unseen_of_Fresh ws (w ∷ seen) h.1))

pub All-unseen : (P : Text → Type 0) (ws seen : List Text) → All P ws → All P (unseen ws seen)
unfolding unseen
All-unseen P [] seen h = tt
All-unseen P (w ∷ ws) seen h = elim (Bool-cases (is_member w seen)) [
  | inl t ↦ rw t (All-unseen P ws seen h.1)
  | inr f ↦ rw f (h.0, All-unseen P ws (w ∷ seen) h.1)
]

-- An item is collected or was seen exactly if it is in the input or was seen.
pub is_member-unseen :
    (t : Text) (ws seen : List Text)
    → (is_member t (unseen ws seen) || is_member t seen) ≡ (is_member t ws || is_member t seen)
unfolding unseen is_member
is_member-unseen t [] seen = refl
is_member-unseen t (w ∷ ws) seen = elim (Bool-cases (text_eq t w)) [
  | inl e ↦
      let same : t ≡ w = (text_eq_iff t w).0 e in
      ground (
        arith,
        ap (λ u. is_member u seen) same,
        is_member-unseen t ws seen,
        is_member-unseen t ws (w ∷ seen),
      )
  | inr f ↦ ground (arith, is_member-unseen t ws seen, is_member-unseen t ws (w ∷ seen))
]

-- The subset test sees only which items there are.
pub are_members_mono :
    (ws allowed : List Text) (t : Text)
    → are_members ws allowed ≡ true
    → is_member t ws ≡ true
    → is_member t allowed ≡ true
unfolding are_members is_member
are_members_mono [] allowed t h m = cc
are_members_mono (w ∷ ws) allowed t h m =
    ground (arith, text_eq_iff t w, are_members_mono ws allowed t)

pub are_members_of :
    (ws allowed : List Text)
    → ((t : Text) → is_member t ws ≡ true → is_member t allowed ≡ true)
    → are_members ws allowed ≡ true
unfolding are_members is_member
are_members_of [] allowed h = refl
are_members_of (w ∷ ws) allowed h =
    ground (arith, h w, text_eq_refl w, are_members_of ws allowed (λ t m. h t (ground arith)))
