-- ===== src/Permissions/Laws.antt =====
-- What a permission check and an approval check let through.
use text.Mathlib.TextEquality.{eq_iff}
use personal_assistant.Common.{
  ◌≤◌, ◌<◌, ◌≡◌, refl, ◌↔◌, inl, inr, true, false, Option, none, some, List, [], ◌∷◌, String, arith,
  is_some, ltb, Bool-cases, text_eq,
}
use personal_assistant.Common.Exec.{ok}
use personal_assistant.Common.Pure.{bind-ok}
use personal_assistant.Common.Text.{strip, strip_field, is_empty}
use personal_assistant.Common.Time.{Instant}
use personal_assistant.Permissions.Tiers.{PermissionTier, p3, rank, allows}
use personal_assistant.Permissions.{
  Principal, PermissionDecision, ApprovalGrant, is_trusted, evaluate_permission, require_permission,
  permission_request, has_length, tier_satisfied,
}
use personal_assistant.Permissions.Approval.{
  note, note-nil, ApprovalError, is_expired, hash_differs, approval_errors, accept_if_none,
  check_approval, permitted, require_approval,
}

abbrev pub Unexpired : Option Instant → Instant → Type 0
Unexpired none now = Unit
Unexpired (some t) now = now < t

abbrev pub MatchesHash : Option String → Option String → Type 0
MatchesHash none actual = Unit
MatchesHash (some h) actual = actual ≡ some h

-- The grant is meant for this principal, this call and this moment.
pub record Covers (a : ApprovalGrant) (p : Principal) (required : PermissionTier)
    (action resource : String) (request_hash : Option String) (now : Instant) : Type 0 where
  pub from_runtime : is_some a.trusted_source ≡ true
  pub approved : a.approved ≡ true
  pub same_tenant : a.tenant_id ≡ p.tenant_id
  pub same_principal : a.principal_id ≡ p.principal_id
  pub same_action : a.action ≡ action
  pub same_resource : a.resource ≡ resource
  pub high_enough : rank required ≤ rank a.tier
  pub unexpired : Unexpired a.expires_at now
  pub same_hash : MatchesHash request_hash a.request_hash

Unexpired-iff : (o : Option Instant) (now : Instant) → (is_expired o now ≡ false) ↔ Unexpired o now
Unexpired-iff none now = (λ h. tt, λ h. refl)
Unexpired-iff (some t) now = ground arith

hash_iff : (h a : Option String) → (hash_differs h a ≡ false) ↔ MatchesHash h a
hash_iff none a = (λ h. tt, λ h. refl)
hash_iff (some h) none = (λ e. ground arith, λ e. ground arith)
hash_iff (some h) (some a) = (λ e. ground (arith, eq_iff a h), λ e. ground (arith, eq_iff a h))

allows_iff : (t required : PermissionTier) → (allows t required ≡ true) ↔ (rank required ≤ rank t)
allows_iff t required = (λ h. ground arith, λ h. ground arith)

module _ (p : Principal) (required : PermissionTier) (a : ApprovalGrant) (action resource : String)
    (request_hash : Option String) (now : Instant) where
  errors_nil-Covers :
      approval_errors p required a action resource request_hash now ≡ []
      → Covers a p required action resource request_hash now
  unfolding approval_errors
  errors_nil-Covers h =
      let (e0, h0) = note-nil _ _ _ h in
      let (e1, h1) = note-nil _ _ _ h0 in
      let (e2, h2) = note-nil _ _ _ h1 in
      let (e3, h3) = note-nil _ _ _ h2 in
      let (e4, h4) = note-nil _ _ _ h3 in
      let (e5, h5) = note-nil _ _ _ h4 in
      let (e6, h6) = note-nil _ _ _ h5 in
      let (e7, h7) = note-nil _ _ _ h6 in
      let (e8, h8) = note-nil _ _ _ h7 in
      record {
        from_runtime = ground arith;
        approved = ground arith;
        same_tenant = ground (arith, eq_iff a.tenant_id p.tenant_id);
        same_principal = ground (arith, eq_iff a.principal_id p.principal_id);
        same_action = ground (arith, eq_iff a.action action);
        same_resource = ground (arith, eq_iff a.resource resource);
        high_enough = ground arith;
        unexpired = (Unexpired-iff a.expires_at now).0 e7;
        same_hash = (hash_iff request_hash a.request_hash).0 e8;
      }

  Covers-errors_nil :
      Covers a p required action resource request_hash now
      → approval_errors p required a action resource request_hash now ≡ []
  unfolding approval_errors note
  Covers-errors_nil c = rw (
    c.from_runtime,
    c.approved,
    (eq_iff a.tenant_id p.tenant_id).1 c.same_tenant,
    (eq_iff a.principal_id p.principal_id).1 c.same_principal,
    (eq_iff a.action action).1 c.same_action,
    (eq_iff a.resource resource).1 c.same_resource,
    (allows_iff a.tier required).1 c.high_enough,
    (Unexpired-iff a.expires_at now).1 c.unexpired,
    (hash_iff request_hash a.request_hash).1 c.same_hash,
  )

-- The texts of a request pass the model's validators.
pub record IsWellFormed (action resource : String) : Type 0 where
  pub action_length : has_length 1 120 (strip_field action) ≡ true
  pub resource_length : has_length 1 200 (strip_field resource) ≡ true
  pub action_text : is_empty (strip (strip_field action)) ≡ false
  pub resource_text : is_empty (strip (strip_field resource)) ≡ false

abbrev pub tier_decision : Principal → PermissionTier → PermissionDecision
tier_decision p required = record {
  allowed = true;
  required_tier = required;
  principal_tier = p.permission_tier;
  reason = tier_satisfied;
}

pub permitted-ok :
    (p : Principal) (required : PermissionTier) (action resource : String) {d : PermissionDecision}
    → permitted p required action resource ≡ ok d
    → (is_trusted p ≡ true)
      × (rank required ≤ rank p.permission_tier)
      × IsWellFormed action resource
unfolding permitted permission_request require_permission evaluate_permission
permitted-ok p required action resource h = ground arith

permitted_of :
    (p : Principal) (required : PermissionTier) (action resource : String)
    → is_trusted p ≡ true
    → rank required ≤ rank p.permission_tier
    → IsWellFormed action resource
    → permitted p required action resource ≡ ok (tier_decision p required)
unfolding permitted permission_request require_permission evaluate_permission
permitted_of p required action resource t r w = rw (
  w.action_length,
  w.resource_length,
  w.action_text,
  w.resource_text,
  t,
  (allows_iff p.permission_tier required).1 r,
)

not_below : (required : PermissionTier) → 3 ≤ rank required → ltb (rank required) (rank p3) ≡ false
not_below required h = ground arith

accept_if_none-ok :
    (es : List ApprovalError) (d : PermissionDecision) {d' : PermissionDecision}
    → accept_if_none es d ≡ ok d'
    → es ≡ []
accept_if_none-ok [] d h = refl
accept_if_none-ok (e ∷ es) d h = cc

check_approval-ok :
    (p : Principal) (required : PermissionTier) (approval : Option ApprovalGrant)
    (action resource : String) (request_hash : Option String) (now : Instant)
    (d : PermissionDecision) {d' : PermissionDecision}
    → 3 ≤ rank required
    → check_approval p required approval action resource request_hash now d ≡ ok d'
    → (a : ApprovalGrant) × (approval ≡ some a)
      × (approval_errors p required a action resource request_hash now ≡ [])
check_approval-ok p required none action resource request_hash now d high h = ground arith
check_approval-ok p required (some a) action resource request_hash now d {d'} high h = (
  a,
  refl,
  accept_if_none-ok (approval_errors p required a action resource request_hash now) d {d' = d'}
      (rw (not_below required high) at h),
)

module _ (p : Principal) (required : PermissionTier) (approval : Option ApprovalGrant)
    (action resource : String) (request_hash : Option String) (now : Instant) where
  -- An action of tier P3 or above passes `require_approval` only for a trusted principal of that
  -- tier, with well-formed texts and a grant that covers this very call at this moment.
  pub require_approval_sound :
      {d : PermissionDecision}
      → 3 ≤ rank required
      → require_approval p required approval action resource request_hash now ≡ ok d
      → (is_trusted p ≡ true)
        × (rank required ≤ rank p.permission_tier)
        × IsWellFormed action resource
        × ((a : ApprovalGrant) × (approval ≡ some a)
            × Covers a p required action resource request_hash now)
  unfolding require_approval
  require_approval_sound high h =
      let (d, decided, checked) =
        bind-ok (permitted p required action resource)
          (check_approval p required approval action resource request_hash now) h in
      let (a, given, clean) =
        check_approval-ok p required approval action resource request_hash now d high checked in
      let (t, r, w) = permitted-ok p required action resource decided in
      (t, r, w, (a, given, errors_nil-Covers p required a action resource request_hash now clean))

  -- Conversely such a call passes, and the decision says that the tier requirement is met.
  pub require_approval_complete :
      (a : ApprovalGrant)
      → approval ≡ some a
      → is_trusted p ≡ true
      → rank required ≤ rank p.permission_tier
      → IsWellFormed action resource
      → Covers a p required action resource request_hash now
      → require_approval p required approval action resource request_hash now
        ≡ ok (tier_decision p required)
  unfolding require_approval
  require_approval_complete a e t r w c =
      rw (permitted_of p required action resource t r w, e)
        (accepts a (Covers-errors_nil p required a action resource request_hash now c))
    where
      accepts :
          (a : ApprovalGrant)
          → approval_errors p required a action resource request_hash now ≡ []
          → check_approval p required
              (some a)
              action
              resource
              request_hash
              now
              (tier_decision p required)
            ≡ ok (tier_decision p required)
      accepts a clean = elim (Bool-cases (ltb (rank required) (rank p3))) [
        | inl low ↦ rw low
        | inr high ↦ rw (high, clean)
      ]
