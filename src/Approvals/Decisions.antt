-- ===== src/Approvals/Decisions.antt =====
-- Histories of decisions on approval requests.
use personal_assistant.Common.{
  ◌≡◌, refl, sym, ◌∙◌, ap, subst, ◌≢◌, ◌⊎◌, inl, inr, true, false, some, List, [], ◌∷◌, String,
  arith, All, Bool-cases, text_eq, pair_eq,
}
use personal_assistant.Common.Dict.{get, get-put}
use personal_assistant.Common.Index.{Key, key_eq}
use personal_assistant.Common.Time.{Instant}
use personal_assistant.Permissions.{Principal}
use personal_assistant.Approvals
use personal_assistant.Approvals.{
  PendingApprovalStatus, pending, is_pending, PendingApproval, HashedApproval, ApprovalStore,
  write_approval,
}
use personal_assistant.Approvals.Steps.{
  Step, same, decided, mark_approved-Step, approve-Step, cancel-Step,
}

-- A call that decides, with the clock's value.
pub data Call : Type 0 where
  mark_approved approve cancel reject : Instant → String → Call

-- What may become of a stored approval: it stays, or it is decided once, its other fields kept.
pub data Outcome (a : PendingApproval) : PendingApproval → Type 0 where
  kept : Outcome a a
  settled :
      (now : Instant) (status : PendingApprovalStatus)
      → is_pending a.status ≡ true
      → is_pending status ≡ false
      → Outcome a (record a { status = status; updated_at = some now })

Outcome-trans : {a b c : PendingApproval} → Outcome a b → Outcome b c → Outcome a c
Outcome-trans kept g = g
Outcome-trans (settled now status waits final) kept = settled now status waits final
Outcome-trans (settled now status waits final) (settled now' status' waits' final') = absurd cc

-- An approval that is not the principal's own stays.
pub record Moves (p : Principal) (k : Key) (a b : PendingApproval) : Type 0 where
  pub outcome : Outcome a b
  pub foreign : (k.0 ≢ p.tenant_id) ⊎ (a.principal_id ≢ p.principal_id) → b ≡ a

Moves-refl : (p : Principal) (k : Key) (a : PendingApproval) → Moves p k a a
Moves-refl p k a = record { outcome = kept; foreign = λ h. refl }

Step-Moves :
    (p : Principal) {s s' : ApprovalStore} (k : Key) (a : PendingApproval)
    → Step p s s'
    → get k s.approvals ≡ some a
    → (b : PendingApproval) × (get k s'.approvals ≡ some b) × Moves p k a b
Step-Moves p k a same h = (a, h, Moves-refl p k a)
Step-Moves p {s} k a (decided id c now status stored own waits final) h =
    elim (Bool-cases (key_eq.is_equal (p.tenant_id, id) k)) [
      | inr other ↦ (a, rw get-put (rw other h), Moves-refl p k a)
      | inl hit ↦
          let e : (p.tenant_id, id) ≡ k = (key_eq.is_equal_iff (p.tenant_id, id) k).0 hit in
          let f : c ≡ a = ground arith in
          (
            record c { status = status; updated_at = some now },
            rw get-put (rw hit refl),
            subst (λ d. Moves p k d (record c { status = status; updated_at = some now })) f
                (record {
                  outcome = settled now status waits final;
                  foreign = λ g. elim g [
                    | inl tenant ↦ absurd (tenant (sym (ap (λ (j : Key). j.0) e)))
                    | inr owner ↦ absurd (owner own)
                  ];
                }),
          )
    ]

module _ (fingerprint : HashedApproval → String) where
  -- the store that a call leaves, whether it returned or raised
  unfoldable pub perform : Principal → Call → ApprovalStore → ApprovalStore
  perform p (mark_approved now id) s = (Approvals.mark_approved now p id s).1
  perform p (approve now id) s = (Approvals.approve fingerprint now p id s).1
  perform p (cancel now id) s = (Approvals.cancel now p id s).1
  perform p (reject now id) s = (Approvals.reject now p id s).1

  unfoldable pub run : List (Principal × Call) → ApprovalStore → ApprovalStore
  run [] s = s
  run ((p, c) ∷ cs) s = run cs (perform p c s)

  perform-Step : (p : Principal) (c : Call) (s : ApprovalStore) → Step p s (perform p c s)
  unfolding perform Approvals.reject
  perform-Step p (mark_approved now id) s = mark_approved-Step now p id s
  perform-Step p (approve now id) s = approve-Step now p id s fingerprint
  perform-Step p (cancel now id) s = cancel-Step now p id s
  perform-Step p (reject now id) s = cancel-Step now p id s

  -- Whatever deciding calls any principals make, a stored approval stays stored under its key, and
  -- either it is unchanged, or it was pending and now is approved or cancelled, with a new update
  -- time and every other field as before.
  pub decided_once :
      (cs : List (Principal × Call)) (s : ApprovalStore) (k : Key) (a : PendingApproval)
      → get k s.approvals ≡ some a
      → (b : PendingApproval) × (get k (run cs s).approvals ≡ some b) × Outcome a b
  unfolding run
  decided_once [] s k a h = (a, h, kept)
  decided_once ((p, c) ∷ cs) s k a h =
      let (b, g, m) = Step-Moves p k a (perform-Step p c s) h in
      let (b', g', o) = decided_once cs (perform p c s) k b g in (b', g', Outcome-trans m.outcome o)

  -- Deciding calls by principals who do not own an approval, because their tenant or their id is
  -- another, leave it as it was.
  pub only_owner_decides :
      (cs : List (Principal × Call)) (s : ApprovalStore) (k : Key) (a : PendingApproval)
      → get k s.approvals ≡ some a
      → All (λ c. (k.0 ≢ c.0.tenant_id) ⊎ (a.principal_id ≢ c.0.principal_id)) cs
      → get k (run cs s).approvals ≡ some a
  unfolding run
  only_owner_decides [] s k a h others = h
  only_owner_decides ((p, c) ∷ cs) s k a h others =
      let (b, g, m) = Step-Moves p k a (perform-Step p c s) h in
      only_owner_decides cs (perform p c s) k a (g ∙ ap some (m.foreign others.0)) others.1
