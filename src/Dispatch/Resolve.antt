-- ===== src/Dispatch/Resolve.antt =====
-- `resolve_uncertain` of `DispatchDueReminders`
-- (src/personal_assistant/application/use_cases/reminder_notifications_dispatch.py).
use Prim.Native.String.{◌++◌}
use personal_assistant.Common.{
  ◌≡◌, refl, ◌≤◌, Bool, true, false, arith, ◌⊎◌, inl, inr, Option, none, some, String, Bool-cases,
  text_eq, leb, not, ◌&&◌, ◌==◌,
}
use personal_assistant.Common.Exec.{Exn, Result-cases, err, value_error, raise_if}
use personal_assistant.Common.Time.{Instant, Datetime, aware}
use personal_assistant.Permissions.{Principal, ApprovalGrant, is_trusted}
use personal_assistant.Permissions.Tiers.{p5, rank}
use personal_assistant.Permissions.Approval.{require_approval}
use personal_assistant.Permissions.Laws.{Covers, require_approval_sound}
use personal_assistant.Delivery.{canonical_utc}
use personal_assistant.Events.{OutboxMessage}
use personal_assistant.Outbox
use personal_assistant.Outbox.Advance.{Advances-refl}
use personal_assistant.Outbox.Transition.{resolve_uncertain_delivered, resolve_uncertain_retry}
use personal_assistant.Outbox.Advance.Transitions.{
  resolve_uncertain_delivered-Advances, resolve_uncertain_retry-Advances,
}
use personal_assistant.UnitOfWork.{Stores, on_outbox}
use personal_assistant.Dispatch.{Environment, mirror_terminal}
use personal_assistant.Dispatch.Helpers.{reminder_event_type, max_delivery_attempts}
use personal_assistant.Dispatch.Loop.{find_message, check_resolvable, resolve, resolve_uncertain}
use personal_assistant.Dispatch.Steps.{IsValid, Moves, Plain, Keeps}
use personal_assistant.Dispatch.Rules.{
  lift-Plain, on_outbox-Plain, bind-Plain, pure-Plain, lift-Keeps, bind-Keeps,
  with_transaction-Keeps,
}
use personal_assistant.Dispatch.Keeps.{finish-Plain}

module _ (env : Environment) (p : Principal) where
  list-Plain : Plain p.tenant_id (on_outbox (Outbox.list_for_tenant p))
  unfolding Outbox.list_for_tenant
  list-Plain = on_outbox-Plain p.tenant_id (Outbox.list_for_tenant p) (λ o v.
      elim (Bool-cases (is_trusted p)) [
        | inl known ↦ rw known (Advances-refl p.tenant_id o v)
        | inr unknown ↦ rw unknown (Advances-refl p.tenant_id o v)
      ])

  raise_if-Plain : (b : Bool) (x : Exn) → Plain p.tenant_id (raise_if b x)
  raise_if-Plain true x = lift-Plain {0} p.tenant_id (err x)
  raise_if-Plain false x = pure-Plain {0} p.tenant_id tt

  check_resolvable-Plain :
      (resolution : String) (found : Option OutboxMessage)
      → Plain p.tenant_id (check_resolvable env p resolution found)
  check_resolvable-Plain resolution none = pure-Plain {0} p.tenant_id tt
  check_resolvable-Plain resolution (some m) =
      bind-Plain p.tenant_id _ _
        (raise_if-Plain (not (m.event.type == reminder_event_type)) value_error)
        (λ _.
          raise_if-Plain (resolution == "retry" && leb max_delivery_attempts m.attempts)
            value_error)

  resolve-Plain :
      (id resolution : String) (now : Instant) → Plain p.tenant_id (resolve env p id resolution now)
  resolve-Plain id resolution now = elim (Bool-cases (resolution == "delivered")) [
    | inl done ↦ rw done (
        on_outbox-Plain p.tenant_id (resolve_uncertain_delivered p id (aware now))
          (λ o v. resolve_uncertain_delivered-Advances p id o v (aware now)))
    | inr other ↦ elim (Bool-cases (resolution == "retry")) [
      | inl again ↦
          rw (other, again)
            (on_outbox-Plain p.tenant_id (resolve_uncertain_retry p id (aware now))
              (λ o v. resolve_uncertain_retry-Advances p id o v (aware now)))
      | inr neither ↦ rw (other, neither) (lift-Plain p.tenant_id (err value_error))
    ]
  ]

  resolve_uncertain-Keeps :
      (moment : Instant) (id resolution : String) (at : Datetime) (approval : Option ApprovalGrant)
      → Keeps p.tenant_id (resolve_uncertain env p moment id resolution at approval)
  unfolding resolve_uncertain mirror_terminal
  resolve_uncertain-Keeps moment id resolution at approval =
      bind-Keeps p.tenant_id _ _ (lift-Keeps p.tenant_id (canonical_utc at)) (λ now.
        bind-Keeps p.tenant_id _ _ (lift-Keeps p.tenant_id _) (λ decision.
          with_transaction-Keeps p.tenant_id p _ (
            bind-Plain p.tenant_id _ _ list-Plain (λ messages.
              bind-Plain p.tenant_id _ _
                (check_resolvable-Plain resolution (find_message env p id messages))
                (λ _.
                  bind-Plain p.tenant_id _ _ (resolve-Plain id resolution now)
                    (finish-Plain env p))))))

  -- A resolution of an uncertain message on valid stores, however it ends, leaves the outbox and the
  -- scheduler valid, moves each message along the delivery machine, keeps each reminder, and leaves
  -- the messages and reminders of other tenants and the other stores as they were. It changes
  -- nothing at all, unless the principal is trusted, has tier P5, and brings a grant that covers
  -- this resolution of this message at this moment.
  pub resolve_uncertain_guarded :
      (moment : Instant) (id resolution : String) (at : Datetime) (approval : Option ApprovalGrant)
      (s : Stores)
      → IsValid s
      → let s' = (resolve_uncertain env p moment id resolution at approval s).1 in
        Moves p.tenant_id s s'
        × ((s' ≡ s)
            ⊎ ((is_trusted p ≡ true)
                × (5 ≤ rank p.permission_tier)
                × ((a : ApprovalGrant) × (approval ≡ some a)
                    × Covers a p p5 "notification.resolve_uncertain"
                        (id ++ ":" ++ resolution)
                        none
                        moment)))
  unfolding resolve_uncertain
  resolve_uncertain_guarded moment id resolution at approval s v = (
    (resolve_uncertain-Keeps moment id resolution at approval).moves s v,
    elim (Result-cases (canonical_utc at)) [
      | inl (x, no_zone) ↦ inl (rw no_zone refl)
      | inr (now, canonical) ↦
          elim (Result-cases (
            require_approval p p5 approval "notification.resolve_uncertain"
              (id ++ ":" ++ resolution) none moment)) [
                | inl (x, refused) ↦ inl (rw (canonical, refused) refl)
                | inr (d, passed) ↦
                    let (known, high, form, grant) =
                      require_approval_sound p p5 approval "notification.resolve_uncertain"
                        (id ++ ":" ++ resolution) none moment {d = d} (omega arith) passed in
                    inr (known, high, grant)
              ]
    ],
  )
