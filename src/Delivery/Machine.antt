-- ===== src/Delivery/Machine.antt =====
-- The delivery state machine that the docstring of `DeliveryStatus` describes
-- (src/personal_assistant/application/dto/delivery.py): which status may follow which.
use personal_assistant.Common.{ℕ}
use personal_assistant.Delivery.{
  DeliveryStatus, pending, claimed, sending, published, failed, uncertain,
}

infix 40 ◌⟶◌
pub data ◌⟶◌ : DeliveryStatus → DeliveryStatus → Type 0 where
  lease : pending ⟶ claimed
  lease_again : claimed ⟶ claimed
  give_back : claimed ⟶ pending
  refuse : claimed ⟶ failed
  start : claimed ⟶ sending
  deliver : sending ⟶ published
  reject : sending ⟶ failed
  lose : sending ⟶ uncertain
  retry : sending ⟶ pending
  confirm : uncertain ⟶ published
  reopen : uncertain ⟶ pending

-- the attempts that an edge counts: only the one into `sending`
abbrev pub counted : DeliveryStatus → ℕ
counted sending = 1
counted _ = 0
