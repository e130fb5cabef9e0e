-- ===== src/Models/Status.antt =====
-- `ResourceStatus` of aws_light/models/common.py, and its `==`.
use aws_light.Prelude.{ℕ, String, ◌≡◌, Bool, true, ◌==◌, arith}

pub data ResourceStatus : Type 0 where
  pending running updating degraded stopped failed deleting : ResourceStatus

abbrev number : ResourceStatus → ℕ
number ResourceStatus.pending = 0
number ResourceStatus.running = 1
number ResourceStatus.updating = 2
number ResourceStatus.degraded = 3
number ResourceStatus.stopped = 4
number ResourceStatus.failed = 5
number ResourceStatus.deleting = 6

abbrev pub is_status : ResourceStatus → ResourceStatus → Bool
is_status a b = number a == number b

-- `status.value`
unfoldable pub value : ResourceStatus → String
value ResourceStatus.pending = "pending"
value ResourceStatus.running = "running"
value ResourceStatus.updating = "updating"
value ResourceStatus.degraded = "degraded"
value ResourceStatus.stopped = "stopped"
value ResourceStatus.failed = "failed"
value ResourceStatus.deleting = "deleting"

pub is_status→eq : (a b : ResourceStatus) → is_status a b ≡ true → a ≡ b
is_status→eq a b h = ground arith
