-- ===== src/Gateway/Upstream/Once.antt =====
-- app/routes/gateway.py: a stream is settled once, whoever ends it and in whatever order.
use zcode2api.Prelude.{ℕ, ◌+◌, ◌≤◌, ◌≡◌, Bool, true, false, List, [], ◌∷◌, if◌then◌else◌, ◌||◌}
use zcode2api.Gateway.Upstream.{
  CloseTask, over, Upstream, Call, result_recorded, network_settled, slot_released,
  operation_released,
}

abbrev pub is_result : Call → Bool
is_result (result_recorded ok detail) = true
is_result _ = false

abbrev pub is_network : Call → Bool
is_network (network_settled success) = true
is_network _ = false

abbrev pub is_slot : Call → Bool
is_slot slot_released = true
is_slot _ = false

abbrev pub is_operation : Call → Bool
is_operation operation_released = true
is_operation _ = false

-- How many calls of a kind there are.
abbrev pub times : (Call → Bool) → List Call → ℕ
times p [] = 0
times p (c ∷ l) = (if p c then 1 else 0) + times p l

abbrev pub due : Bool → ℕ
due b = if b then 1 else 0

abbrev pub is_over : CloseTask → Bool
is_over over = true
is_over _ = false

-- The slot is given back by the task.
abbrev slot_due : Upstream → ℕ
slot_due u = if is_over u.close_task || u.closed then 0 else due u.on_close

-- The operation is released where the body is closed.
abbrev released : Upstream → ℕ
released u = if u.closed then due u.operation else 0

-- Each call is one that was due before and is not due after.
record Balanced (u v : Upstream) (l : List Call) : Type 0 where
  network : times is_network l + due v.on_network_result ≡ due u.on_network_result
  result : times is_result l + due v.on_result ≡ due u.on_result
  slot : times is_slot l + slot_due v ≡ slot_due u
  operation : times is_operation l + released u ≡ released v
  same : v.operation ≡ u.operation

-- The task that is over has settled the exit, and closes the body if anything does.
record Fine (u : Upstream) : Type 0 where
  settled : is_over u.close_task ≡ true → u.on_network_result ≡ false
  closed_last : u.closed ≡ true → is_over u.close_task ≡ true

-- What was called on a stream: nothing twice; with the closing over, the exit has its verdict and the slot
-- is free; and the operation is released just where the body is closed.
pub record Settled (u v : Upstream) (l : List Call) : Type 0 where
  result_once : times is_result l ≤ 1
  network_once : times is_network l ≤ 1
  slot_once : times is_slot l ≤ 1
  network_told : is_over v.close_task ≡ true → times is_network l ≡ due u.on_network_result
  slot_free : is_over v.close_task ≡ true → times is_slot l ≡ due u.on_close
  operation_once : times is_operation l ≡ (if v.closed then due u.operation else 0)
