-- ===== src/Gateway/Upstream.antt =====
-- app/routes/gateway.py: the endings of `_Upstream`, a stream that the upstream has begun to send: its
-- account's result, the verdict on its exit, and the closing, which a task of its own does once. A callback
-- or an operation is a flag that says whether it is there, and what is called is a list. The callbacks
-- return.
pub mod Once
mod Tests
use zcode2api.Prelude.{
  String, Bool, true, false, Option, none, some, List, [], ◌∷◌, ◌++◌, if◌then◌else◌, ◌&&◌, ◌||◌,
}

-- `_close_task`
pub data CloseTask : Type 0 where
  not_created running over : CloseTask

pub record Upstream : Type 0 where
  pub on_close : Bool
  pub on_result : Bool
  pub on_network_result : Bool
  pub cm_closed : Bool
  pub closed : Bool
  pub operation : Bool
  pub close_task : CloseTask

-- What is called: the two callbacks with their arguments, `on_close`, which gives back the slot, and
-- `release_operation`.
pub data Call : Type 0 where
  result_recorded : Bool → String → Call
  network_settled : Option Bool → Call
  slot_released operation_released : Call

abbrev pub when : Bool → Call → List Call
when b call = if b then call ∷ [] else []

-- `finish_network`
unfoldable pub finish_network : Option Bool → Upstream → Upstream × List Call
finish_network success u =
    (record u { on_network_result = false }, when u.on_network_result (network_settled success))

-- `finish_result`
unfoldable pub finish_result : Bool → String → Upstream → Upstream × List Call
unfolding finish_network
finish_result ok detail u =
    let (v, calls) =
      finish_network (if ok then some true else none) (record u { on_result = false }) in
    (v, when u.on_result (result_recorded ok detail) ++ calls)

-- `close`: the task is created by the first call.
unfoldable pub close : Upstream → Upstream × List Call
close u = elim u.close_task [
  | not_created ↦ (record u { close_task = running }, [])
  | running ↦ (u, [])
  | over ↦ (u, [])
]

-- `_close`, to its end: whether `cm.__aexit__` and `resp.aclose` returned. What others call while it waits
-- for them comes before it.
unfoldable pub close_body : Bool → Bool → Upstream → Upstream × List Call
unfolding finish_network
close_body exited body_closed u =
    if u.closed
    then (record u { close_task = over }, [])
    else (let (v, calls) = finish_network none u in
        (
          record v { cm_closed = u.cm_closed || exited; closed = body_closed; close_task = over },
          calls
              ++ (when u.on_close slot_released
                  ++ when (body_closed && u.operation) operation_released),
        ))

-- What happens to a stream, in the order in which it happens.
pub data Step : Type 0 where
  finishes_result : Bool → String → Step
  finishes_network : Option Bool → Step
  closes : Step
  task_ends : Bool → Bool → Step

-- The task ends where it runs.
abbrev pub end_task : Bool → Bool → Upstream → CloseTask → Upstream × List Call
end_task exited body_closed u running = close_body exited body_closed u
end_task exited body_closed u _ = (u, [])

unfoldable pub step : Step → Upstream → Upstream × List Call
step (finishes_result ok detail) u = finish_result ok detail u
step (finishes_network success) u = finish_network success u
step closes u = close u
step (task_ends exited body_closed) u = end_task exited body_closed u u.close_task

unfoldable pub run : List Step → Upstream → Upstream × List Call
run [] u = (u, [])
run (s ∷ l) u = let (v, calls) = step s u in let (w, more) = run l v in (w, calls ++ more)
