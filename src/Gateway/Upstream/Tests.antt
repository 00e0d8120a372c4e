-- ===== src/Gateway/Upstream/Tests.antt =====
-- A stream that is ended twice, and its theorem there.
use zcode2api.Prelude.{◌≡◌, refl, true, false, some, List, [], ◌∷◌}
use zcode2api.Gateway.Upstream.{
  Upstream, not_created, result_recorded, network_settled, slot_released, operation_released,
  finish_network, finish_result, close, close_body, Step, finishes_result, closes, task_ends, step,
  run,
}

abbrev fresh : Upstream
fresh = record {
  on_close = true;
  on_result = true;
  on_network_result = true;
  cm_closed = false;
  closed = false;
  operation = true;
  close_task = not_created;
}

-- The client goes away while the stream is closed, after it was completed.
abbrev steps : List Step
steps =
    finishes_result true "HTTP 200"
    ∷ (closes ∷ (finishes_result false "gone" ∷ (closes ∷ (task_ends false true ∷ []))))

calls :
    (run steps fresh).1
    ≡ result_recorded true "HTTP 200"
      ∷ (network_settled (some true) ∷ (slot_released ∷ (operation_released ∷ [])))
unfolding run step finish_result finish_network close close_body
calls = refl
