-- ===== src/Chat/Stream.antt =====
-- app/openai_compat.py: `StreamConverter`, events of the messages protocol as chunks of the chat protocol.
-- A chunk stands for the line that `_chunk` writes; `chunk_line` is that line.
pub mod Tools
use zcode2api.Prelude.{
  ℕ, suc, ◌-◌, String, Bool, true, false, Option, none, some, List, [], ◌∷◌, ◌++◌, if◌then◌else◌,
  concat, is_none, ◌&&◌, or_else, ◌>>=◌, ℤ, pos, ◌+ℤ◌,
}
use zcode2api.Prelude.Dumps.{dumps, spaced}
use zcode2api.Prelude.Json
use zcode2api.Prelude.Json.{Json, Fields, null, bool, int, str, get, object, array, is_truthy, show}
use zcode2api.Prelude.Number.{as_int}
use zcode2api.Chat.{part, says, text_of, finish_reason, response_model}

pub record Usage : Type 0 where
  pub prompt_tokens : Option ℤ
  pub completion_tokens : Option ℤ
  pub total_tokens : Option ℤ

pub record Converter : Type 0 where
  pub model : String
  pub chunk_id : String
  pub created : ℕ
  pub finish_reason : Option String
  pub usage : Usage
  pub tool_seq : ℕ

abbrev pub create : String → String → ℕ → Converter
create model chunk_id now = record {
  model = model;
  chunk_id = chunk_id;
  created = now;
  finish_reason = none;
  usage = record { prompt_tokens = none; completion_tokens = none; total_tokens = none };
  tool_seq = 0;
}

-- What a chunk adds to the message.
pub data Delta : Type 0 where
  role content reasoning : String → Delta
  tool_start : ℕ → String → String → Delta
  tool_arguments : ℕ → String → Delta
  nothing : Delta

pub record Chunk : Type 0 where
  pub id : String
  pub created : ℕ
  pub model : String
  pub delta : Delta
  pub finish_reason : Option String
  pub usage : Option Usage

-- `_chunk`; the usage goes with the chunk that ends the message.
abbrev pub chunk : Converter → Delta → Option String → Chunk
chunk c delta reason = record {
  id = c.chunk_id;
  created = c.created;
  model = c.model;
  delta = delta;
  finish_reason = reason;
  usage = if is_none reason then none else some c.usage;
}

abbrev call : List (String × Json) → Json
call l = object (("tool_calls", array (object l ∷ [])) ∷ [])

abbrev delta_json : Delta → Json
delta_json (role s) = object (("role", str s) ∷ ("content", str "") ∷ [])
delta_json (content s) = object (("content", str s) ∷ [])
delta_json (reasoning s) = object (("reasoning_content", str s) ∷ [])
delta_json (tool_start n id name) = call (
    ("index", int (pos n))
    ∷ ("id", str id)
    ∷ ("type", str "function")
    ∷ ("function", object (("name", str name) ∷ ("arguments", str "") ∷ []))
    ∷ [])
delta_json (tool_arguments n s) =
    call (("index", int (pos n)) ∷ ("function", object (("arguments", str s) ∷ [])) ∷ [])
delta_json nothing = object []

abbrev count_json : Option ℤ → Json
count_json none = null
count_json (some n) = int n

abbrev text_json : Option String → Json
text_json none = null
text_json (some s) = str s

abbrev usage_field : Option Usage → List (String × Json)
usage_field none = []
usage_field (some u) =
    (
      "usage",
      object (
          ("prompt_tokens", count_json u.prompt_tokens)
          ∷ ("completion_tokens", count_json u.completion_tokens)
          ∷ ("total_tokens", count_json u.total_tokens)
          ∷ []),
    )
    ∷ []

unfoldable pub chunk_line : Chunk → String
chunk_line c =
    let choice = object (
      ("index", int (pos 0))
      ∷ ("delta", delta_json c.delta)
      ∷ ("finish_reason", text_json c.finish_reason)
      ∷ []) in
    let payload =
      ("id", str c.id)
      ∷ ("object", str "chat.completion.chunk")
      ∷ ("created", int (pos c.created))
      ∷ ("model", str c.model)
      ∷ ("choices", array (choice ∷ []))
      ∷ usage_field c.usage in
    concat ("data: " ∷ dumps spaced (object payload) ∷ "\n\n" ∷ [])

abbrev or_zero : Option ℤ → ℤ
or_zero none = pos 0
or_zero (some n) = n

-- `_sync_usage_total`: the total is unknown as long as both counts are.
unfoldable pub sync_usage_total : Usage → Usage
sync_usage_total u = record u {
  total_tokens =
      if is_none u.prompt_tokens && is_none u.completion_tokens
      then none
      else some (or_zero u.prompt_tokens +ℤ or_zero u.completion_tokens);
}

abbrev with_prompt : Option ℤ → Usage → Usage
with_prompt none u = u
with_prompt (some n) u = sync_usage_total (record u { prompt_tokens = some n })

abbrev with_completion : Option ℤ → Usage → Usage
with_completion none u = u
with_completion (some n) u = sync_usage_total (record u { completion_tokens = some n })

-- `start`
unfoldable pub start : Converter → Chunk
start c = chunk c (role "assistant") none

-- What `feed` does at one event: the converter after it and its chunks, or `none` where it raises.
abbrev pub Fed : Type 0
Fed = Option (Converter × List Chunk)

unfoldable pub message_start : Fields → Converter → Fed
unfolding sync_usage_total
message_start evt c = do
  msg ← part "message" evt
  u ← part "usage" msg
  prompt ← as_int (get "input_tokens" u)
  some (
    record c {
      model = response_model (get "model" msg) c.model;
      chunk_id = if is_truthy (get "id" msg) then show (get "id" msg) else c.chunk_id;
      usage = with_prompt prompt c.usage;
    },
    [],
  )

abbrev pub started_block : Fields → Converter → Converter × List Chunk
started_block block c =
    if says "tool_use" (get "type" block)
    then (
      record c { tool_seq = suc c.tool_seq },
      chunk c (tool_start c.tool_seq (text_of (get "id" block)) (text_of (get "name" block))) none
          ∷ [],
    )
    else (c, [])

unfoldable pub content_block_start : Fields → Converter → Fed
content_block_start evt c = do block ← part "content_block" evt; some (started_block block c)

abbrev piece : Converter → (String → Delta) → Json → List Chunk
piece c f (str s) = chunk c (f s) none ∷ []
piece c f _ = []

abbrev pub delta_chunks : Fields → Converter → List Chunk
delta_chunks delta c =
    if says "thinking_delta" (get "type" delta)
    then piece c reasoning (get "thinking" delta)
    else if says "text_delta" (get "type" delta)
    then piece c content (get "text" delta)
    else if says "input_json_delta" (get "type" delta)
    then piece c (tool_arguments (c.tool_seq - 1)) (get "partial_json" delta)
    else []

unfoldable pub content_block_delta : Fields → Converter → Fed
content_block_delta evt c = do delta ← part "delta" evt; some (c, delta_chunks delta c)

unfoldable pub message_delta : Fields → Converter → Fed
unfolding sync_usage_total
message_delta evt c = do
  delta ← part "delta" evt
  reason ← finish_reason (get "stop_reason" delta)
  u ← part "usage" evt
  completion ← as_int (get "output_tokens" u)
  let d = record c { finish_reason = some reason; usage = with_completion completion c.usage }
  some (d, chunk d nothing (some reason) ∷ [])

-- `feed`
unfoldable pub feed : Fields → Converter → Fed
feed evt c =
    if says "message_start" (get "type" evt)
    then message_start evt c
    else if says "content_block_start" (get "type" evt)
    then content_block_start evt c
    else if says "content_block_delta" (get "type" evt)
    then content_block_delta evt c
    else if says "message_delta" (get "type" evt)
    then message_delta evt c
    else some (c, [])

-- One round of `_openai_stream_response` in routes/gateway.py: the first chunk goes out with the event
-- that names the model.
unfoldable pub relay : Fields → Converter → Fed
relay evt c = do
  out ← feed evt c
  some (if says "message_start" (get "type" evt) then (out.0, start out.0 ∷ out.1) else out)

-- The rounds of its loop, until one raises.
unfoldable pub relay_all : List Fields → Converter → Fed
relay_all [] c = some (c, [])
relay_all (evt ∷ rest) c =
    relay evt c >>= λ out. relay_all rest out.0 >>= λ more. some (more.0, out.1 ++ more.1)
