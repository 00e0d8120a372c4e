-- ===== src/Chat/Effort.antt =====
-- app/openai_compat.py: `_apply_reasoning_params`, which checks the three ways to ask for an effort and
-- writes the effort into the body of the upstream's protocol.
pub mod Valid
use zcode2api.Prelude.{
  String, Bool, true, false, Option, none, some, List, [], ◌∷◌, ◌++◌, if◌then◌else◌, str_eq, member,
  concat, not, ◌&&◌, ◌||◌, or_else, is_empty, all, any, find_first,
}
use zcode2api.Prelude.Json
use zcode2api.Prelude.Json.{
  Json, Fields, null, bool, str, obj, end, field, get, has, put, remove, object, is_obj,
}
use zcode2api.Chat.{says}

pub data Applied : Type 0 where
  applied : Fields → Applied
  refused : String → Applied

abbrev pub levels : List String
levels = "low" ∷ "high" ∷ "max" ∷ []

abbrev pub is_level : Json → Bool
is_level (str s) = member s levels
is_level _ = false

-- `key in payload and not isinstance(payload[key], dict)`
abbrev malformed : Fields → String → Bool
malformed payload key = has key payload && not (is_obj (get key payload))

abbrev effort_at : String → Json → List (String × Json)
effort_at key (obj fs) =
    if has "effort" fs then (concat (key ∷ ".effort" ∷ []), get "effort" fs) ∷ [] else []
effort_at key _ = []

abbrev own_effort : Fields → List (String × Json)
own_effort payload =
    if has "reasoning_effort" payload
    then ("reasoning_effort", get "reasoning_effort" payload) ∷ []
    else []

-- `efforts`: the fields that name an effort, with their values.
unfoldable pub efforts : Fields → List (String × Json)
efforts payload =
    own_effort payload
    ++ (effort_at "reasoning" (get "reasoning" payload)
        ++ effort_at "output_config" (get "output_config" payload))

-- `value != first` of two values of which the first is a level, a text.
abbrev pub same_level : Json → Json → Bool
same_level (str s) (str t) = str_eq s t
same_level _ _ = false

abbrev pub conflicting : List (String × Json) → Bool
conflicting [] = false
conflicting ((k, v) ∷ l) = not (all (λ e. same_level v e.1) ((k, v) ∷ l))

abbrev is_true : Json → Bool
is_true (bool true) = true
is_true _ = false

abbrev known_thinking : Json → Bool
known_thinking (obj fs) = says "enabled" (get "type" fs) || says "adaptive" (get "type" fs)
known_thinking _ = true

abbrev budget_given : Json → Bool
budget_given (obj fs) = has "budget_tokens" fs
budget_given _ = false

abbrev pub bad_level : List (String × Json) → Option (String × Json)
bad_level l = find_first (λ e. not (is_level e.1)) l

abbrev must_be_object : String → String
must_be_object key = concat (key ∷ " 必须是对象；思考等级仅支持 low/high/max" ∷ [])

-- The checks, in the order in which they are made: first those of the shape of the fields.
unfoldable pub shape_complaint : Fields → Option String
shape_complaint payload =
    if malformed payload "thinking"
    then some (must_be_object "thinking")
    else if malformed payload "output_config"
    then some (must_be_object "output_config")
    else if malformed payload "reasoning"
    then some (must_be_object "reasoning")
    else if has "enable_thinking" payload && not (is_true (get "enable_thinking" payload))
    then some "enable_thinking 仅支持 true；思考等级仅支持 low/high/max，不支持关闭"
    else if not (known_thinking (get "thinking" payload))
    then some "thinking.type 仅支持 enabled/adaptive；思考等级仅支持 low/high/max，不支持关闭"
    else none

abbrev pub level_complaint : Option (String × Json) → Bool → Bool → Option String
level_complaint (some e) conflict budget = some (concat (e.0 ∷ " 仅支持 low/high/max" ∷ []))
level_complaint none conflict budget =
    if conflict
    then some "思考等级参数冲突；各字段须使用相同的 low/high/max"
    else if budget
    then some "不支持仅设置 budget_tokens；请明确选择 low/high/max"
    else none

unfoldable pub complaint : Fields → Option String
unfolding shape_complaint efforts
complaint payload =
    let named = efforts payload in
    or_else (shape_complaint payload) (
      level_complaint (bad_level named) (conflicting named)
        (budget_given (get "thinking" payload) && is_empty named))

abbrev fields_in : Json → Fields
fields_in (obj fs) = fs
fields_in _ = end

-- `body["output_config"] = dict(out_cfg)` where it is an object, then its effort.
abbrev pub with_config : Json → Fields → Fields
with_config (obj fs) body = put "output_config" (obj fs) body
with_config _ body = body

abbrev pub with_effort : List (String × Json) → Fields → Fields
with_effort [] body = body
with_effort ((k, v) ∷ l) body =
    put "output_config" (obj (put "effort" v (fields_in (get "output_config" body)))) body

abbrev pub thinking_enabled : Json
thinking_enabled = object (("type", str "enabled") ∷ [])

abbrev is_null : Json → Bool
is_null null = true
is_null _ = false

abbrev pub wants_thinking : Fields → Bool
wants_thinking payload =
    not (is_empty (efforts payload))
    || (not (is_null (get "thinking" payload)) || is_true (get "enable_thinking" payload))

abbrev pub with_thinking : Fields → Fields → Fields
with_thinking payload body =
    if wants_thinking payload then put "thinking" thinking_enabled body else body

abbrev pub without_inputs : Fields → Fields
without_inputs body = remove "enable_thinking" (remove "reasoning" (remove "reasoning_effort" body))

-- The body of a request that passes.
unfoldable pub written : Fields → Fields → Fields
written payload body = without_inputs (
    with_thinking payload
      (with_effort (efforts payload) (with_config (get "output_config" payload) body)))

unfoldable pub apply_reasoning_params : Fields → Fields → Applied
unfolding complaint written
apply_reasoning_params payload body = elim (complaint payload) [
  | some message ↦ refused message
  | none ↦ applied (written payload body)
]
