-- ===== src/Chat/Stream/Tools.antt =====
-- app/openai_compat.py: the chunks of a stream number its tool calls, and its usage adds up.
use mathlib.Core.Path.{subst}
use zcode2api.Prelude.{
  sym, ℕ, suc, ◌-◌, ◌≡◌, refl, String, Bool, true, false, Option, none, some, List, [], ◌∷◌, ◌++◌,
  if◌then◌else◌, ◌>>=◌, ℤ, ◌+ℤ◌, is_none, ◌&&◌,
}
use zcode2api.Prelude.Json.{Json, Fields, str, get}
use zcode2api.Prelude.Number.{as_int}
use zcode2api.Chat.{part, says, finish_reason}
use zcode2api.Chat.Stream.{
  Usage, Converter, Chunk, Delta, content, reasoning, tool_start, tool_arguments, Fed, chunk,
  create, or_zero, sync_usage_total, with_prompt, with_completion, start, message_start,
  content_block_start, piece, delta_chunks, content_block_delta, message_delta, feed, relay,
  relay_all,
}

-- A call starts with the next number; arguments go to the call before the next.
abbrev pub Fits : ℕ → Delta → Type 0
Fits n (tool_start k id name) = k ≡ n
Fits n (tool_arguments k s) = k ≡ n - 1
Fits n _ = Unit

abbrev pub next : ℕ → Delta → ℕ
next n (tool_start k id name) = suc n
next n _ = n

-- The chunks start the tool calls numbered from `n` up to `m`, each with the next number, and add
-- arguments only to the call that was started last.
abbrev pub Calls : ℕ → List Chunk → ℕ → Type 0
Calls n [] m = n ≡ m
Calls n (c ∷ cs) m = Fits n c.delta × Calls (next n c.delta) cs m

-- The total is unknown as long as both counts are, and their sum from then on.
abbrev pub Sums : Usage → Type 0
Sums u = u.total_tokens ≡ (
    if is_none u.prompt_tokens && is_none u.completion_tokens
    then none
    else some (or_zero u.prompt_tokens +ℤ or_zero u.completion_tokens))

abbrev pub Good : ℕ → Fed → Type 0
Good n none = Unit
Good n (some (d, cs)) = Calls n cs d.tool_seq × Sums d.usage

bind-Good {ℓ} :
    {A : Type ℓ} (n : ℕ) (o : Option A) (f : A → Fed) → ((a : A) → Good n (f a)) → Good n (o >>= f)
bind-Good n none f h = tt
bind-Good n (some a) f h = h a

if_Good : (n : ℕ) (b : Bool) (x y : Fed) → Good n x → Good n y → Good n (if b then x else y)
if_Good n true x y hx hy = hx
if_Good n false x y hx hy = hy

with_prompt-Sums : (o : Option ℤ) (u : Usage) → Sums u → Sums (with_prompt o u)
unfolding sync_usage_total
with_prompt-Sums none u h = h
with_prompt-Sums (some n) u h = refl

with_completion-Sums : (o : Option ℤ) (u : Usage) → Sums u → Sums (with_completion o u)
unfolding sync_usage_total
with_completion-Sums none u h = h
with_completion-Sums (some n) u h = refl

message_start-Good :
    (evt : Fields) (c : Converter) → Sums c.usage → Good c.tool_seq (message_start evt c)
unfolding message_start
message_start-Good evt c h = bind-Good c.tool_seq (part "message" evt) _ λ msg.
    bind-Good c.tool_seq (part "usage" msg) _ λ u.
      bind-Good c.tool_seq (as_int (get "input_tokens" u)) _
        λ p. (refl, with_prompt-Sums p c.usage h)

if_some :
    (n : ℕ) (b : Bool) (x y : Converter × List Chunk)
    → Good n (some x)
    → Good n (some y)
    → Good n (some (if b then x else y))
if_some n true x y hx hy = hx
if_some n false x y hx hy = hy

content_block_start-Good :
    (evt : Fields) (c : Converter) → Sums c.usage → Good c.tool_seq (content_block_start evt c)
unfolding content_block_start
content_block_start-Good evt c h = bind-Good c.tool_seq (part "content_block" evt) _ λ block.
    if_some c.tool_seq (says "tool_use" (get "type" block)) _ (c, []) ((refl, refl), h) (refl, h)

-- Chunks that neither start a call nor add to another than the last.
abbrev Calm : ℕ → List Chunk → Type 0
Calm n cs = Calls n cs n

if_Calm : (n : ℕ) (b : Bool) (x y : List Chunk) → Calm n x → Calm n y → Calm n (if b then x else y)
if_Calm n true x y hx hy = hx
if_Calm n false x y hx hy = hy

piece-Calm :
    (c : Converter) (f : String → Delta) (j : Json)
    → ((s : String) → Calm c.tool_seq (chunk c (f s) none ∷ []))
    → Calm c.tool_seq (piece c f j)
piece-Calm c f (str s) h = h s
piece-Calm c f _ h = refl

delta_chunks-Calm : (delta : Fields) (c : Converter) → Calm c.tool_seq (delta_chunks delta c)
delta_chunks-Calm d c =
    if_Calm c.tool_seq (says "thinking_delta" (get "type" d)) _ _
      (piece-Calm c reasoning (get "thinking" d) (λ s. (tt, refl)))
      (if_Calm c.tool_seq (says "text_delta" (get "type" d)) _ _
        (piece-Calm c content (get "text" d) (λ s. (tt, refl)))
        (if_Calm c.tool_seq (says "input_json_delta" (get "type" d)) _ []
          (piece-Calm c (tool_arguments (c.tool_seq - 1)) (get "partial_json" d)
            (λ s. (refl, refl)))
          refl))

content_block_delta-Good :
    (evt : Fields) (c : Converter) → Sums c.usage → Good c.tool_seq (content_block_delta evt c)
unfolding content_block_delta
content_block_delta-Good evt c h =
    bind-Good c.tool_seq (part "delta" evt) _ λ delta. (delta_chunks-Calm delta c, h)

message_delta-Good :
    (evt : Fields) (c : Converter) → Sums c.usage → Good c.tool_seq (message_delta evt c)
unfolding message_delta
message_delta-Good evt c h = bind-Good c.tool_seq (part "delta" evt) _ λ delta.
    bind-Good c.tool_seq (finish_reason (get "stop_reason" delta)) _ λ reason.
      bind-Good c.tool_seq (part "usage" evt) _ λ u.
        bind-Good c.tool_seq (as_int (get "output_tokens" u)) _
          λ n. ((tt, refl), with_completion-Sums n c.usage h)

feed-Good : (evt : Fields) (c : Converter) → Sums c.usage → Good c.tool_seq (feed evt c)
unfolding feed
feed-Good evt c h =
    if_Good c.tool_seq (says "message_start" (get "type" evt)) _ _ (message_start-Good evt c h) (
      if_Good c.tool_seq (says "content_block_start" (get "type" evt)) _ _
        (content_block_start-Good evt c h)
        (if_Good c.tool_seq (says "content_block_delta" (get "type" evt)) _ _
          (content_block_delta-Good evt c h)
          (if_Good c.tool_seq (says "message_delta" (get "type" evt)) _ _
            (message_delta-Good evt c h) (refl, h))))

with_start :
    (n : ℕ) (b : Bool) (o : Fed)
    → Good n o
    → Good n (o >>= λ out. some (if b then (out.0, start out.0 ∷ out.1) else out))
unfolding start
with_start n b none g = tt
with_start n true (some (d, cs)) g = ((tt, g.0), g.1)
with_start n false (some (d, cs)) g = g

relay-Good : (evt : Fields) (c : Converter) → Sums c.usage → Good c.tool_seq (relay evt c)
unfolding relay
relay-Good evt c h =
    with_start c.tool_seq (says "message_start" (get "type" evt)) (feed evt c) (feed-Good evt c h)

Calls-append : (n m k : ℕ) (cs ds : List Chunk) → Calls n cs m → Calls m ds k → Calls n (cs ++ ds) k
Calls-append n m k [] ds h g = subst (λ x. Calls x ds k) (sym h) g
Calls-append n m k (c ∷ cs) ds h g = (h.0, Calls-append (next n c.delta) m k cs ds h.1 g)

join-Good :
    (n m : ℕ) (cs : List Chunk) (o : Fed)
    → Calls n cs m
    → Good m o
    → Good n (o >>= λ more. some (more.0, cs ++ more.1))
join-Good n m cs none h g = tt
join-Good n m cs (some (d, ds)) h g = (Calls-append n m d.tool_seq cs ds h g.0, g.1)

continue-Good :
    (n : ℕ) (o : Fed) (go : Converter → Fed)
    → Good n o
    → ((d : Converter) → Sums d.usage → Good d.tool_seq (go d))
    → Good n (o >>= λ out. go out.0 >>= λ more. some (more.0, out.1 ++ more.1))
continue-Good n none go g h = tt
continue-Good n (some (d, cs)) go g h = join-Good n d.tool_seq cs (go d) g.0 (h d g.1)

relay_all-Good :
    (evts : List Fields) (c : Converter) → Sums c.usage → Good c.tool_seq (relay_all evts c)
unfolding relay_all
relay_all-Good [] c h = (refl, h)
relay_all-Good (evt ∷ rest) c h =
    continue-Good c.tool_seq (relay evt c) (relay_all rest) (relay-Good evt c h)
      (λ d s. relay_all-Good rest d s)

-- Over a whole stream of a new converter, on which `feed` does not raise: the chunks number the tool calls
-- from zero on in the order in which the calls start, arguments go to the call that was started last, and
-- the total of the usage is unknown as long as neither count was reported, and their sum from then on.
pub relay_all-Calls :
    (evts : List Fields) (model id : String) (now : ℕ) (d : Converter) (cs : List Chunk)
    → relay_all evts (create model id now) ≡ some (d, cs)
    → Calls 0 cs d.tool_seq × Sums d.usage
relay_all-Calls evts model id now d cs e =
    subst (Good 0) e (relay_all-Good evts (create model id now) refl)
