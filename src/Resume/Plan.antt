-- ===== src/Resume/Plan.antt =====
-- Reading a plan: `asStringMap` and `toolCallsFromPlan` of go/trajir/resume/step.go.
use trajectory_irmrd.Base.{
  Option, none, some, List, [], ◌∷◌, if◌then◌else◌, ◌==◌, Str, str, str_eq, Value, null, obj,
  Fields, end, Items, nil, cons, get, get_text, as_arr, Result, ok, err, and_then, or_fail,
  not_object, missing_tool_calls, tool_calls_not_list, missing_tool_name,
}

-- `toolCall`; nil arguments are `none`.
pub record ToolCall : Type 0 where
  pub name : Str
  pub args : Option Fields

unfoldable pub as_string_map : Value → Result Fields
as_string_map null = ok end
as_string_map (obj m) = ok m
as_string_map _ = err not_object

-- The arguments of a call: a missing or nil entry stays nil.
abbrev pub call_args : Option Value → Result (Option Fields)
call_args none = ok none
call_args (some null) = ok none
call_args (some v) = and_then (as_string_map v) (λ m. ok (some m))

unfoldable pub tool_call_of : Value → Result ToolCall
unfolding as_string_map
tool_call_of item = and_then (as_string_map item) (λ m.
    if get_text (str "name") m == []
    then err missing_tool_name
    else and_then (call_args (get (str "args") m))
        (λ args. ok (record { name = get_text (str "name") m; args = args })))

unfoldable pub tool_calls_of : Items → Result (List ToolCall)
unfolding tool_call_of
tool_calls_of nil = ok []
tool_calls_of (cons item items) =
    and_then (tool_call_of item)
      (λ call. and_then (tool_calls_of items) (λ calls. ok (call ∷ calls)))

unfoldable pub tool_calls_from_plan : Fields → Result (List ToolCall)
unfolding tool_calls_of
tool_calls_from_plan plan =
    and_then (or_fail missing_tool_calls (get (str "tool_calls") plan))
      (λ raw. and_then (or_fail tool_calls_not_list (as_arr raw)) tool_calls_of)
