-- ===== src/Redact.antt =====
-- Secret and thought scrubbing, go/trajir/redact/redact.go.
pub mod Pattern
pub mod Secrets
pub mod Clean
mod Tests
use trajectory_irmrd.Base.{
  Bool, true, false, Option, none, some, List, [], ◌∷◌, if◌then◌else◌, ◌==◌, Str, str, str_eq,
  Value, null, bool, int, float, text, arr, slice, obj, Items, nil, cons, Fields, end, field, get,
  put, get_text, or_null, as_obj, as_arr,
}
use trajectory_irmrd.Redact.Secrets.{is_secret_key, is_secret_value}

abbrev pub redacted : Str
redacted = str "[REDACTED]"

-- A map's values are scrubbed under their own keys; a list's under the key of the list.
unfoldable mutual
  pub redact_value : Str → Value → Value
  redact_value key null = if is_secret_key key then text redacted else null
  redact_value key (bool b) = if is_secret_key key then text redacted else bool b
  redact_value key (int n) = if is_secret_key key then text redacted else int n
  redact_value key (float x) = if is_secret_key key then text redacted else float x
  redact_value key (text s) =
      if is_secret_key key
      then text redacted
      else if is_secret_value s
      then text redacted
      else text s
  redact_value key (arr xs) =
      let out = redact_items key xs in if is_secret_key key then text redacted else arr out
  redact_value key (slice xs) = if is_secret_key key then text redacted else slice xs
  redact_value key (obj m) =
      let out = redact_fields m in if is_secret_key key then text redacted else obj out

  pub redact_items : Str → Items → Items
  redact_items key nil = nil
  redact_items key (cons v xs) = cons (redact_value key v) (redact_items key xs)

  pub redact_fields : Fields → Fields
  redact_fields end = end
  redact_fields (field k v m) = field k (redact_value k v) (redact_fields m)

abbrev pub redacted_map : Fields
redacted_map = field (str "redacted") (bool true) end

unfoldable pub redact_payload : Str → Value → Fields
redact_payload kind payload =
    if kind == str "THOUGHT"
    then redacted_map
    else elim (as_obj payload) [ none ↦ redacted_map | some m ↦ redact_fields m ]

-- The items of a context: those that are no maps are dropped.
unfoldable pub redact_context_items : Items → Items
redact_context_items nil = nil
redact_context_items (cons (obj item) xs) =
    cons
      (obj (
        put (str "payload")
          (obj (redact_payload (get_text (str "kind") item) (or_null (get (str "payload") item))))
          item))
      (redact_context_items xs)
redact_context_items (cons _ xs) = redact_context_items xs

-- A nil context is `none`.
unfoldable pub redact_projection_context : Option Fields → Fields
redact_projection_context none = redacted_map
redact_projection_context (some context) = elim (as_arr (or_null (get (str "items") context))) [
  | none ↦ put (str "redacted") (bool true) (redact_fields context)
  | some items ↦
      put (str "redacted") (bool true)
        (put (str "items") (arr (redact_context_items items)) context)
]
