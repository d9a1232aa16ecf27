-- ===== src/Projector/Leak.antt =====
-- The redactor on the projector's context.
use trajectory_irmrd.Base.{
  ◌≡◌, refl, false, some, List, map, nat_eq, str, str_eq, ℕ, slice, list_to_items, Fields, get, put,
  Env,
}
use trajectory_irmrd.Redact.Secrets.{is_secret_key}
use trajectory_irmrd.Redact.Pattern.{match_string}
use trajectory_irmrd.Redact.{redact_projection_context, redact_fields}
use trajectory_irmrd.Projector.{Packed, item_of, sort_nodes, projection_of}

items_key : is_secret_key (str "items") ≡ false
unfolding is_secret_key match_string nat_eq
items_key = refl

-- The items of a projection's own context come out of RedactProjectionContext as they went in, so
-- no payload among them is scrubbed: the projector's list of maps is no list of `any`.
pub redact_projection_unscrubbed :
    (E : Env) (nodes : List Fields) (budget : ℕ) (p : Packed)
    → get (str "items") (redact_projection_context (some (projection_of E nodes budget p).context))
      ≡ some (slice (list_to_items (map item_of (sort_nodes E p.included))))
unfolding redact_projection_context projection_of get put str_eq redact_fields
redact_projection_unscrubbed E nodes budget p = rw items_key refl
