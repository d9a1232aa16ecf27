-- ===== src/Log/Table.antt =====
-- The table `nodes` of go/trajir/log/log.go: its columns, its unique keys, and what its queries select.
use trajectory_irmrd.Base.{
  ℕ, Bool, true, false, ◌&&◌, ◌||◌, Option, none, some, List, [], ◌∷◌, ◌++◌, if◌then◌else◌, Eq,
  ◌==◌, any, filter, Str, str, str_eq, ℤ, int_eq, option_eq, minus_one, lt_int, Value, null, int,
  obj, Fields, end, sort_by, Result, ok, err, Action, json_unmarshal,
}
use trajectory_irmrd.Nodes.{Node}

-- A row of `nodes`; a NULL step is `none`.
pub record Row : Type 0 where
  pub id : Str
  pub trajectory_id : Str
  pub tenant_id : Str
  pub step_n : Option ℤ
  pub seq : ℤ
  pub kind : Str
  pub payload_json : Str
  pub ts : ℕ

-- The table, and how many statements have been executed.
pub record Db : Type 0 where
  pub rows : List Row
  pub clock : ℕ

-- `IFNULL(step_n, -1)` and `COALESCE(step_n, -1)`
unfoldable pub step_key : Option ℤ → ℤ
step_key none = minus_one
step_key (some n) = n

-- The columns of the unique index `idx_nodes_slot`.
pub record Slot : Type 0 where
  pub tenant : Str
  pub trajectory : Str
  pub step : ℤ
  pub seq : ℤ
  pub kind : Str

slot_dec : Discrete Slot
unfolding str_eq int_eq
slot_dec = hlevel (str_eq.dec, int_eq.dec)

instance unfoldable pub slot_eq : Eq Slot
unfolding slot_dec
slot_eq = record { dec = slot_dec }

abbrev pub slot_of : Row → Slot
slot_of r = record {
  tenant = r.tenant_id;
  trajectory = r.trajectory_id;
  step = step_key r.step_n;
  seq = r.seq;
  kind = r.kind;
}

-- A new row breaks a unique key that an old one holds: the primary key or the slot index.
unfoldable pub conflicts : Row → Row → Bool
conflicts new old = old.id == new.id || slot_of old == slot_of new

unfoldable pub row_of : Node → Str → Row
row_of n payload_json = record {
  id = n.id;
  trajectory_id = n.trajectory_id;
  tenant_id = n.tenant_id;
  step_n = n.step_n;
  seq = n.seq;
  kind = n.kind;
  payload_json = payload_json;
  ts = n.ts;
}

-- A row with this id.
abbrev pub has_id : Str → Row → Bool
has_id id r = r.id == id

-- The id of the row at a slot, and the empty string where there is none.
unfoldable pub owner_in : Slot → List Row → Str
owner_in s [] = []
owner_in s (r ∷ rows) = if slot_of r == s then r.id else owner_in s rows

-- `json.Unmarshal` into a map: a JSON null leaves the nil map, which reads as an empty one.
abbrev pub decoded_map : Value → Result Fields
decoded_map null = ok end
decoded_map (obj m) = ok m
decoded_map _ = err json_unmarshal

abbrev pub step_value : Option ℤ → Value
step_value none = null
step_value (some n) = int n

-- A tenant or sequence filter that may be absent.
abbrev pub matches {ℓ} : {A : Type ℓ} ⦃e : Eq A⦄ → Option A → A → Bool
matches none a = true
matches (some b) a = a == b

-- ORDER BY COALESCE(step_n, -1), seq. Rows that tie, whose order SQL leaves open, stay as inserted.
unfoldable pub row_less : Row → Row → Bool
row_less a b =
    lt_int (step_key a.step_n) (step_key b.step_n)
    || (step_key a.step_n == step_key b.step_n && lt_int a.seq b.seq)

-- INSERT OR IGNORE, and the number of rows affected (one or none).
unfoldable pub insert_or_ignore : Row → Action Db Bool
insert_or_ignore row db =
    if any (conflicts row) db.rows
    then (ok false, db)
    else (ok true, record db { rows = db.rows ++ row ∷ [] })

-- SELECT 1 ... step_n = ? AND kind = 'TOOL_CALL' AND seq = ?. A NULL step equals no number.
unfoldable pub is_claimed : ℤ → Str → Str → ℤ → Row → Bool
is_claimed step_n trajectory tenant seq r =
    r.tenant_id == tenant
    && r.trajectory_id == trajectory
    && r.step_n == some step_n
    && r.kind == str "TOOL_CALL"
    && r.seq == seq

-- The WHERE clause that `has` builds.
unfoldable pub has_row : Str → Option Str → ℤ → Str → Option ℤ → Row → Bool
has_row trajectory tenant step_n kind seq r =
    r.trajectory_id == trajectory
    && r.step_n == some step_n
    && r.kind == kind
    && matches tenant r.tenant_id
    && matches seq r.seq

-- WHERE trajectory_id = ? [AND tenant_id = ?] ORDER BY ...
unfoldable pub selected : Str → Option Str → List Row → List Row
unfolding row_less
selected trajectory tenant rows =
    sort_by row_less
      (filter (λ r. r.trajectory_id == trajectory && matches tenant r.tenant_id) rows)
