-- ===== src/Tir/Import/Complete.antt =====
-- What an import leaves in the log.
use mathlib.Core.Path.{subst}
use trajectory_irmrd.Base.{
  ◌≡◌, ◌≢◌, sym, ap, ◌∙◌, inl, inr, Bool-cases, Option, some, List, [], ◌∷◌, arith, ◌==◌, All, Str,
  str, str_eq, ℤ, Fields, get_text, ok, lift, gets, Action, pure, raise, >>=-eq-ok, ok-injective,
  Env,
}
use trajectory_irmrd.Nodes.{Node}
use trajectory_irmrd.Nodes.Construct.{new_node-nonempty}
use trajectory_irmrd.Log.{Row, Db, append}
use trajectory_irmrd.Log.AppendOnly.{Extends-refl, IsGrown, append-IsGrown, Separated}
use trajectory_irmrd.Log.Replay.{append_inv}
use trajectory_irmrd.Log.Stored.{Holds, HaveIds, Extends-Holds, append-HaveIds, append_stores}
use trajectory_irmrd.Tir.Archive.{Member}
use trajectory_irmrd.Tir.Signature.{Crypto}
use trajectory_irmrd.Tir.Load.{Package, load}
use trajectory_irmrd.Tir.Load.Verified.{as_verification-eq-ok}
use trajectory_irmrd.Tir.Import.{store_rebuilt, import_node, import_nodes, import_package}

-- Of a table that grew from `base`: ids and slots are unique and every row has an id.
pub record IsSound (base : List Row) (db : Db) : Type 0 where
  pub grown : IsGrown base db
  pub ids : HaveIds db.rows

-- The log holds a node under the id of each record.
abbrev pub AllHeld : Db → List Fields → Type 0
AllHeld db = All (λ rec. Holds (get_text (str "id") rec) db.rows)

module _ (E : Env) (hash : (s : Str) → E.sha256_hex s ≢ []) where
  append-IsSound :
      (base : List Row) (kind : Str) (step_n : Option ℤ) (payload : Option Fields)
      (trajectory tenant : Str) (seq : ℤ) (db : Db) {n : Node}
      → IsSound base db
      → (append E kind step_n payload trajectory tenant seq db).0 ≡ ok n
      → IsSound base (append E kind step_n payload trajectory tenant seq db).1
        × Holds n.id (append E kind step_n payload trajectory tenant seq db).1.rows
  append-IsSound base kind step_n payload trajectory tenant seq db {n} s e =
      let (json, built, _, _) = append_inv E kind step_n payload trajectory tenant seq db e in
      let ne = new_node-nonempty E hash kind trajectory tenant step_n seq payload _ built in
      (
        record {
          grown = (append-IsGrown E base kind step_n payload trajectory tenant seq).at db s.grown;
          ids = append-HaveIds E kind step_n payload trajectory tenant seq db s.ids ne e;
        },
        append_stores E kind step_n payload trajectory tenant seq db s.ids ne e,
      )

  store_rebuilt-eq :
      (rec : Fields) (node : Node) (store : Action Db Node) (db : Db) {n : Node}
      → (store_rebuilt E rec node store db).0 ≡ ok n
      → (node.id ≡ get_text (str "id") rec) × (store_rebuilt E rec node store db ≡ store db)
  unfolding store_rebuilt raise
  store_rebuilt-eq rec node store db e = elim (Bool-cases (node.id == get_text (str "id") rec)) [
    | inl same ↦ (ground (arith, same), ground (arith, same))
    | inr other ↦ ground (arith, other, e)
  ]

  import_node-IsSound :
      (base : List Row) (rec : Fields) (db : Db) {n : Node}
      → IsSound base db
      → (import_node E rec db).0 ≡ ok n
      → IsSound base (import_node E rec db).1
        × Holds (get_text (str "id") rec) (import_node E rec db).1.rows
  unfolding import_node lift gets
  import_node-IsSound base rec db {n} s e =
      let kind = get_text (str "kind") rec in
      let trajectory = get_text (str "trajectory_id") rec in
      let tenant = get_text (str "tenant_id") rec in
      let step = >>=-eq-ok _ _ db e in
      let seq = >>=-eq-ok _ _ db (ap (λ p. p.0) (sym step.2) ∙ e) in
      let eq2 = step.2 ∙ seq.2 in
      let payload = >>=-eq-ok _ _ db (ap (λ p. p.0) (sym eq2) ∙ e) in
      let eq3 = eq2 ∙ payload.2 in
      let node = >>=-eq-ok _ _ db (ap (λ p. p.0) (sym eq3) ∙ e) in
      let eq4 = eq3 ∙ node.2 in
      let stored =
        store_rebuilt-eq rec node.0 (append E kind step.0 (some payload.0) trajectory tenant seq.0)
          db (ap (λ p. p.0) (sym eq4) ∙ e) in
      let whole = eq4 ∙ stored.1 in
      let accepted = ap (λ p. p.0) (sym whole) ∙ e in
      let sound =
        append-IsSound base kind step.0 (some payload.0) trajectory tenant seq.0 db s accepted in
      let (json, built, _, _) =
        append_inv E kind step.0 (some payload.0) trajectory tenant seq.0 db accepted in
      let again = as_verification-eq-ok _ node.1 in
      let same : node.0 ≡ n = ok-injective (sym again ∙ built) in
      rw whole (
        sound.0,
        subst
            (λ id.
              Holds id (append E kind step.0 (some payload.0) trajectory tenant seq.0 db).1.rows)
            (ap (λ (m : Node). m.id) (sym same) ∙ stored.0) sound.1,
      )

  import_nodes-IsSound :
      (base : List Row) (nodes : List Fields) (db : Db)
      → IsSound base db
      → (import_nodes E nodes db).0 ≡ ok tt
      → IsSound base (import_nodes E nodes db).1 × AllHeld (import_nodes E nodes db).1 nodes
  unfolding import_nodes pure
  import_nodes-IsSound base [] db s e = (s, tt)
  import_nodes-IsSound base (rec ∷ nodes) db s e =
      let (n, first, eq) = >>=-eq-ok (import_node E rec) (λ _. import_nodes E nodes) db e in
      let one = import_node-IsSound base rec db s first in
      let mid = (import_node E rec db).1 in
      let rest_ok = ap (λ p. p.0) (sym eq) ∙ e in
      let rest = import_nodes-IsSound base nodes mid one.0 rest_ok in
      let here : IsSound mid.rows mid = record {
        grown = record { grown = Extends-refl mid.rows; separated = one.0.grown.separated };
        ids = one.0.ids;
      } in
      let later = import_nodes-IsSound mid.rows nodes mid here rest_ok in
      subst (λ q. IsSound base q.1 × AllHeld q.1 (rec ∷ nodes)) (sym eq)
        (rest.0, (Extends-Holds (get_text (str "id") rec) later.0.grown.grown one.1, rest.1))

-- After an import that succeeded, whichever statements failed, the log holds a node under the id of
-- each node of the package, no earlier row is lost, and ids and slots are unique, if the log's ids
-- and slots were unique before, its rows had ids, and the hash gives no empty text.
pub import_package_complete :
    (E : Env) (C : Crypto) (files : Option (List Member)) (db : Db) {p : Package}
    → ((s : Str) → E.sha256_hex s ≢ [])
    → Separated db.rows
    → HaveIds db.rows
    → (import_package E C files db).0 ≡ ok p
    → IsGrown db.rows (import_package E C files db).1
      × AllHeld (import_package E C files db).1 p.nodes
unfolding import_package lift pure
import_package_complete E C files db {p} hash separated ids e =
    let (loaded, is_loaded, eq1) = >>=-eq-ok (lift (load E C files)) _ db e in
    let (u, all, eq2) =
      >>=-eq-ok (import_nodes E loaded.nodes) _ db (ap (λ p. p.0) (sym eq1) ∙ e) in
    let whole = eq1 ∙ eq2 in
    let same : loaded ≡ p = ok-injective (ap (λ p. p.0) (sym whole) ∙ e) in
    let s : IsSound db.rows db = record {
      grown = record { grown = Extends-refl db.rows; separated = separated };
      ids = ids;
    } in
    let r = import_nodes-IsSound E hash db.rows loaded.nodes db s all in
    subst (λ q. IsGrown db.rows q.1 × AllHeld q.1 p.nodes) (sym whole)
      (
        r.0.grown,
        subst (λ (q : Package). AllHeld (import_nodes E loaded.nodes db).1 q.nodes) same r.1,
      )
