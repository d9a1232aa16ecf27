-- ===== src/Tir/Import.antt =====
-- `Import`, go/trajir/tir/tir.go: a package is loaded with its checks, and each of its nodes is built
-- again and appended to a SQLite log.
pub mod Complete
use trajectory_irmrd.Base.{
  not, Option, some, List, [], ◌∷◌, if◌then◌else◌, ◌==◌, Str, str, str_eq, Fields, get_text, Result,
  Action, pure, raise, lift, gets, ◌>>=◌, ◌>>◌, tir_verification, Env,
}
use trajectory_irmrd.Nodes.{Node, new_node}
use trajectory_irmrd.Log.{Db, append}
use trajectory_irmrd.Tir.{at_key, as_int, as_payload, as_step_n, as_verification}
use trajectory_irmrd.Tir.Archive.{Member}
use trajectory_irmrd.Tir.Signature.{Crypto}
use trajectory_irmrd.Tir.Load.{Package, load}

module _ (E : Env) where
  -- The node's append, where the node has the id that the package gives it.
  unfoldable pub store_rebuilt : Fields → Node → Action Db Node → Action Db Node
  store_rebuilt n node store =
      if not (node.id == get_text (str "id") n) then raise tir_verification else store

  -- The body of the loop.
  unfoldable pub import_node : Fields → Action Db Node
  unfolding store_rebuilt
  import_node n =
      let kind = get_text (str "kind") n in
      let trajectory = get_text (str "trajectory_id") n in
      let tenant = get_text (str "tenant_id") n in
      do
        step_n ← lift (as_verification (as_step_n E (at_key (str "step_n") n)))
        seq ← lift (as_verification (as_int E (at_key (str "seq") n)))
        payload ← lift (as_verification (as_payload (at_key (str "payload") n)))
        node ← gets λ db.
            as_verification
              (new_node E kind trajectory tenant step_n seq (some payload) (E.now db.clock))
        store_rebuilt n node (append E kind step_n (some payload) trajectory tenant seq)

  -- The loop stops at the first error; what was appended stays.
  unfoldable pub import_nodes : List Fields → Action Db (Unit {0})
  unfolding import_node
  import_nodes [] = pure tt
  import_nodes (n ∷ nodes) = do import_node n; import_nodes nodes

  unfoldable pub import_package : Crypto → Option (List Member) → Action Db Package
  unfolding import_nodes
  import_package C files = do p ← lift (load E C files); import_nodes p.nodes; pure p
