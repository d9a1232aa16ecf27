-- ===== src/Nodes/Kinds.antt =====
-- NODE_KINDS of go/trajir/nodes/nodes.go.
use trajectory_irmrd.Base.{List, [], ◌∷◌, Str, str}

abbrev pub node_kinds : List Str
node_kinds =
    str "INPUT"
    ∷ str "CONSTRAINT"
    ∷ str "STATE_SET"
    ∷ str "PROJECT_CONTEXT"
    ∷ str "THOUGHT"
    ∷ str "DECISION"
    ∷ str "TOOL_CALL"
    ∷ str "TOOL_RESULT"
    ∷ str "ARTIFACT_PUT"
    ∷ str "ARTIFACT_REF"
    ∷ str "LTM_QUERY"
    ∷ str "LTM_HIT"
    ∷ str "LTM_PROJECT"
    ∷ str "COMMIT_STEP"
    ∷ str "ABORT"
    ∷ str "REDACTION"
    ∷ []
