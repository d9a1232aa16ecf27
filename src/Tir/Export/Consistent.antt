-- ===== src/Tir/Export/Consistent.antt =====
-- The package behind the members of an export, before the encoding.
use trajectory_irmrd.Base.{
  ◌≡◌, ◌≢◌, ◌⊎◌, refl, sym, ap, ◌∙◌, inl, inr, none, List, [], map, arith, length, All, Str, str_eq,
  Fields, ok, ok-injective, Env,
}
use trajectory_irmrd.Tir.{mode_thin, mode_fat}
use trajectory_irmrd.Tir.Load.Checks.{mode_of}
use trajectory_irmrd.Log.{Db}
use trajectory_irmrd.Tir.Load.{Package, check_package}
use trajectory_irmrd.Tir.Load.Accepted.{IsChecked, check_package-IsChecked}
use trajectory_irmrd.Tir.Export.Checked.{IsOwn, IsEmbedded, export-IsExported}
use trajectory_irmrd.Tir.Export.{
  ExportOptions, export_mode, encode_members, listed, export, manifest_of, manifest_entry,
}
use trajectory_irmrd.Log.AppendOnly.{Separated}
use trajectory_irmrd.Tir.Export.Distinct.{listed-DistinctIds}
use trajectory_irmrd.Tir.Export.Contents.{
  export_mode-cases, mode_of-manifest, tenant_of-full, check_contents-export,
}

not_empty : {mode : Str} → (mode ≡ mode_thin) ⊎ (mode ≡ mode_fat) → mode ≢ []
not_empty (inl thin) h = ground (arith, thin, h)
not_empty (inr fat) h = ground (arith, fat, h)

module _ (E : Env) where
  -- A package in memory, and the members that it is encoded into.
  pub record IsConsistent (opts : ExportOptions) (nodes : List Fields) (members : List (Str × Str))
      : Type 0 where
    pub contents : Package
    pub encoded :
        encode_members E contents.manifest contents.seals contents.artifacts_manifest contents.nodes
          contents.artifact_bytes
        ≡ ok members
    pub is_nodes : contents.nodes ≡ nodes
    pub mode : export_mode opts.mode ≡ ok (mode_of contents.manifest)
    pub entries :
        contents.artifacts_manifest ≡ map (manifest_entry contents.artifact_bytes) opts.artifacts
    pub checked : IsChecked E contents
    pub tenant : Str
    pub own : All (IsOwn E tenant) contents.nodes
    pub addressed : All (IsEmbedded E) contents.artifact_bytes

  -- The package that a successful export encodes into its members, as it stands before the
  -- encoding, names the mode of the export and lists the given artifacts, and it holds the nodes
  -- that the log listed, at least one and all of one tenant, each with the id that its own fields
  -- hash to; each DECISION has a seal with the hash of its payload; in fat mode the bytes of
  -- every listed artifact are there, under their own hash and within the limit of an entry, and
  -- in thin mode none are, if the keys of the log's table are unique.
  pub export-IsConsistent :
      (trajectory : Str) (opts : ExportOptions) (db : Db) {members : List (Str × Str)}
      {nodes : List Fields}
      → (listed E trajectory opts.tenant_id db).0 ≡ ok nodes
      → Separated db.rows
      → (export E trajectory opts db).0 ≡ ok members
      → IsConsistent opts nodes members
  unfolding check_package
  export-IsConsistent trajectory opts db {members} {nodes} is_listed separated e =
      let x = export-IsExported E trajectory opts db e in
      let same : x.nodes ≡ nodes = ok-injective (sym x.is_listed ∙ is_listed) in
      let contents : Package = record {
        manifest = manifest_of trajectory x.tenant x.mode (length x.nodes) (length x.seals);
        nodes = x.nodes;
        seals = x.seals;
        artifacts_manifest = map (manifest_entry x.embedded) opts.artifacts;
        artifact_bytes = x.embedded;
        signature = none;
      } in
      record {
        contents = contents;
        encoded = x.encoded;
        is_nodes = same;
        mode =
            x.has_mode
            ∙ ap ok (
                sym (
                  mode_of-manifest trajectory x.tenant x.mode (length x.nodes) (length x.seals)
                    (not_empty (export_mode-cases opts.mode x.has_mode))));
        entries = refl;
        checked = check_package-IsChecked E contents (
            check_contents-export E trajectory x.tenant x.mode opts x.nodes x.seals x.embedded
              (export_mode-cases opts.mode x.has_mode) (tenant_of-full x.nodes x.is_tenant)
              (listed-DistinctIds E trajectory opts.tenant_id db separated x.is_listed) x.checked
              x.made x.is_sealed);
        tenant = x.tenant;
        own = x.own;
        addressed = x.addressed;
      }
