-- ===== src/Snapshot/Valid.antt =====
-- A saved session that has been checked and repaired.
use kitmux_linux.Base.{
  ℕ, ◌≡◌, ◌≤◌, refl, inl, inr, some, [], concat_map, leb, length, All, Distinct, arith,
  Option-cases,
}
use kitmux_linux.Base.Int.{pos, ◌≤ℤ◌, leb_ℤ}
use kitmux_linux.Base.Result.{ok, OnOk, guard-OnOk, bind-OnOk, bind_any-OnOk, ok-OnOk}
use kitmux_linux.Base.Unique.{insert_all_sound}
use kitmux_linux.Ids.{WorkspaceId, PaneId}
use kitmux_linux.Float.{Float}
use kitmux_linux.Snapshot.Data.{AppSnapshot}
use kitmux_linux.Text.{Text}
use kitmux_linux.Control.Frames.{Bytes}
use kitmux_linux.Snapshot.{
  non_empty, validate_workspaces, validate_snapshot, Serde, or_malformed, decode_snapshot,
  encode_snapshot, snapshot_max_bytes, snapshot_version,
}
use kitmux_linux.Snapshot.Members.{
  IsWorkspace, workspace_panes, workspace_ids, validate_workspaces-AllNamed,
}
use kitmux_linux.Snapshot.Checks.{InRange, clamp_index-InRange, at_least_lem, non_empty-length}

module _ {F : Type 0} ⦃f : Float F⦄ where
  pub record IsSnapshot (s : AppSnapshot F) : Type 0 where
    pub version : s.version ≡ pos 1
    pub active : InRange s.active_workspace_index (length s.workspaces)
    pub created : pos (length s.workspaces) ≤ℤ s.created_workspace_count
    pub workspaces : All IsWorkspace s.workspaces
    pub ids : Distinct (workspace_ids s.workspaces)
    pub panes : Distinct (concat_map workspace_panes s.workspaces)

  module _ (uuid_text : PaneId → Text) (fresh : ℕ → WorkspaceId) where
    pub validate_snapshot-IsSnapshot :
        (smallest largest : F) (snapshot : AppSnapshot F)
        → OnOk IsSnapshot (validate_snapshot uuid_text fresh smallest largest snapshot)
    unfolding validate_snapshot
    validate_snapshot-IsSnapshot smallest largest snapshot =
        guard-OnOk (non_empty snapshot.workspaces) _ _ λ some_workspace.
          bind-OnOk (validate_workspaces uuid_text fresh 0 [] [] snapshot.workspaces) _
            (validate_workspaces-AllNamed uuid_text fresh 0 [] [] snapshot.workspaces)
            λ (ws, panes) (((l, a), (d, _)), e).
              let n = non_empty-length snapshot.workspaces ws some_workspace l in
              OnOk.on_ok (record {
                version = refl;
                active = clamp_index-InRange snapshot.active_workspace_index _ n;
                created = at_least_lem snapshot.created_workspace_count _;
                workspaces = a;
                ids = d;
                panes = (insert_all_sound (concat_map workspace_panes ws) [] panes e).0;
              })

    -- What the files that are read and written hold.
    module _ (smallest largest : F) {Value : Type 0} (serde : Serde F Value) where
      decode_snapshot-IsSnapshot :
          (bytes : Bytes)
          → OnOk IsSnapshot (decode_snapshot uuid_text fresh smallest largest serde bytes)
      unfolding decode_snapshot
      decode_snapshot-IsSnapshot bytes = guard-OnOk (leb (length bytes) snapshot_max_bytes) _ _ λ _.
          bind_any-OnOk (or_malformed (serde.from_slice bytes)) _ λ value.
            bind_any-OnOk (or_malformed (serde.version_of value)) _ λ version.
              guard-OnOk (leb_ℤ version snapshot_version) _ _ λ _.
                bind_any-OnOk (or_malformed (serde.from_value value)) _
                  λ snapshot. validate_snapshot-IsSnapshot smallest largest snapshot

      -- A session that decode_snapshot returns has version 1, distinct workspace identifiers and
      -- distinct panes across all its tabs, at every level at least one member and an active
      -- index in range, the counts of created members at least the members there are, and in each
      -- tab a well-formed tree with the focus on one of its panes.
      pub decode_snapshot_sound :
          (bytes : Bytes) (s : AppSnapshot F)
          → decode_snapshot uuid_text fresh smallest largest serde bytes ≡ ok s
          → IsSnapshot s
      decode_snapshot_sound bytes s h = ok-OnOk _ s (decode_snapshot-IsSnapshot bytes) h

      -- The bytes of a valid session, few enough to be read again.
      abbrev pub IsWritten : Bytes → Type 0
      IsWritten bytes =
          (s : AppSnapshot F) × IsSnapshot s
          × (serde.to_vec_pretty s ≡ some bytes)
          × (length bytes ≤ 8388608)

      encode_snapshot-IsWritten :
          (snapshot : AppSnapshot F)
          → OnOk IsWritten (encode_snapshot uuid_text fresh smallest largest serde snapshot)
      unfolding encode_snapshot
      encode_snapshot-IsWritten snapshot =
          bind-OnOk (validate_snapshot uuid_text fresh smallest largest snapshot) _
            (validate_snapshot-IsSnapshot smallest largest snapshot)
            λ s v. elim (Option-cases (serde.to_vec_pretty s)) [
              | inl e ↦ rw e OnOk.on_err
              | inr (bytes, e) ↦ rw e (
                  guard-OnOk (leb (length bytes) snapshot_max_bytes) _ _
                    λ few. OnOk.on_ok (s, v, e, ground (arith, few)))
            ]

      -- Where encode_snapshot returns bytes, they are at most 8,388,608 and are the text of a
      -- session that is valid as the decoder leaves it: version 1, distinct identifiers, active
      -- indices in range, counts that suffice, well-formed trees with the focus on one of their
      -- panes.
      pub encode_snapshot_sound :
          (snapshot : AppSnapshot F) (bytes : Bytes)
          → encode_snapshot uuid_text fresh smallest largest serde snapshot ≡ ok bytes
          → IsWritten bytes
      encode_snapshot_sound snapshot bytes h =
          ok-OnOk _ bytes (encode_snapshot-IsWritten snapshot) h
