-- ===== src/Registry/Place.antt =====
-- Where a path is, as `normalize_ipc_path_key` of src/registry.rs finds it.
use rust_supervisor_relay.Base.{
  ◌≡◌, ◌↔◌, false, some, String, List, inl, inr, arith, Option-cases, Sum-cases,
}
use rust_supervisor_relay.Error.{ok}
use rust_supervisor_relay.Time.{OffsetDateTime}
use rust_supervisor_relay.Paths.{FileSystem, Component, parent, file_name, join}
use rust_supervisor_relay.Registry.Validate.{normalize_ipc_path_key}

-- At that time the path is no symlink, and its place is its name in the canonical path of the
-- directory that it is in.
pub record Locates (fs : FileSystem) (at : OffsetDateTime) (path place : String) : Type 0 where
  pub no_symlink : fs.is_symlink at path ≡ false
  pub directory : List Component
  pub is_parent : parent path ≡ some directory
  pub name : String
  pub is_name : file_name path ≡ some name
  pub canonical : String
  pub is_canonical : fs.canonicalize at directory ≡ inr canonical
  pub joined : place ≡ join canonical name

pub normalize_ipc_path_key_iff :
    (fs : FileSystem) (at : OffsetDateTime) (path key : String)
    → (normalize_ipc_path_key fs at path ≡ ok key) ↔ Locates fs at path key
unfolding normalize_ipc_path_key
normalize_ipc_path_key_iff fs at path key = (
  λ h. elim (Option-cases (parent path)) [
    | inl p ↦ absurd (ground arith)
    | inr (directory, p) ↦ elim (Option-cases (file_name path)) [
      | inl n ↦ absurd (ground arith)
      | inr (name, n) ↦ elim (Sum-cases (fs.canonicalize at directory)) [
        | inl (error, c) ↦ absurd (ground arith)
        | inr (canonical, c) ↦ record {
          no_symlink = ground arith;
          directory = directory;
          is_parent = p;
          name = name;
          is_name = n;
          canonical = canonical;
          is_canonical = c;
          joined = ground arith;
        }
      ]
    ]
  ],
  λ l. ground (arith, l.no_symlink, l.is_parent, l.is_name, l.is_canonical, l.joined),
)
