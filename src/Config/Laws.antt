-- ===== src/Config/Laws.antt =====
-- What a validated configuration guarantees, and which paths and proxies it lets through.
use rust_supervisor_relay.Base.{
  ◌≤◌, ◌≡◌, refl, ◌≢◌, ◌↔◌, true, false, not, String, ◌<>◌, List, [], ◌∷◌, ◌++◌, arith, All, All-In,
  In, In→any, any→In, any,
}
use rust_supervisor_relay.Error.{ok}
use rust_supervisor_relay.Paths.{
  Component, parent_dir, is_absolute, components, split, body, starts_with,
}
use rust_supervisor_relay.Paths.Laws.{
  starts_with_iff, starts_with-append, components-dot_dot, is_absolute_continued,
}
use rust_supervisor_relay.Config.{RegistrationPolicy, validate_policy, ipc_path_is_allowed}

-- A registration policy that is safe to run with.
pub record IsSafePolicy (p : RegistrationPolicy) : Type 0 where
  pub listens : is_absolute p.listen_path ≡ true
  pub some_prefix : p.allowed_ipc_path_prefixes ≢ []
  pub prefixes : All (λ path. is_absolute path ≡ true) p.allowed_ipc_path_prefixes
  pub default_pos : 1 ≤ p.default_lease_seconds
  pub default_le : p.default_lease_seconds ≤ p.max_lease_seconds

prefixes_absolute_iff :
    (paths : List String)
    → (any (λ path. not (is_absolute path)) paths ≡ false)
      ↔ All (λ path. is_absolute path ≡ true) paths
prefixes_absolute_iff [] = (λ _. tt, λ _. refl)
prefixes_absolute_iff (path ∷ paths) =
    let (there, back) = prefixes_absolute_iff paths in
    (λ h. (ground arith, there (ground arith)), λ h. ground (arith, back h.1))

-- The policy passes its validation exactly when it is safe.
pub validate_policy_iff : (p : RegistrationPolicy) → (validate_policy p ≡ ok tt) ↔ IsSafePolicy p
unfolding validate_policy
validate_policy_iff p =
    let (there, back) = prefixes_absolute_iff p.allowed_ipc_path_prefixes in
    (
      λ h. record {
        listens = ground arith;
        some_prefix = ground arith;
        prefixes = there (ground arith);
        default_pos = ground arith;
        default_le = ground arith;
      },
      λ s. ground (arith, back s.prefixes),
    )

-- Under a safe policy a path that leaves an allowed prefix by `..` is let through, and the `..`
-- stays a component of its own.
pub ipc_path_is_allowed_dot_dot :
    (p : RegistrationPolicy) (prefix rest : String)
    → IsSafePolicy p
    → In prefix p.allowed_ipc_path_prefixes
    → let path = prefix <> ("/" <> (".." <> ("/" <> rest))) in
      (ipc_path_is_allowed p path ≡ true)
      × (components path ≡ components prefix ++ parent_dir ∷ body (split rest))
unfolding ipc_path_is_allowed
ipc_path_is_allowed_dot_dot p prefix rest s m =
    let h = All-In (λ path. is_absolute path ≡ true) prefix _ s.prefixes m in
    let rest' = ".." <> ("/" <> rest) in
    (
      ground (
        arith,
        is_absolute_continued prefix rest' h,
        In→any (starts_with (prefix <> ("/" <> rest'))) prefix _ m
            (starts_with-append prefix rest' h),
      ),
      components-dot_dot prefix rest h,
    )

-- A path is allowed exactly when it is absolute and its components begin with all those of a prefix.
pub ipc_path_is_allowed_iff :
    (p : RegistrationPolicy) (path : String)
    → (ipc_path_is_allowed p path ≡ true) ↔ (
        (is_absolute path ≡ true)
        × ((prefix : String) × In prefix p.allowed_ipc_path_prefixes
            × ((rest : List Component) × (components path ≡ components prefix ++ rest))))
unfolding ipc_path_is_allowed
ipc_path_is_allowed_iff p path = (
  λ h.
      let (prefix, m, e) = any→In (starts_with path) p.allowed_ipc_path_prefixes (ground arith) in
      (ground arith, (prefix, m, (starts_with_iff path prefix).0 e)),
  λ (h, (prefix, m, e)).
      ground (arith, h, In→any (starts_with path) prefix _ m ((starts_with_iff path prefix).1 e)),
)
