-- ===== src/Mcp/Profile/Catalog.antt =====
-- crates/komodo-mcp/src/lib.rs: what the catalog promises of `dispatch`, and what the profiles keep
-- from the administrative client.
use mcp_komodo_rs.Prelude.{
  ◌≡◌, refl, sym, ap, ◌∙◌, ◌↔◌, inl, inr, Bool, true, false, not, ◌&&◌, ◌||◌, if◌then◌else◌, some,
  List, [], ◌∷◌, all, ok, Memᴰ, mem-retain_sound, mem-retain_complete, all-mem, find_sound,
  find_complete, Option-cases, arith,
}
use mcp_komodo_rs.Prelude.Memᴰ as Memᴰ
use mcp_komodo_rs.Prelude.Text.{Text, str_eq, str_eq_sound, str_eq_iff}
use mcp_komodo_rs.Mcp.Profile.Registry.{ToolSpec, tool_registry}
use mcp_komodo_rs.Mcp.Profile.Dispatch.{
  ToolProfile, Access, profile_permits, permits, available_tools, list_tools_for_profile, Handler,
  route, lookup, dispatch, mutate, stack_config_patch, stack_compose_write, stack_environment_write,
  stack_commands_write, stack_file_write, stack_webhook_update, stack_webhook_secret_write,
}

-- No two specs have the same name.
abbrev has_distinct_names : List ToolSpec → Bool
has_distinct_names [] = true
has_distinct_names (s ∷ specs) =
    all (λ t. not (str_eq t.name s.name)) specs && has_distinct_names specs

tool_registry-distinct : has_distinct_names tool_registry ≡ true
unfolding tool_registry str_eq
tool_registry-distinct = refl

names_lem :
    (specs : List ToolSpec) (s t : ToolSpec)
    → has_distinct_names specs ≡ true
    → Memᴰ s specs
    → Memᴰ t specs
    → str_eq s.name t.name ≡ true
    → s ≡ t
names_lem [] s t distinct ms mt same = absurd (Memᴰ.not-nil ms)
names_lem (x ∷ specs) s t distinct ms mt same =
    let others : all (λ u. not (str_eq u.name x.name)) specs ≡ true = ground arith in
    elim (Memᴰ.cases_cons ms) [
      | inl s_first ↦ elim (Memᴰ.cases_cons mt) [
        | inl t_first ↦ s_first ∙ sym t_first
        | inr mt ↦ absurd (
            ground (
              arith,
              all-mem (λ u. not (str_eq u.name x.name)) t specs others mt,
              ap (λ u. str_eq u.name t.name) s_first,
              str_eq_iff x.name t.name,
              str_eq_iff t.name x.name,
            ))
      ]
      | inr ms ↦ elim (Memᴰ.cases_cons mt) [
        | inl t_first ↦ absurd (
            ground (
              arith,
              all-mem (λ u. not (str_eq u.name x.name)) s specs others ms,
              ap (λ u. str_eq s.name u.name) t_first,
            ))
        | inr mt ↦ names_lem specs s t (ground arith) ms mt same
      ]
    ]

abbrev bool_eq : Bool → Bool → Bool
bool_eq true b = b
bool_eq false b = not b

-- A profile permits every tool that only reads.
reads_permitted :
    (profile : ToolProfile) (spec : ToolSpec)
    → spec.behavior.read_only ≡ true
    → profile_permits profile spec ≡ true
unfolding profile_permits
reads_permitted ToolProfile.status spec reads = reads
reads_permitted ToolProfile.read_only spec reads = reads
reads_permitted ToolProfile.operations spec reads = ground arith
reads_permitted ToolProfile.full spec reads = refl

abbrev offered : Access → ToolProfile
offered handler = if not handler.has_admin then ToolProfile.read_only else handler.profile

-- What the catalog filters by is what `dispatch` filters by.
offered_lem :
    (handler : Access) (spec : ToolSpec)
    → profile_permits (offered handler) spec ≡ permits handler spec
unfolding permits profile_permits
offered_lem handler spec = ground (arith, reads_permitted handler.profile spec)

-- The catalog of a handler lists exactly the tools of the registry that the handler permits.
pub available_tools_iff :
    (handler : Access) (spec : ToolSpec)
    → Memᴰ spec (available_tools handler)
      ↔ (Memᴰ spec tool_registry × (permits handler spec ≡ true))
unfolding available_tools list_tools_for_profile
available_tools_iff handler spec = (
  λ m.
      let (listed, passes) =
        mem-retain_sound (profile_permits (offered handler)) spec tool_registry m in
      (listed, sym (offered_lem handler spec) ∙ passes),
  λ h.
      mem-retain_complete (profile_permits (offered handler)) spec tool_registry h.0
        (offered_lem handler spec ∙ h.1),
)

-- A handler dispatches a name to a tool exactly when its catalog lists that tool under that name.
pub lookup_iff :
    (handler : Access) (name : Text) (spec : ToolSpec)
    → (lookup handler name ≡ some spec) ↔ (Memᴰ spec (available_tools handler) × (spec.name ≡ name))
unfolding lookup
lookup_iff handler name spec = (
  λ h.
      let (listed, passes) =
        find_sound (λ s. str_eq s.name name && permits handler s) spec tool_registry h in
      (
        (available_tools_iff handler spec).1 (listed, ground arith),
        str_eq_sound spec.name name (ground arith),
      ),
  λ (listed, named).
      let (registered, permitted) = (available_tools_iff handler spec).0 listed in
      find_complete (λ s. str_eq s.name name && permits handler s) spec tool_registry registered
        (ground (arith, str_eq_iff spec.name name))
        λ other m passes.
          names_lem tool_registry other spec tool_registry-distinct m registered
            (ground (arith, str_eq_iff other.name name, str_eq_iff other.name spec.name)),
)

-- The methods that call the administrative client.
unfoldable pub submits : Handler → Bool
submits (mutate action) = true
submits stack_config_patch = true
submits stack_compose_write = true
submits stack_environment_write = true
submits stack_commands_write = true
submits stack_file_write = true
submits stack_webhook_update = true
submits stack_webhook_secret_write = true
submits _ = false

-- Whether a method submits is what the behavior of its tool says.
behaviors :
    all (λ spec. bool_eq (submits (route spec.kind)) (not spec.behavior.read_only)) tool_registry
    ≡ true
unfolding submits route tool_registry
behaviors = refl

-- The handler has no administrative client, or its profile is one for reads.
abbrev pub reads_only : Access → Bool
reads_only handler =
    not handler.has_admin
    || elim handler.profile [ ToolProfile.status ↦ true | ToolProfile.read_only ↦ true | _ ↦ false ]

reads_only_lem :
    (handler : Access) (spec : ToolSpec)
    → reads_only handler ≡ true
    → permits handler spec ≡ true
    → spec.behavior.read_only ≡ true
unfolding permits profile_permits
reads_only_lem handler spec reads h = ground arith

-- A handler without the administrative client, and one whose profile is for reads, dispatches only to
-- methods that do not submit.
pub reads_dispatch :
    (handler : Access) (name : Text) (method : Handler)
    → reads_only handler ≡ true
    → dispatch handler name ≡ ok method
    → submits method ≡ false
unfolding dispatch
reads_dispatch handler name method reads h = elim (Option-cases (lookup handler name)) [
  | inl missing ↦ absurd (cc (rw missing at h))
  | inr (spec, found) ↦
      let (listed, named) = (lookup_iff handler name spec).0 found in
      let (registered, permitted) = (available_tools_iff handler spec).0 listed in
      let e : route spec.kind ≡ method = cc (rw found at h) in
      rw (sym e) (
        ground (
          arith,
          all-mem (λ s. bool_eq (submits (route s.kind)) (not s.behavior.read_only)) spec
              tool_registry behaviors registered,
          reads_only_lem handler spec reads permitted,
        ))
]
