-- ===== src/Api/Networks.antt =====
-- crates/komodo-api/src/networks.rs: the facts of networks, and `uses_current_names`.
use mcp_komodo_rs.Prelude.{
  ℕ, ◌-◌, ◌^◌, Bool, ◌&&◌, ◌||◌, ◌==◌, ltb, leb, Option, some, none, List, ◌∷◌, Result, ok,
  unwrap_or,
}
use mcp_komodo_rs.Prelude.Text.{Text, text, strip_prefix, split}
use mcp_komodo_rs.Prelude.Dict.{Dict}
use mcp_komodo_rs.Prelude.Numbers.{parse}

pub record NetworkListItem : Type 0 where
  pub name : Option Text
  pub id : Option Text
  pub created : Option Text
  pub scope : Option Text
  pub driver : Option Text
  pub enable_ipv6 : Option Bool
  pub ipam_driver : Option Text
  pub ipam_subnet : Option Text
  pub ipam_gateway : Option Text
  pub internal : Option Bool
  pub attachable : Option Bool
  pub ingress : Option Bool
  pub in_use : Option Bool

pub record IpamConfig : Type 0 where
  pub subnet : Option Text
  pub ip_range : Option Text
  pub gateway : Option Text
  pub auxiliary_addresses : Option (Dict Text)

pub record Ipam : Type 0 where
  pub driver : Option Text
  pub config : Option (List IpamConfig)
  pub options : Option (Dict Text)

pub record NetworkContainer : Type 0 where
  pub container_id : Option Text
  pub name : Option Text
  pub endpoint_id : Option Text
  pub mac_address : Option Text
  pub ipv4_address : Option Text
  pub ipv6_address : Option Text

pub record Network : Type 0 where
  pub name : Option Text
  pub id : Option Text
  pub created : Option Text
  pub scope : Option Text
  pub driver : Option Text
  pub enable_ipv6 : Option Bool
  pub ipam : Option Ipam
  pub internal : Option Bool
  pub attachable : Option Bool
  pub ingress : Option Bool
  pub containers : Option (List NetworkContainer)
  pub options : Option (Dict Text)
  pub labels : Option (Dict Text)

-- `parse::<u64>().ok()?` of two components
abbrev pub both : Result Text ℕ → Result Text ℕ → Option (ℕ × ℕ)
both (ok major) (ok minor) = some (major, minor)
both _ _ = none

abbrev pub two_components : List Text → Option (ℕ × ℕ)
two_components (major ∷ minor ∷ _) = both (parse (2 ^ 64 - 1) major) (parse (2 ^ 64 - 1) minor)
two_components _ = none

abbrev pub is_current : ℕ × ℕ → Bool
is_current (major, minor) = ltb 2 major || (major == 2 && leb 3 minor)

unfoldable pub uses_current_names : Text → Option Bool
unfolding strip_prefix split parse
uses_current_names version =
    let components = split b'.' (unwrap_or (strip_prefix (text "v") version) version) in
    elim (two_components components) [ none ↦ none | some version ↦ some (is_current version) ]
