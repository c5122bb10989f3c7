-- ===== src/Mcp/Reads/Networks.antt =====
-- crates/komodo-mcp/src/networks.rs: the methods that read networks.
use mcp_komodo_rs.Prelude.{
  Bool, true, false, ◌||◌, if◌then◌else◌, Option, some, none, is_some_and, is_none_or, unwrap_or,
  [], retain, sort_by, ok,
}
use mcp_komodo_rs.Prelude.Text.{Text, str_eq, str_le, contains, to_ascii_lowercase}
use mcp_komodo_rs.Prelude.Tasks.{done, call, ◌>>=◌, ◌>>◌, await}
use mcp_komodo_rs.Api.Types.{selector}
use mcp_komodo_rs.Api.Networks.{NetworkListItem}
use mcp_komodo_rs.Mcp.Inputs.Validate.{validate_query, validate_selector}
use mcp_komodo_rs.Mcp.Inputs.Window.{validate, collection_page}
use mcp_komodo_rs.Mcp.Tasks.Calls.{KomodoMcp, Tool, servers_inventory, networks, network}
use mcp_komodo_rs.Mcp.Reads.Inputs.{NetworkSearchInput, NetworkReadInput}
use mcp_komodo_rs.Mcp.Reads.Views.{NetworkSearchOutput, NetworkReadOutput}
use mcp_komodo_rs.Mcp.Reads.Methods.{answer, selected}

-- The order of networks: by name, then by id.
abbrev pub option_le : Option Text → Option Text → Bool
option_le none right = true
option_le (some left) none = false
option_le (some left) (some right) = str_le left right

unfoldable pub network_goes_before : NetworkListItem → NetworkListItem → Bool
unfolding to_ascii_lowercase str_eq str_le
network_goes_before left right =
    let l = to_ascii_lowercase (unwrap_or left.name []) in
    let r = to_ascii_lowercase (unwrap_or right.name []) in
    if str_eq l r then option_le left.id right.id else str_le l r

unfoldable pub network_matches : Option Text → NetworkListItem → Bool
unfolding to_ascii_lowercase contains
network_matches query item = is_none_or query λ query.
    is_some_and item.name (λ value. contains query (to_ascii_lowercase value))
    || is_some_and item.id (λ value. contains query (to_ascii_lowercase value))

module _ (handler : KomodoMcp) where
  unfoldable pub search_networks : NetworkSearchInput → Tool NetworkSearchOutput
  unfolding selected
  search_networks input = do
    done (validate_selector input.server)
    done (validate input.window)
    query ← done (validate_query input.query)
    server ← call (servers_inventory (selector input.server)) (selected handler input.server)
    reply ← await (networks server.id)
    items ← answer handler reply
    let listed = sort_by network_goes_before (retain (network_matches query) items)
    let selected_page = collection_page (some listed) input.window
    done (
        ok (record {
          server = record { id = server.id; name = server.name };
          items = selected_page.0;
          items_page = selected_page.1;
        }))

  unfoldable pub read_network : NetworkReadInput → Tool NetworkReadOutput
  unfolding selected
  read_network input = do
    done (validate_selector input.server)
    done (validate_selector input.network)
    server ← call (servers_inventory (selector input.server)) (selected handler input.server)
    reply ← await (network server.id input.network)
    found ← answer handler reply
    done (ok (record { server = record { id = server.id; name = server.name }; network = found }))
