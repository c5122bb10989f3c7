-- ===== src/Api/Inventory/Examples.antt =====
-- crates/komodo-api/src/inventory.rs: a selector on concrete resources.
use mcp_komodo_rs.Prelude.{
  ℕ, ◌≡◌, refl, ◌*◌, true, none, List, [], ◌∷◌, ok, take, drop, retain, ltb→lt,
}
use mcp_komodo_rs.Prelude.Text.{Text, text, len}
use mcp_komodo_rs.Prelude.Tasks.{result}
use mcp_komodo_rs.Api.Resources.{ResourceListItem}
use mcp_komodo_rs.Api.Types.{selector}
use mcp_komodo_rs.Api.Inventory.Pages.{
  page_size, Request, Answer, lists_names, lists_page, lists_all, core_2_3_or_later, is_refused,
  is_object_id, inventory_inner,
}
use mcp_komodo_rs.Api.Inventory.Resolve.{is_named}
use mcp_komodo_rs.Api.Inventory.Complete.{inventory_resolves}

abbrev named : Text → ResourceListItem ℕ
named name = record {
  id = name;
  resource_type = text "Stack";
  name = name;
  template = none;
  tags = none;
  info = 0;
}

abbrev core : List (ResourceListItem ℕ)
core = named (text "Web") ∷ named (text "web-2") ∷ []

abbrev answers : (r : Request) → Answer ℕ r
answers (lists_names name) = ok []
answers (lists_page terms number) = ok (take page_size (drop (page_size * number) core))
answers lists_all = ok core
answers core_2_3_or_later = ok true

inventory_resolves_example :
    result answers (inventory_inner (selector (text "web")))
    ≡ ok (record { items = take 2 (retain (is_named (text "web")) core); next_page = none })
unfolding is_refused is_object_id len
inventory_resolves_example =
    inventory_resolves (text "web") core answers (λ n. refl) refl refl refl (ltb→lt _ _ refl)
