-- ===== src/Api/Client/Requests.antt =====
-- crates/komodo-api/src/lib.rs: the methods of `KomodoApi` for `Client`, and the requests of
-- crates/komodo-api/src/inventory.rs. The parsers of the bodies are arguments.
use mcp_komodo_rs.Prelude.{
  ℕ, Bool, true, false, if◌then◌else◌, Option, some, none, List, [], ◌∷◌, ok, err, map_ok,
}
use mcp_komodo_rs.Prelude.Int.{pos}
use mcp_komodo_rs.Prelude.Text.{Text, text}
use mcp_komodo_rs.Prelude.Tasks.{Task, done, call, attempt, ◌>>=◌}
use mcp_komodo_rs.Api.Resources.{ResourceListItem}
use mcp_komodo_rs.Api.Types.{
  Action, deploy_stack, stop_stack, deploy_deployment, variant, parameter, OperationItem,
  OperationPage, StackConfigPatch, MutationReceipt, InventoryRequest, InventoryPage,
}
use mcp_komodo_rs.Api.Stacks.{StackDetail, Log}
use mcp_komodo_rs.Api.Networks.{NetworkListItem, Network}
use mcp_komodo_rs.Api.Operations.{OperationQuery, upstream_query}
use mcp_komodo_rs.Api.Json.{
  Json, null, bool, number, string, array, object, nil, Fields, end, field, strings, patch_json,
}
use mcp_komodo_rs.Api.Errors.{ApiError}
use mcp_komodo_rs.Api.Inventory.Pages.{
  page_size, Request, Answer, lists_names, lists_page, lists_all, inventory_inner,
}
use mcp_komodo_rs.Api.Client.Http.{Libraries, Client, Web, post}
use mcp_komodo_rs.Api.Client.Version.{Cached, core_2_3_or_later}

pub record ListUpdatesResponse : Type 0 where
  pub updates : List OperationItem
  pub next_page : Option ℕ

abbrev pub page_of : ListUpdatesResponse → OperationPage
page_of response = record { operations = response.updates; next_page = response.next_page }

-- The parsers of the bodies that the methods read.
pub record Bodies : Type 0 where
  pub version : List ℕ → Option Text
  pub networks : List ℕ → Option (List NetworkListItem)
  pub network : List ℕ → Option Network
  pub updates : List ℕ → Option ListUpdatesResponse
  pub update : List ℕ → Option OperationItem
  pub stack : List ℕ → Option StackDetail
  pub log : List ℕ → Option Log
  pub update_logs : List ℕ → Option (List Log)
  pub ack : List ℕ → Option (Unit {0})
  pub receipt : List ℕ → Option MutationReceipt

abbrev pub field_1 : Text → Json → Json
field_1 key value = object (field key value end)

-- The parameters of `read`, and of the requests of the inventory.
abbrev pub unlimited : Json
unlimited = object (field (text "query") (object end) (field (text "limit") (number (pos 0)) end))

abbrev pub names_query : Text → Json
names_query name = object (
    field (text "query") (field_1 (text "names") (array (strings (name ∷ []))))
      (field (text "limit") (number (pos 0)) end))

abbrev pub terms_query : Option Text → Json
terms_query none = object end
terms_query (some name) = field_1 (text "terms") (array (strings (name ∷ [])))

abbrev pub page_query : Option Text → ℕ → Json
page_query terms number_of_page = object (
    field (text "query") (terms_query terms) (
      field (text "page") (number (pos number_of_page)) (
        field (text "limit") (number (pos page_size)) (
          field (text "sort_by") (string (text "Name"))
            (field (text "sort_desc") (bool false) end)))))

abbrev pub json_or_null : Option Json → Json
json_or_null none = null
json_or_null (some value) = value

-- The further parameters of an action.
unfoldable pub action_fields : Action → Fields
action_fields deploy_stack = field (text "services") (array nil) (field (text "stop_time") null end)
action_fields stop_stack = field (text "services") (array nil) (field (text "stop_time") null end)
action_fields deploy_deployment =
    field (text "stop_signal") null (field (text "stop_time") null end)
action_fields _ = end

module _ {Url : Type 0} (libraries : Libraries Url) (client : Client Url) (bodies : Bodies) where
  unfoldable pub read : {T : Type 0} → (List ℕ → Option T) → Text → Web Url T
  read from_slice variant = post libraries client from_slice (text "read") variant unlimited true

  -- `if self.core_2_3_or_later().await? { … } else { … }`, then the request.
  unfoldable pub read_by_version :
      {T : Type 0} → (List ℕ → Option T) → Text → Text → Json → Cached Url T
  read_by_version from_slice current older params cache = do
    checked ← core_2_3_or_later libraries client bodies.version cache
    elim (checked.0) [
      | err error ↦ done (ok (err error, checked.1))
      | ok is_current ↦
          attempt
            (post libraries client from_slice (text "read") (if is_current then current else older)
              params true)
            λ result. done (ok (result, checked.1))
    ]

  unfoldable pub networks : Text → Cached Url (List NetworkListItem)
  unfolding read_by_version
  networks server =
      read_by_version bodies.networks (text "ListNetworks") (text "ListDockerNetworks")
        (field_1 (text "server") (string server))

  unfoldable pub network : Text → Text → Cached Url Network
  unfolding read_by_version
  network server name =
      read_by_version bodies.network (text "InspectNetwork") (text "InspectDockerNetwork")
        (object (field (text "server") (string server) (field (text "network") (string name) end)))

  -- The requests of `inventory_inner` for a variant, as posts.
  unfoldable pub perform :
      {I A : Type 0}
      → (List ℕ → Option (List (ResourceListItem I)))
      → Text
      → Task Request (Answer I) ApiError A
      → Cached Url A
  perform from_slice kind (done result) cache = done (ok (result, cache))
  perform from_slice kind (call (lists_names name) k) cache =
      attempt (post libraries client from_slice (text "read") kind (names_query name) true)
        λ reply. perform from_slice kind (k reply) cache
  perform from_slice kind (call (lists_page terms page) k) cache =
      attempt (post libraries client from_slice (text "read") kind (page_query terms page) true)
        λ reply. perform from_slice kind (k reply) cache
  perform from_slice kind (call lists_all k) cache =
      attempt (read from_slice kind) λ reply. perform from_slice kind (k reply) cache
  perform from_slice kind (call Request.core_2_3_or_later k) cache =
      core_2_3_or_later libraries client bodies.version cache >>= λ checked.
      perform from_slice kind (k checked.0) checked.1

  -- `servers_inventory` and the like, each with its variant, without the timeout of `inventory`.
  unfoldable pub inventory :
      {I : Type 0}
      → (List ℕ → Option (List (ResourceListItem I)))
      → Text
      → InventoryRequest
      → Cached Url (InventoryPage I)
  unfolding perform
  inventory from_slice variant request = perform from_slice variant (inventory_inner request)

  unfoldable pub operations_query : ℕ → OperationQuery → Web Url OperationPage
  unfolding upstream_query
  operations_query page query =
      attempt
        (post libraries client bodies.updates (text "read") (text "ListUpdates")
          (object (
            field (text "query") (json_or_null (upstream_query query))
              (field (text "page") (number (pos page)) end)))
          true)
        λ result. done (map_ok page_of result)

  -- `operations`, with the default query.
  unfoldable pub operations : ℕ → Web Url OperationPage
  operations page = operations_query page (record {
    target = none;
    operation = none;
    status = none;
    success = none;
    started_after = none;
    started_before = none;
  })

  unfoldable pub update : Text → Web Url OperationItem
  update operation_id =
      post libraries client bodies.update (text "read") (text "GetUpdate")
        (field_1 (text "id") (string operation_id)) true

  unfoldable pub stack_detail : Text → Web Url StackDetail
  stack_detail selector =
      post libraries client bodies.stack (text "read") (text "GetStack")
        (field_1 (text "stack") (string selector)) true

  unfoldable pub stack_log : Text → List Text → ℕ → Bool → Web Url Log
  stack_log selector services tail timestamps =
      post libraries client bodies.log (text "read") (text "GetStackLog")
        (object (
          field (text "stack") (string selector) (
            field (text "services") (array (strings services)) (
              field (text "tail") (number (pos tail))
                (field (text "timestamps") (bool timestamps) end)))))
        true

  unfoldable pub update_logs : Text → Web Url (List Log)
  update_logs operation_id =
      post libraries client bodies.update_logs (text "read") (text "GetUpdate")
        (field_1 (text "id") (string operation_id)) true

  unfoldable pub update_stack : Text → StackConfigPatch → Web Url (Unit {0})
  update_stack id patch =
      post libraries client bodies.ack (text "write") (text "UpdateStack")
        (object (field (text "id") (string id) (field (text "config") (patch_json patch) end)))
        false

  unfoldable pub write_stack_file : Text → Text → Text → Web Url MutationReceipt
  write_stack_file selector file_path contents =
      post libraries client bodies.receipt (text "write") (text "WriteStackFileContents")
        (object (
          field (text "stack") (string selector) (
            field (text "file_path") (string file_path)
              (field (text "contents") (string contents) end))))
        false

  unfoldable pub execute : Action → Text → Web Url MutationReceipt
  execute action selector =
      post libraries client bodies.receipt (text "execute") (variant action)
        (object (field (parameter action) (string selector) (action_fields action))) false
