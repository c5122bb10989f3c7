-- ===== src/Mcp/Reads/StackViews.antt =====
-- crates/komodo-mcp/src/lib.rs: what the methods that read a stack or the logs of an operation make of
-- the replies.
use mcp_komodo_rs.Prelude.{
  Bool, not, if◌then◌else◌, Option, some, none, List, [], ◌∷◌, map, length, is_empty,
}
use mcp_komodo_rs.Prelude.Text.{Text, text, str_eq}
use mcp_komodo_rs.Api.Resources.{ResourceListItem, StackService, StackInfo}
use mcp_komodo_rs.Api.Stacks.{StackConfigDetail, ComposeFile, StackDetail, Log}
use mcp_komodo_rs.Mcp.Inputs.Window.{CollectionWindow, collection_page}
use mcp_komodo_rs.Mcp.Reads.Normalize.{stack_health, count_service_updates}
use mcp_komodo_rs.Mcp.Reads.Inputs.{ComposeSource, configured, latest, deployed}
use mcp_komodo_rs.Mcp.Reads.Views.{
  ServiceDiagnostic, StackDiagnostics, StackConfigView, ComposeFileView, ComposeView, CommandsView,
  WebhookStatusView, LogRecordView, OperationLogsView,
}

-- The match on the two hashes.
unfoldable pub is_up_to_date : Option Text → Option Text → Option Bool
is_up_to_date (some hash) (some latest_hash) = some (str_eq hash latest_hash)
is_up_to_date _ _ = none

abbrev pub service_diagnostic : StackService → ServiceDiagnostic
service_diagnostic service = record {
  service = service.service;
  image = service.image;
  update_available = service.update_available;
}

unfoldable pub normalize_stack_diagnostics :
    ResourceListItem StackInfo → CollectionWindow → StackDiagnostics
normalize_stack_diagnostics item window =
    let info = item.info in
    let missing_files = collection_page (some info.missing_files) window in
    let services = collection_page (some info.services) window in
    record {
      id = item.id;
      name = item.name;
      state = info.state;
      health = stack_health info.state info.project_missing;
      status_message = info.status;
      service_count = length info.services;
      services_with_updates = count_service_updates info.services;
      project_missing = info.project_missing;
      missing_files = missing_files.0;
      missing_files_page = missing_files.1;
      up_to_date = is_up_to_date info.deployed_hash info.latest_hash;
      services = map service_diagnostic services.0;
      services_page = services.1;
    }

unfoldable pub webhook_secret_source : Text → Text
webhook_secret_source secret = if is_empty secret then text "inherited" else text "custom"

unfoldable pub compose_source_label : ComposeSource → Text
compose_source_label configured = text "configured"
compose_source_label latest = text "latest"
compose_source_label deployed = text "deployed"

unfoldable pub normalize_stack_config :
    Text → StackConfigDetail → CollectionWindow → StackConfigView
normalize_stack_config name config window =
    let paths = collection_page (some config.file_paths) window in
    record {
      configuration = config;
      name = name;
      files_on_host = config.files_on_host;
      run_directory = config.run_directory;
      file_paths = paths.0;
      file_paths_page = paths.1;
      env_file_path = config.env_file_path;
      webhook_enabled = config.webhook_enabled;
      webhook_force_deploy = config.webhook_force_deploy;
      webhook_secret_source = webhook_secret_source config.webhook_secret;
      has_compose_contents = not (is_empty config.file_contents);
      has_environment = not (is_empty config.environment);
      has_pre_deploy = not (is_empty config.pre_deploy.command);
      has_post_deploy = not (is_empty config.post_deploy.command);
    }

abbrev pub compose_file_view : ComposeFile → ComposeFileView
compose_file_view file = record {
  path = file.path;
  contents = file.contents;
  services = file.services;
  requires = file.requires;
}

unfoldable pub compose_files : List ComposeFile → List ComposeFileView
compose_files contents = map compose_file_view contents

abbrev pub first_path : List Text → Text
first_path [] = text "compose.yaml"
first_path (path ∷ paths) = path

-- The files of a source.
unfoldable pub source_files : ComposeSource → StackDetail → Option (List ComposeFile)
source_files configured detail =
    if is_empty detail.config.file_contents
    then some []
    else some (
        record {
          path = first_path detail.config.file_paths;
          contents = detail.config.file_contents;
          services = none;
          requires = none;
        }
        ∷ [])
source_files deployed detail = detail.info.deployed_contents
source_files latest detail = detail.info.remote_contents

unfoldable pub normalize_compose : ComposeSource → StackDetail → CollectionWindow → ComposeView
unfolding compose_files
normalize_compose source detail window =
    let files = collection_page (source_files source detail) window in
    record {
      provenance = detail.info.provenance;
      source = compose_source_label source;
      files = compose_files files.0;
      files_page = files.1;
    }

unfoldable pub normalize_commands : StackConfigDetail → CommandsView
normalize_commands config = record {
  pre_deploy = record {
    shell_mode = config.pre_deploy.shell_mode;
    path = config.pre_deploy.path;
    command = config.pre_deploy.command;
  };
  post_deploy = record {
    shell_mode = config.post_deploy.shell_mode;
    path = config.post_deploy.path;
    command = config.post_deploy.command;
  };
}

unfoldable pub normalize_webhook_status : StackConfigDetail → WebhookStatusView
normalize_webhook_status config = record {
  enabled = config.webhook_enabled;
  force_deploy = config.webhook_force_deploy;
  secret_source = webhook_secret_source config.webhook_secret;
}

abbrev pub log_record : Log → LogRecordView
log_record log = record {
  stage = log.stage;
  command = log.command;
  stdout = log.stdout;
  stderr = log.stderr;
  success = log.success;
  start_ts = log.start_ts;
  end_ts = log.end_ts;
}

unfoldable pub normalize_operation_logs : List Log → CollectionWindow → OperationLogsView
normalize_operation_logs logs window =
    let page = collection_page (some logs) window in
    record { logs = map log_record page.0; logs_page = page.1 }
