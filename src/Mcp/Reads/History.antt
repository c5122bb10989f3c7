-- ===== src/Mcp/Reads/History.antt =====
-- crates/komodo-mcp/src/history.rs: the documents of an operation's configuration history, and how they
-- are published. What a document becomes when its credentials are taken out is an argument.
use mcp_komodo_rs.Prelude.{ℕ, Option, some, none, List, ok, err}
use mcp_komodo_rs.Prelude.Text.{Text, text}
use mcp_komodo_rs.Prelude.Tasks.{done, call, ◌>>=◌}
use mcp_komodo_rs.Mcp.Files.{FileValue}
use mcp_komodo_rs.Mcp.Tasks.Calls.{KomodoMcp, Tool, publish}

pub record HistoryByteRange : Type 0 where
  pub start : ℕ
  pub end : ℕ

pub record HistoryFormatError : Type 0 where
  pub message : Text
  pub byte_range : Option HistoryByteRange

pub record HistoryDocument : Type 0 where
  pub toml : Text
  pub credential_fields : List Text
  pub original_file : Option FileValue
  pub original_file_unavailable : Option Text
  pub format_error : Option HistoryFormatError

pub record PreparedDocument : Type 0 where
  pub toml : Text
  pub credential_fields : List Text
  pub original : Option (List ℕ)
  pub format_error : Option HistoryFormatError

abbrev pub unpublished : PreparedDocument → HistoryDocument
unpublished document = record {
  toml = document.toml;
  credential_fields = document.credential_fields;
  original_file = none;
  original_file_unavailable = none;
  format_error = document.format_error;
}

-- PreparedDocument::publish
unfoldable pub publish_document : KomodoMcp → Text → PreparedDocument → Tool HistoryDocument
publish_document handler name document = elim (document.original) [
  | none ↦ done (ok (unpublished document))
  | some bytes ↦ elim (handler.credential_files) [
    | none ↦ done (
        ok (record (unpublished document) {
          original_file_unavailable = some (text "native file transfer required");
        }))
    | some owner ↦ call (publish owner name (text "application/toml") bytes) λ reply. done (
        ok (elim reply [
          | ok file ↦ record (unpublished document) { original_file = some file }
          | err _ ↦ record (unpublished document) {
            original_file_unavailable = some (text "native file capacity unavailable");
          }
        ]))
  ]
]

-- `document.map(|doc| doc.publish(handler, name))`, of a document that is there.
unfoldable pub publish_if :
    (Text → PreparedDocument) → KomodoMcp → Text → Option Text → Tool (Option HistoryDocument)
unfolding publish_document
publish_if prepare handler name none = done (ok none)
publish_if prepare handler name (some toml) = do
  document ← publish_document handler name (prepare toml)
  done (ok (some document))
