-- ===== src/Mcp/Files.antt =====
-- crates/komodo-mcp/src/files.rs: the file metadata that the model sees.
use mcp_komodo_rs.Prelude.{ℕ, Option}
use mcp_komodo_rs.Prelude.Text.{Text}

pub record FileDigest : Type 0 where
  pub algorithm : Text
  pub value : Text

pub record FileValue : Type 0 where
  pub uri : Text
  pub name : Option Text
  pub mime_type : Option Text
  pub size : Option ℕ
  pub digest : Option FileDigest
