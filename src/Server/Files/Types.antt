-- ===== src/Server/Files/Types.antt =====
-- crates/komodo-server/src/files.rs, its types and constants, and what it takes from other
-- crates.
use mcp_komodo_rs.Prelude.{
  ℕ, ◌+◌, ◌-◌, ◌*◌, ◌≤◌, ◌≡◌, ◌↔◌, Bool, true, ◌||◌, ◌==◌, Option, some, List,
}
use mcp_komodo_rs.Prelude.Text.{Text, text, is_ascii_alphanumeric}
use mcp_komodo_rs.Prelude.Dict.{Dict}
pub use mcp_komodo_rs.Mcp.Files.{FileDigest, FileValue}

abbrev pub Bytes : Type 0
Bytes = List ℕ

abbrev pub uri_prefix : Text
uri_prefix = text "mcp-file://komodo/"

abbrev pub http_prefix : Text
http_prefix = text "/file-transfers/"

abbrev pub max_upload_bytes : ℕ
max_upload_bytes = 256 * 1024

abbrev pub max_download_bytes : ℕ
max_download_bytes = 2 * 1024 * 1024

abbrev pub max_entries : ℕ
max_entries = 64

abbrev pub max_stored_bytes : ℕ
max_stored_bytes = 16 * 1024 * 1024

-- Instants and durations are in nanoseconds.
abbrev pub file_ttl : ℕ
file_ttl = 5 * 60 * 1_000_000_000

abbrev pub grant_ttl : ℕ
grant_ttl = 60 * 1_000_000_000

-- The errors, one for each message. `panicked` stands for a failed `expect`.
pub data Error : Type 0 where
  unavailable entropy_unavailable url_unavailable capacity_unavailable : Error
  metadata_exceeds unsupported_digest invalid_digest identifier_collision : Error
  upload_exceeds integrity_mismatch download_exceeds panicked : Error

pub data Direction : Type 0 where
  upload download : Direction

pub record Grant : Type 0 where
  pub hash : Bytes
  pub expires : ℕ
  pub direction : Direction

-- The bytes, and the permits that they hold until they are dropped.
pub record StoredBytes : Type 0 where
  pub bytes : Bytes
  pub permits : ℕ

pub record Entry : Type 0 where
  pub owner : Text
  pub file : FileValue
  pub bytes : Option StoredBytes
  pub expected_digest : Option Bytes
  pub expected_size : Option ℕ
  pub expires : ℕ
  pub grant : Option Grant
  pub uploaded : Bool

-- `capacity` is the number of permits that the semaphore has left.
pub record TransferFiles : Type 0 where
  pub entries : Dict Entry
  pub capacity : ℕ

pub record UploadParams : Type 0 where
  pub name : Option Text
  pub mime_type : Option Text
  pub size : Option ℕ
  pub digest : Option FileDigest

-- The JSON descriptor of a transfer, with transport "http".
pub record Descriptor : Type 0 where
  pub method : Text
  pub url : Text
  pub authorization : Text

-- The operations of other crates: sha2, subtle, base64 (URL_SAFE_NO_PAD), url, and tokio's semaphore
-- as its count of permits.
pub record Platform : Type 0 where
  pub sha256 : Bytes → Bytes
  pub ct_eq : Bytes → Bytes → Bool
  pub encode : Bytes → Text
  pub decode : Text → Option Bytes
  pub join : Text → Text → Option Text
  pub try_acquire_many : ℕ → ℕ → Option ℕ
  pub release : ℕ → ℕ → ℕ

-- What a character of an identifier may be.
abbrev pub is_id_byte : ℕ → Bool
is_id_byte b = is_ascii_alphanumeric b || (b == b'-' || b == b'_')

-- The documented behaviour of these crates that the theorems rest on, one law a hypothesis.
pub record Counts (p : Platform) : Type 0 where
  pub acquired : (n k left : ℕ) → p.try_acquire_many n k ≡ some left → left + k ≡ n
  pub acquires : (n k : ℕ) → k ≤ n → p.try_acquire_many n k ≡ some (n - k)
  pub released : (n k : ℕ) → p.release n k ≡ n + k

pub record ComparesBytes (p : Platform) : Type 0 where
  pub ct_eq_iff : (a b : Bytes) → (p.ct_eq a b ≡ true) ↔ (a ≡ b)
