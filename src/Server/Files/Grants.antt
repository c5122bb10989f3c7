-- ===== src/Server/Files/Grants.antt =====
-- crates/komodo-server/src/files.rs: the helpers of `TransferFiles`, and the pruning of expired entries.
-- Readings of the clock and of the entropy source are arguments, in the order in which they are made.
use mcp_komodo_rs.Prelude.{
  ℕ, ◌+◌, ◌≡◌, Bool, true, false, not, ◌&&◌, ◌||◌, ◌==◌, ltb, if◌then◌else◌, Option, some, none,
  is_some_and, [], ◌∷◌, ◌++◌, any, all, Result, ok, err, ◌>>=◌, ◌>>◌, refuse, ok_or, Option-cases,
  Bool-cases, inl, inr, refl,
}
use mcp_komodo_rs.Prelude.Text.{Text, text, is_control, strip_prefix, as_bytes, len}
use mcp_komodo_rs.Prelude.Dict.{Dict, get, retain_values}
use mcp_komodo_rs.Server.Files.Types.{
  Bytes, uri_prefix, http_prefix, max_upload_bytes, max_stored_bytes, grant_ttl, Error, unavailable,
  entropy_unavailable, url_unavailable, Direction, upload, download, Grant, StoredBytes, Entry,
  TransferFiles, UploadParams, Descriptor, Platform, is_id_byte,
}

abbrev pub same_direction : Direction → Direction → Bool
same_direction upload upload = true
same_direction download download = true
same_direction _ _ = false

abbrev pub default : TransferFiles
default = record { entries = []; capacity = max_stored_bytes }

-- What a method does to the registry: its result, and the state that it leaves.
abbrev pub Outcome : Type 0 → Type 0
Outcome A = Result Error A × TransferFiles

-- `id.len() != 43 || !id.bytes().all(…)` does not hold
unfoldable pub is_file_id : Text → Bool
unfolding len
is_file_id id = len id == 43 && all is_id_byte (as_bytes id)

unfoldable pub file_id : Text → Result Error Text
file_id uri = do
  id ← ok_or (strip_prefix uri_prefix uri) unavailable
  refuse (not (is_file_id id)) unavailable
  ok id

-- `v.len() > 255 || v.chars().any(char::is_control)`
unfoldable pub is_long_or_control : Text → Bool
unfolding len
is_long_or_control v = ltb 255 (len v) || any is_control v

unfoldable pub exceeds_bounds : UploadParams → Bool
unfolding is_long_or_control
exceeds_bounds params =
    is_some_and params.size (λ size. ltb max_upload_bytes size)
    || (is_some_and params.name is_long_or_control
        || is_some_and params.mime_type is_long_or_control)

-- Dropping an entry or the bytes of a transfer gives their permits back.
abbrev pub permits_of : Option StoredBytes → ℕ
permits_of none = 0
permits_of (some stored) = stored.permits

-- `if test { return Err(error); }` under the lock, and what follows.
unfoldable pub refuse_if :
    {A : Type 0} → Bool → Error → (TransferFiles → Outcome A) → TransferFiles → Outcome A
refuse_if test error rest s = if test then (err error, s) else rest s

pub refuse_if_cases :
    {A : Type 0} (Q : Outcome A → Type 0) (test : Bool) (error : Error)
    (rest : TransferFiles → Outcome A) (s : TransferFiles)
    → (test ≡ true → Q (err error, s))
    → (test ≡ false → Q (rest s))
    → Q (refuse_if test error rest s)
unfolding refuse_if
refuse_if_cases Q true error rest s refused passed = refused refl
refuse_if_cases Q false error rest s refused passed = passed refl

-- `.get(id).filter(test).ok_or_else(unavailable)?`, and what follows with the entry that it gives.
unfoldable pub with_entry :
    {A : Type 0}
    → Text
    → (Entry → Bool)
    → (Entry → TransferFiles → Outcome A)
    → TransferFiles
    → Outcome A
with_entry id test act s = elim (get id s.entries) [
  | none ↦ (err unavailable, s)
  | some entry ↦ if test entry then act entry s else (err unavailable, s)
]

-- A method that works on an entry either refuses and changes nothing, or acts on an entry that is
-- there and passes the test.
pub with_entry_cases :
    {A : Type 0} (Q : Outcome A → Type 0) (id : Text) (test : Entry → Bool)
    (act : Entry → TransferFiles → Outcome A) (s : TransferFiles)
    → Q (err unavailable, s)
    → ((entry : Entry) → get id s.entries ≡ some entry → test entry ≡ true → Q (act entry s))
    → Q (with_entry id test act s)
unfolding with_entry
with_entry_cases Q id test act s refused acted = elim (Option-cases (get id s.entries)) [
  | inl missing ↦ rw (missing, with_entry) refused
  | inr (entry, found) ↦
      rw (found, with_entry)
        (elim (Bool-cases (test entry)) [
          | inl passed ↦ rw passed (acted entry found passed)
          | inr failed ↦ rw failed refused
        ])
]

pub with_entry_acts :
    {A : Type 0} (id : Text) (test : Entry → Bool) (act : Entry → TransferFiles → Outcome A)
    (entry : Entry) (s : TransferFiles)
    → get id s.entries ≡ some entry
    → test entry ≡ true
    → with_entry id test act s ≡ act entry s
unfolding with_entry
with_entry_acts id test act entry s found passed = rw (found, with_entry, passed)

pub with_entry_refuses :
    {A : Type 0} (id : Text) (test : Entry → Bool) (act : Entry → TransferFiles → Outcome A)
    (s : TransferFiles)
    → ((entry : Entry) → get id s.entries ≡ some entry → test entry ≡ false)
    → with_entry id test act s ≡ (err unavailable, s)
unfolding with_entry
with_entry_refuses id test act s fails = elim (Option-cases (get id s.entries)) [
  | inl missing ↦ rw (missing, with_entry)
  | inr (entry, found) ↦ rw (found, with_entry, fails entry found)
]

module _ (p : Platform) where
  unfoldable pub random_id : Option Bytes → Result Error Text
  random_id entropy = do bytes ← ok_or entropy entropy_unavailable; ok (p.encode bytes)

  unfoldable pub descriptor :
      Text → Text → Direction → Option Bytes → ℕ → Result Error (Grant × Descriptor)
  unfolding random_id
  descriptor base id direction entropy now = do
    token ← random_id entropy
    url ← ok_or (p.join base (http_prefix ++ id)) url_unavailable
    ok (
      record { hash = p.sha256 (as_bytes token); expires = now + grant_ttl; direction = direction },
      record {
        method = elim direction [ upload ↦ text "PUT" | download ↦ text "GET" ];
        url = url;
        authorization = text "Bearer " ++ token;
      },
    )

  unfoldable pub valid_grant : Entry → Text → Direction → ℕ → Bool
  valid_grant entry token direction now = is_some_and entry.grant λ grant.
      same_direction grant.direction direction
      && (ltb now grant.expires && p.ct_eq (p.sha256 (as_bytes token)) grant.hash)

  abbrev pub release_bytes : Option StoredBytes → ℕ → ℕ
  release_bytes none capacity = capacity
  release_bytes (some stored) capacity = p.release capacity stored.permits

  -- The permits of the entries that `retain` drops.
  unfoldable pub release_dropped : (Entry → Bool) → Dict Entry → ℕ → ℕ
  release_dropped keep [] capacity = capacity
  release_dropped keep ((id, entry) ∷ entries) capacity =
      release_dropped keep entries
        (if keep entry then capacity else release_bytes entry.bytes capacity)

  unfoldable pub prune : ℕ → TransferFiles → TransferFiles
  unfolding release_dropped
  prune now s = record {
    entries = retain_values (λ entry. ltb now entry.expires) s.entries;
    capacity = release_dropped (λ entry. ltb now entry.expires) s.entries s.capacity;
  }
