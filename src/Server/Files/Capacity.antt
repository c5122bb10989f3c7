-- ===== src/Server/Files/Capacity.antt =====
-- crates/komodo-server/src/files.rs: the bounds of the registry, kept by every method.
use mcp_komodo_rs.Prelude.{
  ℕ, ◌+◌, ◌^◌, ◌≤◌, ◌<◌, ◌≡◌, refl, Bool, ltb, leb, Option, some, none, [], ◌∷◌, length, Result, ok,
  err, arith, Bool-cases, Option-cases, leb→le, inl, inr, length-retain-le,
}
use mcp_komodo_rs.Prelude.Text.{Text}
use mcp_komodo_rs.Prelude.Dict.{
  Dict, get, contains_key, remove, put, retain_values, HasDistinctKeys, total,
}
use mcp_komodo_rs.Prelude.Dict.Laws.{
  remove-HasDistinctKeys, put-HasDistinctKeys, retain-HasDistinctKeys, length-remove-le, length-put,
  total-remove, total-put, AllValues, AllValues-get, AllValues-remove, AllValues-put,
  AllValues-retain,
}
use mcp_komodo_rs.Server.Files.Types.{
  Bytes, max_download_bytes, max_entries, max_stored_bytes, Error, panicked, capacity_unavailable,
  FileValue, StoredBytes, Entry, Grant, TransferFiles, Descriptor, Platform, Counts,
}
use mcp_komodo_rs.Server.Files.Grants.{
  Outcome, default, permits_of, release_bytes, release_dropped, prune, with_entry_cases, refuse_if,
  refuse_if_cases,
}
use mcp_komodo_rs.Server.Files.Authorize.{insert_new, grant_download}
use mcp_komodo_rs.Server.Files.Transfer.{
  drop_bytes, with_stored, uploaded_entry, fill_entry, take_out, published_entry, insert_stored,
  insert_published, consume,
}

abbrev pub held : Dict Entry → ℕ
held entries = total (λ entry. permits_of entry.bytes) entries

-- The bytes of an entry hold a permit for each byte, and are within the bounds of a transfer.
abbrev pub AreSized : Option StoredBytes → Type 0
AreSized none = Unit
AreSized (some stored) =
    (stored.permits ≡ length stored.bytes) × (length stored.bytes ≤ max_download_bytes)

-- `lent` permits are with bytes that have left the registry and are still being sent.
pub record IsBounded (lent : ℕ) (s : TransferFiles) : Type 0 where
  pub counted : length s.entries ≤ max_entries
  pub distinct : HasDistinctKeys s.entries
  pub balanced : s.capacity + held s.entries + lent ≡ max_stored_bytes
  pub sized : AllValues (λ entry. AreSized entry.bytes) s.entries

-- The permits that the bytes of a result hold.
abbrev pub lends : Result Error StoredBytes → ℕ
lends (ok stored) = stored.permits
lends (err e) = 0

pub default-IsBounded : IsBounded 0 default
unfolding total
default-IsBounded = record {
  counted = omega arith;
  distinct = tt;
  balanced = omega arith;
  sized = tt;
}

module _ (p : Platform) (laws : Counts p) where
  pub release_bytes_lem : (o : Option StoredBytes) (c : ℕ) → release_bytes p o c ≡ c + permits_of o
  release_bytes_lem none c = omega arith
  release_bytes_lem (some stored) c = laws.released c stored.permits

  pub release_dropped_lem :
      (keep : Entry → Bool) (m : Dict Entry) (c : ℕ)
      → release_dropped p keep m c + held (retain_values keep m) ≡ c + held m
  unfolding release_dropped total
  release_dropped_lem keep [] c = refl
  release_dropped_lem keep ((id, e) ∷ m) c = elim (Bool-cases (keep e)) [
    | inl kept ↦ rw kept (omega (arith, release_dropped_lem keep m c))
    | inr gone ↦ rw gone (
        omega (
          arith,
          release_dropped_lem keep m (release_bytes p e.bytes c),
          release_bytes_lem e.bytes c,
        ))
  ]

  pub prune-IsBounded :
      (now : ℕ) {lent : ℕ} (s : TransferFiles) → IsBounded lent s → IsBounded lent (prune p now s)
  unfolding prune
  prune-IsBounded now s v = record {
    counted = omega (arith, length-retain-le (λ (e : Text × Entry). ltb now e.1.expires) s.entries);
    distinct = retain-HasDistinctKeys (λ e. ltb now e.expires) s.entries v.distinct;
    balanced = omega (arith, release_dropped_lem (λ e. ltb now e.expires) s.entries s.capacity);
    sized = AllValues-retain (λ e. AreSized e.bytes) (λ e. ltb now e.expires) s.entries v.sized;
  }

  pub insert_new-IsBounded :
      (id : Text) (entry : Entry) {lent : ℕ} (s : TransferFiles)
      → entry.bytes ≡ none
      → IsBounded lent s
      → IsBounded lent (insert_new p id entry s).1
  unfolding insert_new refuse_if total
  insert_new-IsBounded id entry s e v = ground arith

  -- Replacing an entry, and removing one, with the capacity that this leaves.
  replace-IsBounded :
      (id : Text) (old new : Entry) (c : ℕ) {lent : ℕ} (s : TransferFiles)
      → IsBounded lent s
      → get id s.entries ≡ some old
      → AreSized new.bytes
      → c + permits_of new.bytes ≡ s.capacity + permits_of old.bytes
      → IsBounded lent (record { entries = put id new s.entries; capacity = c })
  replace-IsBounded id old new c s v e fits moved = record {
    counted = omega (arith, length-put id new s.entries, v.counted);
    distinct = put-HasDistinctKeys id new s.entries v.distinct;
    balanced =
        omega
          (arith, total-put (λ e. permits_of e.bytes) id s.entries old new e, v.balanced, moved);
    sized = AllValues-put (λ e. AreSized e.bytes) id new s.entries fits v.sized;
  }

  remove-IsBounded :
      (id : Text) (old : Entry) (c : ℕ) {lent : ℕ} (lent' : ℕ) (s : TransferFiles)
      → IsBounded lent s
      → get id s.entries ≡ some old
      → c + lent' ≡ s.capacity + permits_of old.bytes + lent
      → IsBounded lent' (record { entries = remove id s.entries; capacity = c })
  remove-IsBounded id old c lent' s v e moved = record {
    counted = omega (arith, length-remove-le id s.entries, v.counted);
    distinct = remove-HasDistinctKeys id s.entries v.distinct;
    balanced =
        omega (arith, total-remove (λ e. permits_of e.bytes) id s.entries old e, v.balanced, moved);
    sized = AllValues-remove (λ e. AreSized e.bytes) id s.entries v.sized;
  }

  sized-get :
      (id : Text) (entry : Entry) {lent : ℕ} (s : TransferFiles)
      → IsBounded lent s
      → get id s.entries ≡ some entry
      → AreSized entry.bytes
  sized-get id entry s v e = AllValues-get (λ e. AreSized e.bytes) id s.entries entry v.sized e

  pub grant_download-IsBounded :
      (owner id : Text) (grant : Grant) (d : Descriptor) {lent : ℕ} (s : TransferFiles)
      → IsBounded lent s
      → IsBounded lent (grant_download p owner id grant d s).1
  unfolding grant_download
  grant_download-IsBounded owner id grant d {lent} s v =
      with_entry_cases (λ r. IsBounded lent r.1) id _ _ s v
        λ entry found _.
          replace-IsBounded id entry (record entry { grant = some grant }) s.capacity s v found
            (sized-get id entry s v found) refl

  -- Storing bytes panics at 2 ^ 32 of them, refuses where the permits do not suffice, or takes one
  -- permit for each byte.
  pub with_stored_cases :
      {A : Type 0} (Q : Outcome A → Type 0) (bytes : Bytes)
      (act : StoredBytes → TransferFiles → Outcome A) (s : TransferFiles)
      → (2 ^ 32 ≤ length bytes → Q (err panicked, s))
      → Q (err capacity_unavailable, s)
      → ((left : ℕ)
          → left + length bytes ≡ s.capacity
          → Q (
              act
                (record { bytes = bytes; permits = length bytes })
                (record s { capacity = left })))
      → Q (with_stored p bytes act s)
  unfolding with_stored
  with_stored_cases Q bytes act s huge full stored =
      elim (Bool-cases (leb (2 ^ 32) (length bytes))) [
        | inl h ↦ rw (h, with_stored) (huge (leb→le _ _ h))
        | inr h ↦
            rw (h, with_stored)
              (elim (Option-cases (p.try_acquire_many s.capacity (length bytes))) [
                | inl none_left ↦ rw (none_left, with_stored) full
                | inr (left, got) ↦
                    rw (got, with_stored)
                      (stored left (laws.acquired s.capacity (length bytes) left got))
              ])
      ]

  pub fill_entry-IsBounded :
      (id : Text) (entry : Entry) (bytes : Bytes) {lent : ℕ} (s : TransferFiles)
      → IsBounded lent s
      → get id s.entries ≡ some entry
      → entry.bytes ≡ none
      → IsBounded lent (fill_entry p id entry bytes s).1
  unfolding fill_entry uploaded_entry
  fill_entry-IsBounded id entry bytes {lent} s v found empty =
      refuse_if_cases (λ r. IsBounded lent r.1) _ _ _ s (λ _. v)
        λ small.
          refuse_if_cases (λ r. IsBounded lent r.1) _ _ _ s (λ _. v)
            λ _.
              with_stored_cases (λ r. IsBounded lent r.1) bytes _ s (λ _. v) v
                λ left moved.
                  replace-IsBounded id entry _ left s v found (refl, ground arith) (ground arith)

  insert_stored-IsBounded :
      (owner id : Text) (file : FileValue) (now : ℕ) (bytes : Bytes) (left : ℕ) {lent : ℕ}
      (s : TransferFiles)
      → IsBounded lent s
      → length s.entries < max_entries
      → length bytes ≤ max_download_bytes
      → left + length bytes ≡ s.capacity
      → IsBounded lent
          (insert_stored p owner id file now
            (record { bytes = bytes; permits = length bytes })
            (record s { capacity = left })).1
  unfolding insert_stored drop_bytes published_entry total
  insert_stored-IsBounded owner id file now bytes left {lent} s v room small moved =
      elim (Bool-cases (contains_key id s.entries)) [
        | inl taken ↦ rw taken (record {
          counted = v.counted;
          distinct = v.distinct;
          balanced = omega (arith, laws.released left (length bytes), v.balanced);
          sized = v.sized;
        })
        | inr fresh ↦ rw fresh (record {
          counted = omega arith;
          distinct = (ground arith, v.distinct);
          balanced = omega (arith, v.balanced);
          sized = ((refl, small), v.sized);
        })
      ]

  pub insert_published-IsBounded :
      (owner id : Text) (file : FileValue) (bytes : Bytes) (now : ℕ) {lent : ℕ} (s : TransferFiles)
      → IsBounded lent s
      → length bytes ≤ max_download_bytes
      → IsBounded lent (insert_published p owner id file bytes now s).1
  unfolding insert_published
  insert_published-IsBounded owner id file bytes now {lent} s v small =
      refuse_if_cases (λ r. IsBounded lent r.1) _ _ _ s (λ _. v)
        λ room.
          with_stored_cases (λ r. IsBounded lent r.1) bytes _ s (λ _. v) v
            λ left moved.
              insert_stored-IsBounded owner id file now bytes left s v (ground arith) small moved

  pub consume-IsBounded :
      (id : Text) (entry : Entry) {lent : ℕ} (s : TransferFiles)
      → IsBounded lent s
      → get id s.entries ≡ some entry
      → IsBounded lent (consume p id entry s).1
  unfolding consume
  consume-IsBounded id entry {lent} s v found = elim (Option-cases entry.bytes) [
    | inl empty ↦
        rw (empty, consume) (remove-IsBounded id entry s.capacity lent s v found (ground arith))
    | inr (stored, full) ↦
        rw (full, consume)
          (remove-IsBounded id entry (p.release s.capacity stored.permits) lent s v found
            (ground (arith, laws.released s.capacity stored.permits)))
  ]

  pub take_out-IsBounded :
      (id : Text) (entry : Entry) {lent : ℕ} (s : TransferFiles)
      → IsBounded lent s
      → get id s.entries ≡ some entry
      → IsBounded (lent + lends (take_out p id entry s).0) (take_out p id entry s).1
  unfolding take_out
  take_out-IsBounded id entry {lent} s v found =
      remove-IsBounded id entry s.capacity _ s v found (elim (Option-cases entry.bytes) [
        | inl empty ↦ ground arith
        | inr (stored, full) ↦ ground arith
      ])
