-- ===== src/Server/Files/Admits.antt =====
-- crates/komodo-server/src/files.rs: which requests over HTTP reach a transfer.
use mcp_komodo_rs.Prelude.{
  ℕ, ◌<◌, ◌≡◌, refl, ap, ◌∙◌, Bool, true, false, ◌==◌, Option, some, none, List, [], ◌∷◌, ◌++◌,
  is_some, arith, Bool-cases, Option-cases, ◌⊎◌, inl, inr,
}
use mcp_komodo_rs.Prelude.Text.{Text, text, strip_prefix, strip_prefix-eq-some, len}
use mcp_komodo_rs.Prelude.Dict.{get, HasDistinctKeys}
use mcp_komodo_rs.Server.Files.Types.{
  http_prefix, Direction, Entry, TransferFiles, Platform, ComparesBytes,
}
use mcp_komodo_rs.Server.Files.Grants.{is_file_id, valid_grant, prune}
use mcp_komodo_rs.Server.Files.Authorize.{admits_grant}
use mcp_komodo_rs.Server.Files.Access.{Grants, valid_grant_sound, get-prune_sound}
use mcp_komodo_rs.Server.Files.Http.{
  Request, Response, status, unauthorized, method_not_allowed, only_token, bearer, direction_of,
  admits, authenticate_transfer,
}

only_token_lem :
    (values : List (Option Text)) (value token : Text)
    → only_token values (strip_prefix (text "Bearer ") value) ≡ some token
    → some value ∷ values ≡ some (text "Bearer " ++ token) ∷ []
unfolding only_token
only_token_lem [] value token h = elim (Option-cases (strip_prefix (text "Bearer ") value)) [
  | inl missing ↦ absurd (cc (rw missing at h))
  | inr (rest, e) ↦ elim (Bool-cases (len rest == 43)) [
    | inl fits ↦
        let same : rest ≡ token = cc (rw (e, fits) at h) in
        ap (λ (v : Text). some v ∷ [])
          (strip_prefix-eq-some (text "Bearer ") value rest e
            ∙ ap (λ (t : Text). text "Bearer " ++ t) same)
    | inr short ↦ absurd (cc (rw (e, short) at h))
  ]
]
only_token_lem (v ∷ values) value token h =
    elim (Option-cases (strip_prefix (text "Bearer ") value)) [
      | inl missing ↦ absurd (cc (rw missing at h))
      | inr (rest, e) ↦ absurd (cc (rw e at h))
    ]

pub bearer_sound :
    (values : List (Option Text)) (token : Text)
    → bearer values ≡ some token
    → values ≡ some (text "Bearer " ++ token) ∷ []
unfolding bearer
bearer_sound [] token h = cc h
bearer_sound (none ∷ values) token h = cc h
bearer_sound (some value ∷ values) token h = only_token_lem values value token h

module _ (p : Platform) where
  -- An upload needs an entry without bytes, and a download one with them.
  abbrev pub IsReady : Direction → Entry → Type 0
  IsReady Direction.upload entry = is_some entry.bytes ≡ false
  IsReady Direction.download entry = is_some entry.bytes ≡ true

  -- What a request shows that is admitted.
  pub record IsAdmitted (request : Request) (direction : Direction) (pruned checked : ℕ)
      (s : TransferFiles) : Type 0 where
    pub id : Text
    pub token : Text
    pub entry : Entry
    pub named : request.path ≡ http_prefix ++ id
    pub authorized : request.authorization ≡ some (text "Bearer " ++ token) ∷ []
    pub listed : get id s.entries ≡ some entry
    pub unexpired : pruned < entry.expires
    pub granted : Grants p entry token direction checked
    pub ready : IsReady direction entry

  -- What a grant shows that is admitted.
  abbrev HasGrant : Text → Text → Direction → ℕ → ℕ → TransferFiles → Type 0
  HasGrant id token direction pruned checked s =
      (entry : Entry) × (get id (prune p pruned s).entries ≡ some entry)
      × (valid_grant p entry token direction checked ≡ true)
      × IsReady direction entry

  grant_lem :
      (id token : Text) (direction : Direction) (pruned checked : ℕ) (s : TransferFiles)
      → (admits_grant p id token direction pruned checked s).0 ≡ true
      → HasGrant id token direction pruned checked s
  unfolding admits_grant
  grant_lem id token Direction.upload pruned checked s h =
      elim (Option-cases (get id (prune p pruned s).entries)) [
        | inl missing ↦ absurd (cc (rw missing at h))
        | inr (entry, found) ↦ let h' = rw found at h in (entry, found, ground arith, ground arith)
      ]
  grant_lem id token Direction.download pruned checked s h =
      elim (Option-cases (get id (prune p pruned s).entries)) [
        | inl missing ↦ absurd (cc (rw missing at h))
        | inr (entry, found) ↦ let h' = rw found at h in (entry, found, ground arith, ground arith)
      ]

  admits_grant_state :
      (id token : Text) (direction : Direction) (pruned checked : ℕ) (s : TransferFiles) (b : Bool)
      → (admits_grant p id token direction pruned checked s).0 ≡ b
      → admits_grant p id token direction pruned checked s ≡ (b, prune p pruned s)
  unfolding admits_grant
  admits_grant_state id token direction pruned checked s b h =
      ap (λ (c : Bool). (c, prune p pruned s)) h

  -- Either the request is refused, and the registry at most pruned, or the grant is admitted.
  admits_lem :
      (id token : Option Text) (direction : Direction) (pruned checked : ℕ) (s : TransferFiles)
      → (admits p id token direction pruned checked s ≡ (false, s))
        ⊎ ((admits p id token direction pruned checked s ≡ (false, prune p pruned s))
            ⊎ ((i : Text) × (t : Text) × (id ≡ some i)
                × (token ≡ some t)
                × (admits p id token direction pruned checked s ≡ (true, prune p pruned s))
                × HasGrant i t direction pruned checked s))
  unfolding admits
  admits_lem none token direction pruned checked s = inl refl
  admits_lem (some id) none direction pruned checked s = inl refl
  admits_lem (some id) (some token) direction pruned checked s = elim (Bool-cases (is_file_id id)) [
    | inr bad ↦ inl (rw bad refl)
    | inl good ↦ elim (Bool-cases (admits_grant p id token direction pruned checked s).0) [
      | inr refused ↦
          inr (inl (rw good (admits_grant_state id token direction pruned checked s false refused)))
      | inl granted ↦ inr (
          inr (
            id,
            token,
            refl,
            refl,
            rw good (admits_grant_state id token direction pruned checked s true granted),
            grant_lem id token direction pruned checked s granted,
          ))
    ]
  ]

  -- The request is refused, and the registry is as it was, or pruned.
  abbrev pub IsRefused : TransferFiles → ℕ → Response × TransferFiles → Type 0
  IsRefused s pruned r =
      (r ≡ (status method_not_allowed, s))
      ⊎ ((r ≡ (status unauthorized, s)) ⊎ (r ≡ (status unauthorized, prune p pruned s)))

  -- The request goes on to its handler.
  abbrev pub GoesOn :
      (Request → TransferFiles → Response × TransferFiles)
      → Request
      → ℕ
      → ℕ
      → TransferFiles
      → Response × TransferFiles
      → Type 0
  GoesOn next request pruned checked s r =
      (direction : Direction) × (direction_of request.method ≡ some direction)
      × IsAdmitted request direction pruned checked s
      × (r ≡ next request (prune p pruned s))

  module _ (laws : ComparesBytes p) (s : TransferFiles) (distinct : HasDistinctKeys s.entries) where
    admitted_lem :
        (request : Request) (direction : Direction) (pruned checked : ℕ) (id token : Text)
        → strip_prefix http_prefix request.path ≡ some id
        → bearer request.authorization ≡ some token
        → HasGrant id token direction pruned checked s
        → IsAdmitted request direction pruned checked s
    admitted_lem request direction pruned checked id token named given
          (entry, found, valid, ready) =
        let (listed, live) = get-prune_sound p s distinct pruned id entry found in
        record {
          id = id;
          token = token;
          entry = entry;
          named = strip_prefix-eq-some http_prefix request.path id named;
          authorized = bearer_sound request.authorization token given;
          listed = listed;
          unexpired = live;
          granted = valid_grant_sound p laws entry token direction checked valid;
          ready = ready;
        }

    -- A request for a transfer is refused, and changes at most what has expired, or goes on to its
    -- handler, and is then a PUT or a GET of the path of a file that is listed and not expired, with one
    -- authorization header, whose bearer is the token of a grant for this direction that is not
    -- expired; and the file has no bytes yet, for a PUT, or has them, for a GET.
    pub authenticate_transfer_sound :
        (next : Request → TransferFiles → Response × TransferFiles) (request : Request)
        (pruned checked : ℕ)
        → IsRefused s pruned (authenticate_transfer p next request pruned checked s)
          ⊎ GoesOn next request pruned checked s
              (authenticate_transfer p next request pruned checked s)
    unfolding authenticate_transfer
    authenticate_transfer_sound next request pruned checked =
        elim (Option-cases (direction_of request.method)) [
          | inl other ↦ rw (other, authenticate_transfer) (inl (inl refl))
          | inr (direction, chosen) ↦
              elim (admits_lem (strip_prefix http_prefix request.path)
                (bearer request.authorization) direction pruned checked s) [
                  | inl refused ↦ rw (chosen, authenticate_transfer, refused) (inl (inr (inl refl)))
                  | inr (inl refused) ↦
                      rw (chosen, authenticate_transfer, refused) (inl (inr (inr refl)))
                  | inr (inr (id, token, named, given, passed, granted)) ↦
                      rw (chosen, authenticate_transfer, passed)
                        (inr (
                          direction,
                          refl,
                          admitted_lem request direction pruned checked id token named given
                              granted,
                          refl,
                        ))
                ]
        ]
