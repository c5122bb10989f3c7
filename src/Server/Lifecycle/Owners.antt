-- ===== src/Server/Lifecycle/Owners.antt =====
-- crates/komodo-server/src/lifecycle.rs: whose file a custom request opens to a transfer.
use mcp_komodo_rs.Prelude.{
  ◌<◌, ◌≡◌, Option-cases, Bool-cases, sym, refl, Bool, true, false, if◌then◌else◌, Option, some, ok,
  ok_or, ok_or-ok, refuse-ok, bind_elim, Result-cases, subst, ap, ◌∙◌, inl, inr, arith, ◌++◌,
  refuse,
}
use mcp_komodo_rs.Prelude.Text.{Text, text, str_eq, str_eq_sound}
use mcp_komodo_rs.Api.Json.{Json, bool, string, array, Items, nil, item, get}
use mcp_komodo_rs.Mcp.Execution.{has_ended}
use mcp_komodo_rs.Mcp.Files.{FileValue}
use mcp_komodo_rs.Server.Files.Types.{Direction, TransferFiles, Descriptor, Platform}
use mcp_komodo_rs.Server.Lifecycle.Limits.{RequestLease}
use mcp_komodo_rs.Server.Lifecycle.Opened.{IsOpened, Opens, authorize-Opens}
use mcp_komodo_rs.Server.Lifecycle.Scoped.{
  Parts, CustomRequest, Readings, context_unavailable, owner_unavailable, lifetime_unavailable,
  lifetime_ended, origin_unavailable, method_not_found, transport_unsupported, direction_of_method,
  supports_http, direction_name, any_http, lists_http, is_true, check_request, on_custom_request,
}

abbrev pub method_name : Direction → Text
method_name Direction.upload = text "files/authorizeUpload"
method_name Direction.download = text "files/authorizeDownload"

abbrev pub capability_name : Direction → Text
capability_name Direction.upload = text "upload"
capability_name Direction.download = text "download"

pub data ListsHttp : Items → Type 0 where
  here : (items : Items) → ListsHttp (item (string (text "http")) items)
  later : (value : Json) (items : Items) → ListsHttp items → ListsHttp (item value items)

-- The client declares that it transfers files in the direction, and lists HTTP.
pub record Declares (meta : Json) (direction : Direction) : Type 0 where
  pub capabilities : Json
  pub files : Json
  pub transports : Items
  pub declared : get (text "io.modelcontextprotocol/clientCapabilities") meta ≡ some capabilities
  pub with_files : get (text "files") capabilities ≡ some files
  pub directed : get (capability_name direction) files ≡ some (bool true)
  pub with_transports : get (text "transports") files ≡ some (array transports)
  pub over_http : ListsHttp transports

-- What an admitted request shows: its method, a declared transport, a verified owner, a lease that has not
-- ended, and the base of its URLs.
pub record IsAllowed (parse_url : Text → Option Text) (request : CustomRequest)
    (readings : Readings) (direction : Direction) (owner base : Text) : Type 0 where
  pub parts : Parts
  pub lease : RequestLease
  pub host : Text
  pub named : request.method ≡ method_name direction
  pub supported : Declares request.meta direction
  pub given : request.parts ≡ some parts
  pub verified : parts.owner ≡ some owner
  pub leased : parts.lease ≡ some lease
  pub running : (readings.cancelled ≡ false) × (readings.now < lease.budget.deadline)
  pub hosted : parts.host ≡ some host
  pub based : parse_url (text "http://" ++ (host ++ text "/")) ≡ some base

not_true : (b : Bool) → (if b then false else true) ≡ false → b ≡ true
not_true true h = refl
not_true false h = cc h

direction_of_method_sound :
    (method : Text) (direction : Direction)
    → direction_of_method method ≡ some direction
    → method ≡ method_name direction
unfolding direction_of_method
direction_of_method_sound method direction h =
    elim (Bool-cases (str_eq method (text "files/authorizeUpload"))) [
      | inl up ↦
          let same : Direction.upload ≡ direction = cc (rw (up, direction_of_method) at h) in
          rw (← same) (str_eq_sound method (text "files/authorizeUpload") up)
      | inr not_up ↦ elim (Bool-cases (str_eq method (text "files/authorizeDownload"))) [
        | inl down ↦
            let same : Direction.download ≡ direction =
              cc (rw (not_up, down, direction_of_method) at h) in
            rw (← same) (str_eq_sound method (text "files/authorizeDownload") down)
        | inr not_down ↦ absurd (cc (rw (not_up, not_down, direction_of_method) at h))
      ]
    ]

any_http_sound : (items : Items) → any_http items ≡ true → ListsHttp items
any_http_sound nil h = absurd (cc h)
any_http_sound (item (string s) items) h = elim (Bool-cases (str_eq s (text "http"))) [
  | inl first ↦ rw (str_eq_sound s (text "http") first) (here items)
  | inr other ↦ later (string s) items (any_http_sound items (rw other at h))
]
any_http_sound (item value items) h = later value items (any_http_sound items h)

lists_http_sound :
    (o : Option Json)
    → lists_http o ≡ true
    → (items : Items) × (o ≡ some (array items)) × ListsHttp items
lists_http_sound (some (array items)) h = (items, refl, any_http_sound items h)
lists_http_sound _ h = absurd (cc h)

is_true_sound : (o : Option Json) → is_true o ≡ true → o ≡ some (bool true)
is_true_sound (some (bool true)) h = refl
is_true_sound _ h = absurd (cc h)

direction_name_lem : (direction : Direction) → direction_name direction ≡ capability_name direction
direction_name_lem Direction.upload = refl
direction_name_lem Direction.download = refl

supports_http_sound :
    (meta : Json) (direction : Direction)
    → supports_http meta direction ≡ true
    → Declares meta direction
unfolding supports_http
supports_http_sound meta direction h =
    let key = text "io.modelcontextprotocol/clientCapabilities" in
    elim (Option-cases (get key meta)) [
      | inl missing ↦ absurd (cc (rw (missing, supports_http) at h))
      | inr (capabilities, e1) ↦ elim (Option-cases (get (text "files") capabilities)) [
        | inl missing ↦ absurd (cc (rw (e1, missing, supports_http) at h))
        | inr (files, e2) ↦
            let h' = rw (e1, e2, supports_http) at h in
            let (transports, e3, listed) =
              lists_http_sound (get (text "transports") files) (ground arith) in
            record {
              capabilities = capabilities;
              files = files;
              transports = transports;
              declared = e1;
              with_files = e2;
              directed =
                  ap (λ name. get name files) (sym (direction_name_lem direction))
                  ∙ is_true_sound (get (direction_name direction) files) (ground arith);
              with_transports = e3;
              over_http = listed;
            }
      ]
    ]

check_request_sound :
    (parse_url : Text → Option Text) (request : CustomRequest) (readings : Readings)
    (direction : Direction) (owner base : Text)
    → check_request parse_url request readings ≡ ok (direction, owner, base)
    → IsAllowed parse_url request readings direction owner base
unfolding check_request has_ended
check_request_sound parse_url request readings direction owner base h =
    bind_elim (ok_or (direction_of_method request.method) method_not_found) h λ d e1 h.
      bind_elim
        (refuse (if supports_http request.meta d then false else true) transport_unsupported) h
        λ _ e2 h. bind_elim (ok_or request.parts context_unavailable) h λ parts e3 h.
          bind_elim (ok_or parts.owner owner_unavailable) h λ principal e4 h.
            bind_elim (ok_or parts.lease lifetime_unavailable) h λ lease e5 h.
              bind_elim
                (refuse (has_ended lease.budget readings.cancelled readings.now) lifetime_ended) h
                λ _ e6 h. bind_elim (ok_or parts.host origin_unavailable) h λ host e7 h.
                  bind_elim
                    (ok_or (parse_url (text "http://" ++ (host ++ text "/"))) origin_unavailable) h
                    λ url e8 h.
                      let same_direction : d ≡ direction = cc h in
                      let same_owner : principal ≡ owner = cc h in
                      let same_base : url ≡ base = cc h in
                      let live = refuse-ok _ _ _ e6 in
                      record {
                        parts = parts;
                        lease = lease;
                        host = host;
                        named =
                            direction_of_method_sound request.method direction
                              (ok_or-ok _ _ _ e1 ∙ ap some same_direction);
                        supported =
                            rw (← same_direction) (
                              supports_http_sound request.meta d (not_true _ (refuse-ok _ _ _ e2)));
                        given = ok_or-ok _ _ _ e3;
                        verified = ok_or-ok _ _ _ e4 ∙ ap some same_owner;
                        leased = ok_or-ok _ _ _ e5;
                        running = (ground arith, ground arith);
                        hosted = ok_or-ok _ _ _ e7;
                        based = ok_or-ok _ _ _ e8 ∙ ap some same_base;
                      }

module _ (p : Platform) where
  -- A custom request that succeeds names one of the two methods, declares that the client transfers files in its
  -- direction over HTTP, and runs within a lease that has not ended. The file that it opens is listed as the
  -- verified owner's, and is the one that the request asks for: a new one with the name, the type and the size
  -- of an upload, which has no bytes, or the one whose URI a download gives, which has bytes. The answer
  -- describes that file, and carries the token of the grant that the file then has: for this direction, for
  -- a minute, at the file's address on the host of the request.
  pub on_custom_request_authorized :
      (parse_url : Text → Option Text) (request : CustomRequest) (readings : Readings)
      (s s' : TransferFiles) (given : FileValue × Descriptor)
      → on_custom_request p parse_url request readings s ≡ (ok given, s')
      → (direction : Direction) × (owner : Text) × (base : Text) × IsAllowed parse_url request
          readings direction owner base
        × IsOpened p request readings direction owner base given s'
  unfolding on_custom_request
  on_custom_request_authorized parse_url request readings s s' given h =
      elim (Result-cases (check_request parse_url request readings)) [
        | inr (e, failed) ↦ absurd (cc (rw (failed, on_custom_request) at h))
        | inl ((direction, owner, base), checked) ↦ (
          direction,
          owner,
          base,
          check_request_sound parse_url request readings direction owner base checked,
          subst (Opens p request readings direction owner base)
              (rw (checked, on_custom_request) at h)
              (authorize-Opens p request readings owner base s direction),
        )
      ]
