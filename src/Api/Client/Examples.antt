-- ===== src/Api/Client/Examples.antt =====
-- crates/komodo-api/src/lib.rs: `Client` on concrete data.
use mcp_komodo_rs.Prelude.{
  ℕ, ◌+◌, ◌↔◌, Bool, ◌≤◌, ◌≡◌, ◌++◌, refl, true, false, some, none, List, [], ◌∷◌, length, ok,
}
use mcp_komodo_rs.Prelude.Text.{Text, text, strip_prefix, split}
use mcp_komodo_rs.Prelude.Numbers.{parse, parse_digits}
use mcp_komodo_rs.Prelude.Tasks.{Always, result}
use mcp_komodo_rs.Api.Types.{default, deploy_stack, variant, StackConfigPatch}
use mcp_komodo_rs.Api.Json.{object, end}
use mcp_komodo_rs.Api.Networks.{uses_current_names}
use mcp_komodo_rs.Api.Failures.Examples
use mcp_komodo_rs.Api.Client.Http.{
  Libraries, Client, Response, Call, Reply, send, now, maximum_response_bytes, collect, receive,
  read_body, post, post_once,
}
use mcp_komodo_rs.Api.Client.Version.{Cache, version, core_version_cache_ttl, core_2_3_or_later}
use mcp_komodo_rs.Api.Client.Requests.{Bodies, update_stack, write_stack_file, execute}
use mcp_komodo_rs.Api.Client.Posts.{Log, sent}
use mcp_komodo_rs.Api.Client.Writes.{SendsOnce, mutations_sent_once}
use mcp_komodo_rs.Api.Client.Fresh.{Backed, read, Holds, core_version_fresh}
use mcp_komodo_rs.Api.Client.Bounded.{collect_iff, concat}
use mcp_komodo_rs.Api.Client.Hides.{FailureHides, listed, update_stack_hides}

abbrev libraries : Libraries Text
libraries = record {
  join = λ base family. some (base ++ family);
  build = Examples.build;
  parse_reported = Examples.parse;
  from_utf8 = Examples.from_utf8;
}

abbrev client : Client Text
client = record {
  base_url = text "http://core:9120/";
  credentials = record { key = text "key"; secret = text "secret" };
}

abbrev bodies : Bodies
bodies = record {
  version = λ bytes. some bytes;
  networks = λ _. none;
  network = λ _. none;
  updates = λ _. none;
  update = λ _. none;
  stack = λ _. none;
  log = λ _. none;
  update_logs = λ _. none;
  ack = λ _. some tt;
  receipt = λ _. none;
}

abbrev answer : ℕ → Text → Response
answer status body = record { status = status; chunks = body ∷ []; is_interrupted = false }

abbrev replies : (c : Call Text) → Reply Text c
replies (send post) = some (answer 200 (text "2.3.1"))
replies now = 5

version_is_read :
    result replies (core_2_3_or_later libraries client bodies.version none)
    ≡ ok (ok true, some (record { at_least_2_3 = true; expires_at = 5 + core_version_cache_ttl }))
unfolding core_2_3_or_later version post post_once receive collect read_body uses_current_names
    strip_prefix split parse parse_digits
version_is_read = refl

abbrev patch : StackConfigPatch
patch = record default { webhook_secret = some (text "hook") }

mutations_sent_once_example :
    Always
      (SendsOnce libraries client bodies.receipt (text "execute") (variant deploy_stack))
      []
      (execute libraries client bodies deploy_stack (text "app"))
    × Always
        (SendsOnce libraries client bodies.ack (text "write") (text "UpdateStack"))
        []
        (update_stack libraries client bodies (text "app") patch)
    × Always
        (SendsOnce libraries client bodies.receipt (text "write") (text "WriteStackFileContents"))
        []
        (write_stack_file libraries client bodies
          (text "app")
          (text "compose.yaml")
          (text "services:"))
mutations_sent_once_example =
    mutations_sent_once libraries client bodies deploy_stack (text "app") (text "compose.yaml")
      (text "services:") patch

abbrev chunks : List (List ℕ)
chunks = (1 ∷ 2 ∷ []) ∷ (3 ∷ []) ∷ []

abbrev body : List ℕ
body = 1 ∷ 2 ∷ 3 ∷ []

collect_iff_example :
    (collect (text "GetVersion") 200 false chunks [] ≡ ok body)
    ↔ (◌≡◌ {A = Bool} false false × (length body ≤ maximum_response_bytes) × (body ≡ concat chunks))
collect_iff_example = collect_iff (text "GetVersion") 200 false chunks body

abbrev version_read : Log Text
version_read =
    (now, 5)
    ∷ sent libraries client (text "GetVersion") (object end) (text "http://core:9120/read")
        (some (answer 200 (text "2.3.1"))) []

abbrev cache : Cache
cache = some (record { at_least_2_3 = true; expires_at = 5 + core_version_cache_ttl })

version_read-Backed :
    Backed libraries client bodies.version true (5 + core_version_cache_ttl) version_read
unfolding receive collect read_body uses_current_names strip_prefix split parse parse_digits
version_read-Backed =
    read (text "http://core:9120/read") (some (answer 200 (text "2.3.1"))) (text "2.3.1") 5 [] refl
      refl refl

core_version_fresh_example :
    Always
      (Holds libraries client bodies.version)
      version_read
      (core_2_3_or_later libraries client bodies.version cache)
core_version_fresh_example =
    core_version_fresh libraries client bodies.version version_read cache version_read-Backed

update_stack_hides_example :
    Always
      (λ h r. FailureHides (text "key" ∷ text "secret" ∷ listed (some (text "hook"))) r)
      []
      (update_stack libraries client bodies (text "app") patch)
update_stack_hides_example =
    update_stack_hides libraries Examples.build-Searches client bodies (text "app") patch
