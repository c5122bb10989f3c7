-- ===== src/Lib.antt =====
-- mcp-komodo-rs: a server that offers the operations of Komodo Core as tools of the Model Context
-- Protocol. This library models its logic and states what makes it correct.
--
-- The program has three crates. crates/komodo-api is the client of Komodo Core; crates/komodo-mcp holds
-- the tools, which call the client through the trait `KomodoApi` and credential files through the trait
-- `CredentialFiles`; crates/komodo-server implements the latter and serves the tools over HTTP or
-- standard input. The modules follow the crates:
--
--   Prelude            tests, lists, results, text, maps, integers, and tasks
--   Api                crates/komodo-api/src: the resources of the inventory (`Resources`), the data that
--                      the tools share (`Types`, `Stacks`, `Networks`, `Operations`), the errors
--                      (`Errors`), credentials (`Credentials`), and the JSON that is sent (`Json`)
--   Api.Failures       crates/komodo-api/src/errors.rs: what is kept of an unsuccessful response
--                      (`Project`), and that it repeats no credential (`Scan`, `Hides`)
--   Api.Client         crates/komodo-api/src/lib.rs, `Client`: its requests (`Http`, `Posts`, `Bounded`),
--                      the cached version of Core (`Version`, `Fresh`), the methods of `KomodoApi`
--                      (`Requests`, `Writes`, `Hides`), and the checks of its address (`Address`)
--   Api.Inventory      crates/komodo-api/src/inventory.rs: pages and selectors (`Pages`), what a selector
--                      resolves to (`Resolve`, `Complete`)
--   Mcp.Profile        crates/komodo-mcp/src/lib.rs: `TOOL_REGISTRY` (`Registry`), `ToolProfile`,
--                      `available_tools` and `dispatch` (`Dispatch`), what they promise (`Catalog`)
--   Mcp.Inputs         crates/komodo-mcp/src/lib.rs: the validation of inputs (`Validate`), `select`
--                      (`Select`, `Selects`, `Found`), `collection_page` (`Window`), `search`
--                      (`Search`, `Pages`)
--   Mcp.Operations     the filter of `operations.search` in crates/komodo-mcp/src/lib.rs and
--                      crates/komodo-api/src/operations.rs (`Filter`, `Matches`), outcomes (`Outcome`)
--   Mcp.Tasks          the calls of the tools (`Calls`), and `api_error`, `mutation_error` and `admin`
--                      (`Report`, `Quiet`), of crates/komodo-mcp/src/errors.rs and lib.rs; how often a
--                      tool submits (`Counted`)
--   Mcp.Reads          crates/komodo-mcp/src/lib.rs and networks.rs: the reading methods (`Inputs`,
--                      `Methods`, `Stacks`, `Networks`, `Operations`), what they answer (`Views`,
--                      `Normalize`, `StackViews`), the documents of crates/komodo-mcp/src/history.rs
--                      (`History`), and that they do not submit (`Silent`, `SilentOperations`)
--   Mcp.Mutations      crates/komodo-mcp/src/lib.rs: `mutate` (`Submit`), the patches (`Patches`) and the
--                      writing methods (`Methods`), what they promise (`Once`, `Targets`, `Promises`,
--                      `Valid`, `Applied`, `Writes`, `Secrets`, `Single`), and when they succeed
--                      (`Succeeds`)
--   Mcp.Serve          crates/komodo-mcp/src/lib.rs: the methods of `dispatch` (`Run`), `call_tool`
--                      (`CallTool`), how often it submits (`Submissions`), and what it lets through of
--                      results and errors (`Failures`)
--   Mcp.Execution, Mcp.Files, Mcp.Errors
--                      crates/komodo-mcp/src/execution.rs, files.rs, and the errors of rmcp
--   Server.Files       crates/komodo-server/src/files.rs: `TransferFiles` (`Types`, `Grants`, `Authorize`,
--                      `Transfer`), its bounds (`Capacity`, `Bounded`), who gets a file (`Access`), round
--                      trips (`RoundTrip`, `Download`), `DownloadBody` (`Body`), and the handlers over
--                      HTTP (`Http`) with what reaches them (`Admits`, `Streams`)
--   Server.Auth        crates/komodo-server/src/auth.rs: `GatewayBearers` (`Bearers`), the claims of a token
--                      (`Claims`), the cache of keys (`Keys`), and `authenticate` (`Ingress`)
--   Server.Config      crates/komodo-server/src/config.rs: variables and numbers (`Numbers`,
--                      `Environment`), the settings (`Settings`), their bounds (`Bounds`), and the
--                      settings for reading (`Restricted`)
--   Server.Lifecycle   crates/komodo-server/src/lifecycle.rs: the leases of requests as a step relation
--                      (`Limits`, `Permits`), `ScopedMcp` (`Scoped`), and whose files it opens, for
--                      which transfer (`Opened`, `Owners`)
--   Server.Stdio       crates/komodo-server/src/stdio.rs: `BoundedStdio` (`Transport`) as a step relation,
--                      what it receives (`Frames`), and its bounds (`Pending`)
--
-- A method that mutates an object behind a lock is a function of the object's state, which it gives
-- back beside its result, errors included; what it reads from the clock and from the entropy source are
-- arguments. An asynchronous method is a task: it makes calls, each with a reply, and ends with a
-- result; what is stated with `Always` holds for all replies. Results of fallible code are values of
-- `Result`. Texts are lists of code points, with the length and the bytes of UTF-8; numbers are
-- unbounded where the source cannot exceed their type, and the bound is written out where it can.
--
-- The operations of other crates are arguments: those of `TransferFiles` a record of functions,
-- `Server.Files.Types.Platform`, with a record of laws for what is documented of them; for the
-- gateway, the comparison of bytes, the search in a set of keys, what a fetch of keys gives, and
-- the verifier of a token; for standard input, the JSON of messages and what reads and writes give;
-- for the client, what is sent and replied, the parsers of bodies and URLs, and the search for
-- credentials in a text, with the record of laws `Api.Failures.Hides.Searches`; for the settings,
-- what `env::var` gives and the parser of URLs; for the tools, the JSON of arguments and results
-- (`Mcp.Serve.CallTool.Serde`), `from_utf8`, and what `PreparedDocument::parse` makes of a document.
-- Fuel stands only in clients that the theorems describe (`follow`, `follow_search`, `drain`), with
-- one unit for each item, which is enough. The loop of `Api.Inventory.Pages.scan_pages` counts the
-- source's 16 pages down.
--
-- Not modelled: parsing and printing of JSON and of schemas (serde, schemars), routing and transports
-- (axum, rmcp), logging; the sending of requests (reqwest), the decoding and the signature of tokens,
-- and how credentials are taken out of the documents of the operation history.
mod Prelude
pub mod Api
pub mod Mcp
pub mod Server
