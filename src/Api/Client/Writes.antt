-- ===== src/Api/Client/Writes.antt =====
-- crates/komodo-api/src/lib.rs: the mutating methods of `Client` send one request at most.
use mcp_komodo_rs.Prelude.{
  ◌≡◌, ◌⊎◌, inl, inr, ℕ, refl, false, Option, some, none, List, [], Result, err,
}
use mcp_komodo_rs.Prelude.Text.{Text, text}
use mcp_komodo_rs.Prelude.Tasks.{Always, Always-map}
use mcp_komodo_rs.Api.Types.{Action, variant, StackConfigPatch}
use mcp_komodo_rs.Api.Errors.{ApiError, invalid_configuration}
use mcp_komodo_rs.Api.Json.{Json}
use mcp_komodo_rs.Api.Client.Http.{Libraries, Client, Response, receive, post}
use mcp_komodo_rs.Api.Client.Requests.{Bodies, update_stack, write_stack_file, execute}
use mcp_komodo_rs.Api.Client.Posts.{Log, sent, Attempts, unsent, once, twice, post-Attempts}

module _ {Url : Type 0} (libraries : Libraries Url) (client : Client Url) where
  -- Nothing is sent, or one request for the variant to the given family, whose reply is the result.
  abbrev pub SendsOnce :
      {T : Type 0} → (List ℕ → Option T) → Text → Text → Log Url → Result ApiError T → Type 0
  SendsOnce {T} from_slice family variant h result =
      ((h ≡ [])
        × (libraries.join client.base_url family ≡ none)
        × (result ≡ err (invalid_configuration (text "base URL"))))
      ⊎ ((params : Json) × (endpoint : Url) × (reply : Option Response) × (libraries.join
              client.base_url family
            ≡ some endpoint)
          × (h ≡ sent libraries client variant params endpoint reply [])
          × (result ≡ receive libraries client from_slice variant params reply))

  post-SendsOnce :
      {T : Type 0} (from_slice : List ℕ → Option T) (family variant : Text) (params : Json)
      → Always
          (SendsOnce from_slice family variant)
          []
          (post libraries client from_slice family variant params false)
  post-SendsOnce {T} from_slice family kind params =
      Always-map to_SendsOnce [] (post libraries client from_slice family kind params false)
        (post-Attempts libraries client from_slice family kind params false [])
    where
      to_SendsOnce :
          (h : Log Url) (r : Result ApiError T)
          → Attempts libraries client from_slice family kind params false [] h r
          → SendsOnce from_slice family kind h r
      to_SendsOnce _ _ (unsent e) = inl (refl, e, refl)
      to_SendsOnce _ _ (once endpoint reply e _) = inr (params, endpoint, reply, e, refl, refl)
      to_SendsOnce _ _ (twice endpoint first second e t) = elim t [ ]

  module _ (bodies : Bodies) where
    -- Whatever the network does, an action, a change of a stack's configuration and the writing of a file
    -- send one request at most, also when its outcome is unknown; the result is made of that request's
    -- reply, and nothing is sent only if the address of the family cannot be made.
    pub mutations_sent_once :
        (action : Action) (target path contents : Text) (patch : StackConfigPatch)
        → Always
            (SendsOnce bodies.receipt (text "execute") (variant action))
            []
            (execute libraries client bodies action target)
          × Always
              (SendsOnce bodies.ack (text "write") (text "UpdateStack"))
              []
              (update_stack libraries client bodies target patch)
          × Always
              (SendsOnce bodies.receipt (text "write") (text "WriteStackFileContents"))
              []
              (write_stack_file libraries client bodies target path contents)
    unfolding execute update_stack write_stack_file
    mutations_sent_once action target path contents patch = (
      post-SendsOnce bodies.receipt (text "execute") (variant action) _,
      post-SendsOnce bodies.ack (text "write") (text "UpdateStack") _,
      post-SendsOnce bodies.receipt (text "write") (text "WriteStackFileContents") _,
    )
