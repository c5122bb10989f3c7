-- ===== src/Api/Client/Bounded.antt =====
-- crates/komodo-api/src/lib.rs: which bodies `post_once` reads to their end.
use mathlib.Core.List.{append-nil, append_assoc}
use mcp_komodo_rs.Prelude.{
  ℕ, ◌+◌, ◌≤◌, ◌≡◌, ◌↔◌, refl, Bool, true, false, ltb, List, [], ◌∷◌, ◌++◌, length, length-append,
  ok, Bool-cases, inl, inr, arith, ok_inj, sym, ap, ◌∙◌,
}
use mcp_komodo_rs.Prelude.Text.{Text}
use mcp_komodo_rs.Api.Client.Http.{maximum_response_bytes, collect}

abbrev pub concat : List (List ℕ) → List ℕ
concat [] = []
concat (chunk ∷ chunks) = chunk ++ concat chunks

module _ (variant : Text) (status : ℕ) where
  collect_sound :
      (is_interrupted : Bool) (chunks : List (List ℕ)) (bytes body : List ℕ)
      → length bytes ≤ maximum_response_bytes
      → collect variant status is_interrupted chunks bytes ≡ ok body
      → (is_interrupted ≡ false)
        × (length body ≤ maximum_response_bytes)
        × (body ≡ bytes ++ concat chunks)
  unfolding collect
  collect_sound true [] bytes body small h = absurd (cc h)
  collect_sound false [] bytes body small h =
      let same = ok_inj bytes body h in (refl, rw (← same) small, sym same ∙ sym (append-nil bytes))
  collect_sound is_interrupted (chunk ∷ chunks) bytes body small h =
      elim (Bool-cases (ltb maximum_response_bytes (length bytes + length chunk))) [
        | inl large ↦ absurd (cc (rw large at h))
        | inr fits ↦
            let kept : length (bytes ++ chunk) ≤ maximum_response_bytes =
              ground (arith, length-append bytes chunk) in
            let (whole, bounded, e) =
              collect_sound is_interrupted chunks (bytes ++ chunk) body kept (rw fits at h) in
            (whole, bounded, e ∙ append_assoc bytes chunk (concat chunks))
      ]

  collect_complete :
      (chunks : List (List ℕ)) (bytes : List ℕ)
      → length (bytes ++ concat chunks) ≤ maximum_response_bytes
      → collect variant status false chunks bytes ≡ ok (bytes ++ concat chunks)
  unfolding collect
  collect_complete [] bytes small = ap ok (sym (append-nil bytes))
  collect_complete (chunk ∷ chunks) bytes small =
      let whole : length ((bytes ++ chunk) ++ concat chunks) ≤ maximum_response_bytes =
        rw (append_assoc bytes chunk (concat chunks)) small in
      elim (Bool-cases (ltb maximum_response_bytes (length bytes + length chunk))) [
        | inl large ↦ absurd (
            ground
              (arith, length-append bytes chunk, length-append (bytes ++ chunk) (concat chunks)))
        | inr fits ↦ rw fits (
            collect_complete chunks (bytes ++ chunk) whole
            ∙ ap ok (append_assoc bytes chunk (concat chunks)))
      ]

  -- A body is read exactly when it arrives whole and has 2 MiB at most, and what is read are its
  -- chunks in their order, whatever their sizes are.
  pub collect_iff :
      (is_interrupted : Bool) (chunks : List (List ℕ)) (body : List ℕ)
      → (collect variant status is_interrupted chunks [] ≡ ok body) ↔ (
          (is_interrupted ≡ false)
          × (length body ≤ maximum_response_bytes)
          × (body ≡ concat chunks))
  collect_iff is_interrupted chunks body = (
    collect_sound is_interrupted chunks [] body (omega arith),
    λ h. rw (h.0, h.2) (collect_complete chunks [] (rw (← h.2) h.1)),
  )
