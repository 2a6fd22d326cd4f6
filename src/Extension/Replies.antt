-- ===== src/Extension/Replies.antt =====
-- background/mac-companion.ts: which of the client's calls may reject, and why.
use unuvault.Extension.Client.{
  Request, Network, MetadataReply, read_credential_metadata, request_credential_release,
}
use unuvault.Extension.Client.{Response, metadata_or_unavailable, json_or_unavailable, ask_metadata}
use unuvault.Extension.{CompanionPage, Rejection}
use unuvault.Prelude.{Text, Option, some, none, Result, ok, err, ◌≡◌, refl, arith}

module _ {S : Type 0} (network : Network S) (base_url : Text) where
  asked_total :
      (answer : Result Rejection Response × S)
      → (reply : MetadataReply) × (t : S) × (metadata_or_unavailable network base_url answer
          ≡ (ok reply, t))
  asked_total (ok response, t) = (_, t, refl)
  asked_total (err e, t) = (_, t, refl)

  -- Reading the metadata never rejects, whatever the network does.
  read_credential_metadata_total :
      (options : CompanionPage) (s : S)
      → (reply : MetadataReply) × (t : S) × (read_credential_metadata network base_url options s
          ≡ (ok reply, t))
  unfolding read_credential_metadata
  read_credential_metadata_total options s = by_url _
    where
      by_url :
          (url : Option Text)
          → (reply : MetadataReply) × (t : S) × (ask_metadata network base_url options url s
              ≡ (ok reply, t))
      by_url none = (_, s, refl)
      by_url (some url) = asked_total (network.fetcher _ s)

  json_inv :
      (answer : Result Rejection Response × S) (e : Rejection) (t : S)
      → json_or_unavailable network base_url answer ≡ (err e, t)
      → (response : Response) × (answer ≡ (ok response, t)) × (response.json ≡ err e)
  json_inv (ok response, u) e t h = (response, ground (arith, h), ground (arith, h))
  json_inv (err f, u) e t h = absurd (ground arith)

  -- A request for a release rejects only over a reply whose body is no JSON.
  request_credential_release-rejects :
      (options : CompanionPage) (id reason : Text) (s t : S) (e : Rejection)
      → request_credential_release network base_url options id reason s ≡ (err e, t)
      → (request : Request) × (response : Response) × (network.fetcher request s ≡ (ok response, t))
        × (response.json ≡ err e)
  unfolding request_credential_release
  request_credential_release-rejects options id reason s t e h =
      let (response, given, body) = json_inv (network.fetcher _ s) e t h in
      (_, response, given, body)
