-- ===== src/Message/SyncPayload.antt =====
-- The client lists that servers send to one another, as text.
use cpsc.Common.{ℤ, List, [], ◌∷◌, ◌++◌, ◌≡◌, ◌≢◌, sym, ◌∙◌, arith, All, append_assoc, append-nil}
use cpsc.Text.{Bytes}
use cpsc.Constants.{MessageType, sync_identifier_delimiter}
use cpsc.Message.{
  sync_message, create_server_sync_payload, append_identifiers, view_server_sync_payload,
  collect_identifiers,
}

-- A name that can be told apart in the list: it holds no comma.
abbrev pub IsListable : Bytes → Type 0
IsListable = All (λ c. c ≢ sync_identifier_delimiter)

-- Each name with a comma behind it.
spelled : List Bytes → Bytes
spelled [] = []
spelled (client ∷ clients) = client ++ sync_identifier_delimiter ∷ spelled clients

append_identifiers-spelled :
    (constructed : Bytes) (clients : List Bytes)
    → append_identifiers constructed clients ≡ constructed ++ spelled clients
unfolding append_identifiers spelled
append_identifiers-spelled constructed [] = sym (append-nil constructed)
append_identifiers-spelled constructed (client ∷ clients) =
    append_identifiers-spelled (constructed ++ (client ++ sync_identifier_delimiter ∷ [])) clients
    ∙ simp append_assoc

collect_identifiers-name :
    (out : List Bytes) (found client s : Bytes)
    → IsListable client
    → collect_identifiers out found (client ++ s) ≡ collect_identifiers out (found ++ client) s
unfolding collect_identifiers
collect_identifiers-name out found [] s h = simp append-nil
collect_identifiers-name out found (c ∷ client) s h = ground (
  arith,
  collect_identifiers-name out (found ++ c ∷ []) client s,
  append_assoc found (c ∷ []) client,
)

collect_identifiers-spelled :
    (out clients : List Bytes)
    → All IsListable clients
    → collect_identifiers out [] (spelled clients) ≡ out ++ clients
unfolding collect_identifiers spelled
collect_identifiers-spelled out [] h = sym (append-nil out)
collect_identifiers-spelled out (client ∷ clients) h =
    collect_identifiers-name out [] client (sync_identifier_delimiter ∷ spelled clients) h.0
    ∙ collect_identifiers-spelled (out ++ client ∷ []) clients h.1
    ∙ append_assoc out (client ∷ []) clients

-- The list that a sync message was made from is read back from it, in order, if no name in it
-- holds a comma.
pub view_server_sync_payload-sync_message :
    (n origin : ℤ) (t : MessageType) (source destination : Bytes) (clients : List Bytes)
    → All IsListable clients
    → view_server_sync_payload (sync_message n t source destination clients origin) ≡ clients
unfolding view_server_sync_payload create_server_sync_payload
view_server_sync_payload-sync_message n origin t source destination clients h =
    rw (append_identifiers-spelled [] clients) (collect_identifiers-spelled [] clients h)
